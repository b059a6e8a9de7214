-- ===== src/Planning/Validation.antt =====
-- `validate_complete` of vigilo/src/run_planning/accumulator.rs: the last tests of a plan.
use agent_vigilo.Prelude.{
  ℕ, zero, suc, Bool, true, ◌&&◌, Option, none, some, List, [], ◌∷◌, is_some, ◌<=>◌, Result, ok,
  ◌>>=◌, ◌>>◌, ensure, ok_or,
}
use agent_vigilo.Prelude.Int.{ℤ, pos, ◌+ℤ◌, ltb_ℤ, eqb_ℤ}
use agent_vigilo.Prelude.Text.{Text}
use agent_vigilo.Prelude.Dict.{get}
use agent_vigilo.Planning.{
  shard_count, PlanError, ShardState, Accumulator, missing_gate, incomplete_planning,
  placement_coverage, unmatched_gate,
}

module _ {H : Type 0} where
  -- One set of shards has an alias and a state.
  unfoldable pub same_shards : Accumulator H → ℕ → Bool
  same_shards a zero = true
  same_shards a (suc n) = (is_some (a.aliases n) <=> is_some (a.shards n)) && same_shards a n

  unfoldable pub shard_gate : Option (ShardState H) → Text → Result PlanError ℤ
  shard_gate none id = ok (pos 0)
  shard_gate (some state) id = ok_or (get id state.gates) missing_gate

  -- The sum over the shards below a number. At most 128 counts of 32 bits fit 64 bits.
  unfoldable pub gate_total : Accumulator H → Text → ℕ → Result PlanError ℤ
  gate_total a id zero = ok (pos 0)
  gate_total a id (suc n) = do
    rest ← gate_total a id n
    count ← shard_gate (a.shards n) id
    ok (rest +ℤ count)

  unfoldable pub check_gate_totals : Accumulator H → List Text → Result PlanError (Unit {0})
  check_gate_totals a [] = ok tt
  check_gate_totals a (id ∷ ids) = do
    total ← gate_total a id shard_count
    ensure (ltb_ℤ (pos 0) total) unmatched_gate
    check_gate_totals a ids

  unfoldable pub validate_complete : Accumulator H → ℤ → Result PlanError (Unit {0})
  validate_complete a count = do
    ensure (ltb_ℤ (pos 0) count && eqb_ℤ (pos a.ordinal) count && eqb_ℤ (pos a.chunk_start) count)
        incomplete_planning
    ensure (same_shards a shard_count) placement_coverage
    check_gate_totals a a.gate_ids
