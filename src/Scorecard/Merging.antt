-- ===== src/Scorecard/Merging.antt =====
-- The merging of shard scorecards in vigilo/src/contracts/scorecard.rs.
use agent_vigilo.Prelude.{
  not, Option, none, some, List, [], ◌∷◌, map, if◌then◌else◌, is_none, is_none_or, is_some_and,
  length, all, Result, ok, ◌>>=◌, ◌>>◌, ensure,
}
use agent_vigilo.Prelude.Int.{ℤ, leb_ℤ, eqb_ℤ}
use agent_vigilo.Prelude.Text.{Text, text_eq}
use agent_vigilo.Prelude.Float.{Float}
use agent_vigilo.Prelude.Dict.{Dict, get, insert, keys, values}
use agent_vigilo.Scorecard.Evaluation.{evaluate_entry}
use agent_vigilo.Scorecard.{
  scorecard_version, texts_eq, validate_entry, merge_entry, ScorecardError, ScorecardEntry,
  ShardScorecard, RunScorecard, repeated_gate, policy_hash_mismatch, gate_sets_differ,
  duplicate_shard, unsupported_version,
}

-- `sort_by_key(run_shard)`, which is stable.
module _ {ℓ} {W : Type ℓ} where
  unfoldable pub insert_shard : ShardScorecard W → List (ShardScorecard W) → List (ShardScorecard W)
  insert_shard s [] = s ∷ []
  insert_shard s (t ∷ ts) =
      if leb_ℤ s.run_shard t.run_shard then s ∷ t ∷ ts else t ∷ insert_shard s ts

  unfoldable pub sort_shards : List (ShardScorecard W) → List (ShardScorecard W)
  unfolding insert_shard
  sort_shards [] = []
  sort_shards (s ∷ ss) = insert_shard s (sort_shards ss)

module _ {ℓ} {W : Type ℓ} ⦃f : Float W⦄ where
  unfoldable pub merge_into :
      Option (ScorecardEntry W) → ScorecardEntry W → Result ScorecardError (ScorecardEntry W)
  merge_into (some target) source = merge_entry target source
  merge_into none source = do validate_entry source; ok source

  -- The inner loop of `merge_shard_scorecards`, over the entries of one shard: the merged entries,
  -- and the identifiers that the shard has shown so far.
  unfoldable pub merge_entries :
      Dict (ScorecardEntry W)
      → Dict (Unit {0})
      → List (ScorecardEntry W)
      → Result ScorecardError (Dict (ScorecardEntry W) × Dict (Unit {0}))
  merge_entries entries ids [] = ok (entries, ids)
  merge_entries entries ids (e ∷ es) = do
    ensure (is_none (get e.id ids)) (repeated_gate e.id)
    merged ← merge_into (get e.id entries) e
    merge_entries (insert e.id merged entries) (insert e.id tt ids) es

  -- The outer loop, from the shard before and the first shard's gate set.
  unfoldable pub merge_shards :
      Text
      → Option ℤ
      → Option (List Text)
      → Dict (ScorecardEntry W)
      → List (ShardScorecard W)
      → Result ScorecardError (Dict (ScorecardEntry W))
  merge_shards hash previous expected entries [] = ok entries
  merge_shards hash previous expected entries (s ∷ ss) = do
    ensure (not (is_some_and (λ p. eqb_ℤ s.run_shard p) previous)) (duplicate_shard s.run_shard)
    ensure (eqb_ℤ s.version scorecard_version) (unsupported_version s.version)
    ensure (text_eq s.policy_hash hash) policy_hash_mismatch
    (entries', ids) ← merge_entries entries [] s.entries
    ensure (is_none_or (λ e. texts_eq e (keys ids)) expected) gate_sets_differ
    merge_shards hash (some s.run_shard) (some (keys ids)) entries' ss

  unfoldable pub merge_shard_scorecards :
      Text → List (ShardScorecard W) → Result ScorecardError (RunScorecard W)
  merge_shard_scorecards hash shards = do
    entries ← merge_shards hash none none [] (sort_shards shards)
    let gates = map evaluate_entry (values entries)
    ok (record {
      version = scorecard_version;
      policy_hash = hash;
      shard_count = length shards;
      passed = all (λ g. g.passed) gates;
      gates = gates;
    })
