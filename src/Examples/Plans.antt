-- ===== src/Examples/Plans.antt =====
-- A plan of two cases on one shard.
use agent_vigilo.Prelude.{ℕ, ◌+◌, ◌<◌, ◌≡◌, refl, true, none, some, List, [], ◌∷◌, any, ok, err}
use agent_vigilo.Prelude.Int.{ℤ, pos, ◌+ℤ◌, ◌-ℤ◌, checked_add, eqb_ℤ}
use agent_vigilo.Prelude.Text.{Text, codes, text_eq, text_lt, byte_len}
use agent_vigilo.Prelude.Dict.{get, insert}
use agent_vigilo.Storage.Chunks.{RunChunk}
use agent_vigilo.Planning.{
  ordinal_gap, ShardState, empty_plan, PlannedCase, Digests, Accumulator, run_shard_for_chunk_index,
  no_repeats, alias_of, zero_gates, count_gates, push_identity, new_accumulator, put_shard,
  chunk_of, finish_chunk, add_case, push_case, plan_cases,
}
use agent_vigilo.Planning.Validation.{
  same_shards, shard_gate, gate_total, check_gate_totals, validate_complete,
}
use agent_vigilo.Planning.Consecutive.{Follows, AreInOrder}
use agent_vigilo.Planning.Complete.{complete_plan-Follows}

abbrev digests : Digests ℕ
digests = record {
  projection = 0;
  update = λ hash row. hash + row.case_ordinal + 1;
  to_hex = λ hash. hash ∷ [];
  chunk_uuid = λ run index. run + index;
  plan_hash = λ hash chunk. chunk.chunk_id ∷ hash;
}

abbrev case_at : ℕ → PlannedCase
case_at n = record {
  case_ordinal = pos n;
  case_id = codes "c";
  case_hash = codes "h";
  resolved = ok 2;
  matches = λ gate. true;
}

abbrev cases : List PlannedCase
cases = case_at 0 ∷ case_at 1 ∷ []

abbrev chunk : RunChunk
chunk = record {
  chunk_index = pos 0;
  chunk_id = 5;
  run_shard = pos 0;
  ordinal_start = pos 0;
  ordinal_end = pos 2;
  profile_group_id = codes "default";
  case_projection_hash = 3 ∷ [];
}

abbrev assignments : List (ℤ × Text)
assignments = (pos 0, codes "db") ∷ []

abbrev started : Accumulator ℕ
started = record {
  run_id = 5;
  version = 7;
  gate_ids = codes "g" ∷ [];
  aliases = alias_of assignments;
  shards = λ shard. none;
  chunk_count = 0;
  evaluator_count = 0;
  ordinal = 0;
  chunk_hash = 0;
  chunk_start = 0;
}

abbrev planned_state : ShardState ℕ
planned_state = record {
  plan = record {
    chunk_count = pos 1;
    case_count = pos 2;
    hash = 5 ∷ [];
    last =
        some
          (record { chunk_id = 5; run_shard = pos 0; ordinal_start = pos 0; ordinal_end = pos 2 });
  };
  gates = (codes "g", pos 2) ∷ [];
  projection = 3;
  alias = codes "db";
}

abbrev waiting : ℕ → ℕ → ShardState ℕ
waiting count hash = record {
  plan = empty_plan;
  gates = (codes "g", pos count) ∷ [];
  projection = hash;
  alias = codes "db";
}

abbrev ended : Accumulator ℕ
ended = record started {
  shards =
      put_shard (put_shard (put_shard (λ shard. none) 0 (waiting 1 1)) 0 (waiting 2 3)) 0
        planned_state;
  chunk_count = 1;
  evaluator_count = 4;
  ordinal = 2;
  chunk_hash = 0;
  chunk_start = 2;
}

starts : new_accumulator digests 5 7 (codes "g" ∷ []) assignments ≡ ok started
unfolding new_accumulator no_repeats byte_len text_eq
starts = refl

plans : plan_cases digests started cases ≡ ok (ended, chunk ∷ [])
unfolding plan_cases push_case add_case finish_chunk chunk_of push_identity put_shard count_gates
    zero_gates alias_of run_shard_for_chunk_index get insert text_eq text_lt checked_add ◌+ℤ◌ ◌-ℤ◌
plans = refl

completes : validate_complete ended (pos 2) ≡ ok tt
unfolding validate_complete put_shard same_shards check_gate_totals gate_total shard_gate alias_of
    get insert text_eq text_lt ◌+ℤ◌
completes = refl

complete_plan-Follows_example :
    (pos 2 ≡ pos 2)
    × AreInOrder 0 cases
    × Follows 0 0 (chunk ∷ []) 1 2
    × ((shard : ℕ)
        → shard < 128
        → any (λ p. eqb_ℤ (p.0) (pos shard)) assignments
          ≡ any (λ c. eqb_ℤ c.run_shard (pos shard)) (chunk ∷ []))
complete_plan-Follows_example =
    complete_plan-Follows digests 5 7 (codes "g" ∷ []) assignments cases started ended (chunk ∷ [])
      (pos 2) starts plans completes

-- A case out of order is refused.
gap_refused : plan_cases digests started (case_at 1 ∷ []) ≡ err ordinal_gap
unfolding plan_cases push_case add_case
gap_refused = refl
