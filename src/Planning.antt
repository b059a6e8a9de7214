-- ===== src/Planning.antt =====
-- vigilo/src/run_planning/accumulator.rs, with `Manifest::push` of
-- vigilo/src/db/workflows/run_shard_summary/plan.rs: how the cases of a dataset become the chunks of
-- a run. The counters of the accumulator start at 0 and only grow, so they are numbers, tested against
-- the range of `i32` and `u64`. A map with shards as keys is a function from them, and every shard is
-- below 128. A case stands for its record after `CaseRecord::validate`: `resolved` is what
-- `validate_resolved_case` returns, and `matches` tells the gates for which `case_matches_gate` holds.
-- The digests and the UUID made of a digest are parameters. Where the source changes the accumulator
-- and then returns an error, the caller drops it.
use agent_vigilo.Prelude.{
  ℕ, ◌+◌, ◌-◌, ◌%◌, ◌^◌, Bool, true, not, ◌&&◌, Option, none, some, List, [], ◌∷◌, ltb, leb, ◌==◌,
  if◌then◌else◌, length, is_empty, all, any, Result, ok, ◌>>=◌, ◌>>◌, ensure, ok_or,
}
use agent_vigilo.Prelude.Int.{ℤ, pos, ◌-ℤ◌, leb_ℤ, ltb_ℤ, eqb_ℤ, checked_add}
use agent_vigilo.Prelude.Text.{Text, codes, text_eq, byte_len}
use agent_vigilo.Prelude.Dict.{Dict, get, insert}
use agent_vigilo.Storage.Chunks.{RunChunk}
pub mod Consecutive
pub mod Coverage
pub mod Complete
pub mod Validation

pub data PlanError : Type 0 where
  too_many_gates bad_gate_ids bad_assignments ordinal_gap unresolved : PlanError
  evaluator_overflow missing_placement missing_gate gate_overflow case_overflow : PlanError
  missing_shard bad_planned_range planned_overlap planned_chunks planned_cases : PlanError
  chunk_overflow incomplete_planning placement_coverage unmatched_gate : PlanError

abbrev pub shard_count : ℕ
shard_count = 128

unfoldable pub run_shard_for_chunk_index : ℕ → ℕ
run_shard_for_chunk_index chunk_index = chunk_index % shard_count

pub record ChunkIdentity : Type 0 where
  pub chunk_id : ℕ
  pub run_shard : ℤ
  pub ordinal_start : ℤ
  pub ordinal_end : ℤ

pub record PlanManifest : Type 0 where
  pub chunk_count : ℤ
  pub case_count : ℤ
  pub hash : Text
  pub last : Option ChunkIdentity

abbrev pub empty_plan : PlanManifest
empty_plan = record { chunk_count = pos 0; case_count = pos 0; hash = []; last = none }

pub record PlannedCase : Type 0 where
  pub case_ordinal : ℤ
  pub case_id : Text
  pub case_hash : Text
  pub resolved : Result PlanError ℕ
  pub matches : Text → Bool

-- The row that the projection hash is fed with.
pub record CaseRow : Type 0 where
  pub run_id : ℕ
  pub run_shard : ℕ
  pub dataset_version_id : ℕ
  pub case_id : Text
  pub case_ordinal : ℕ
  pub case_hash : Text

pub record Digests (H : Type 0) : Type 0 where
  pub projection : H
  pub update : H → CaseRow → H
  pub to_hex : H → Text
  pub chunk_uuid : ℕ → ℕ → ℕ
  pub plan_hash : Text → ChunkIdentity → Text

pub record ShardState (H : Type 0) : Type 0 where
  pub plan : PlanManifest
  pub gates : Dict ℤ
  pub projection : H
  pub alias : Text

pub record Accumulator (H : Type 0) : Type 0 where
  pub run_id : ℕ
  pub version : ℕ
  pub gate_ids : List Text
  pub aliases : ℕ → Option Text
  pub shards : ℕ → Option (ShardState H)
  pub chunk_count : ℕ
  pub evaluator_count : ℕ
  pub ordinal : ℕ
  pub chunk_hash : H
  pub chunk_start : ℕ

-- The set that is collected from a list is as long as the list.
unfoldable pub no_repeats {ℓ} : {A : Type ℓ} → (A → A → Bool) → List A → Bool
no_repeats eq [] = true
no_repeats eq (x ∷ xs) = not (any (eq x) xs) && no_repeats eq xs

unfoldable pub alias_of : List (ℤ × Text) → ℕ → Option Text
alias_of [] shard = none
alias_of ((s, alias) ∷ rest) shard = if eqb_ℤ s (pos shard) then some alias else alias_of rest shard

unfoldable pub zero_gates : List Text → Dict ℤ
zero_gates [] = []
zero_gates (id ∷ ids) = insert id (pos 0) (zero_gates ids)

-- The loop over the gates of the profile.
unfoldable pub count_gates : (Text → Bool) → List Text → Dict ℤ → Result PlanError (Dict ℤ)
count_gates matches [] gates = ok gates
count_gates matches (id ∷ ids) gates =
    if not (matches id) then count_gates matches ids gates else (do
      count ← ok_or (get id gates) missing_gate
      next ← ok_or (checked_add 31 count (pos 1)) gate_overflow
      count_gates matches ids (insert id next gates))

-- `checked_add` of an unsigned number or of a signed one that is not negative.
abbrev pub bounded_add : ℕ → ℕ → ℕ → Option ℕ
bounded_add bits a b = if ltb (a + b) (2 ^ bits) then some (a + b) else none

abbrev pub follows : Option ChunkIdentity → ChunkIdentity → Bool
follows none chunk = true
follows (some last) chunk =
    eqb_ℤ last.run_shard chunk.run_shard && leb_ℤ last.ordinal_end chunk.ordinal_start

abbrev pub emitted : Option RunChunk → List RunChunk → List RunChunk
emitted none rest = rest
emitted (some c) rest = c ∷ rest

module _ {H : Type 0} where
  unfoldable pub put_shard :
      (ℕ → Option (ShardState H)) → ℕ → ShardState H → ℕ → Option (ShardState H)
  put_shard shards shard state s = if s == shard then some state else shards s

module _ {H : Type 0} (digests : Digests H) where
  -- `Manifest::push`.
  unfoldable pub push_identity : PlanManifest → ChunkIdentity → Result PlanError PlanManifest
  push_identity m chunk = do
    ensure (leb_ℤ (pos 0) chunk.ordinal_start && ltb_ℤ chunk.ordinal_start chunk.ordinal_end)
        bad_planned_range
    ensure (follows m.last chunk) planned_overlap
    chunks ← ok_or (checked_add 31 m.chunk_count (pos 1)) planned_chunks
    cases ←
        ok_or (checked_add 31 m.case_count (chunk.ordinal_end -ℤ chunk.ordinal_start)) planned_cases
    ok (record {
      chunk_count = chunks;
      case_count = cases;
      hash = digests.plan_hash m.hash chunk;
      last = some chunk;
    })

  unfoldable pub new_accumulator :
      ℕ → ℕ → List Text → List (ℤ × Text) → Result PlanError (Accumulator H)
  new_accumulator run_id version gate_ids assignments = do
    ensure (leb (length gate_ids) 64) too_many_gates
    ensure
        (all (λ id. not (is_empty id) && leb (byte_len id) 1024) gate_ids
          && no_repeats text_eq gate_ids)
        bad_gate_ids
    ensure
        (no_repeats (λ (a b : ℤ × Text). eqb_ℤ (a.0) (b.0)) assignments
          && not (is_empty assignments)
          && leb (length assignments) 128
          && all (λ (a : ℤ × Text). leb_ℤ (pos 0) (a.0) && ltb_ℤ (a.0) (pos 128)) assignments)
        bad_assignments
    ok (record {
      run_id = run_id;
      version = version;
      gate_ids = gate_ids;
      aliases = alias_of assignments;
      shards = λ shard. none;
      chunk_count = 0;
      evaluator_count = 0;
      ordinal = 0;
      chunk_hash = digests.projection;
      chunk_start = 0;
    })

  unfoldable pub chunk_of : Accumulator H → RunChunk
  chunk_of a = record {
    chunk_index = pos a.chunk_count;
    chunk_id = digests.chunk_uuid a.run_id a.chunk_count;
    run_shard = pos (run_shard_for_chunk_index a.chunk_count);
    ordinal_start = pos a.chunk_start;
    ordinal_end = pos a.ordinal;
    profile_group_id = codes "default";
    case_projection_hash = digests.to_hex a.chunk_hash;
  }

  abbrev identity_of : RunChunk → ChunkIdentity
  identity_of c = record {
    chunk_id = c.chunk_id;
    run_shard = c.run_shard;
    ordinal_start = c.ordinal_start;
    ordinal_end = c.ordinal_end;
  }

  unfoldable pub finish_chunk : Accumulator H → Result PlanError (Accumulator H × Option RunChunk)
  finish_chunk a = if a.ordinal == a.chunk_start then ok (a, none) else (do
    let shard = run_shard_for_chunk_index a.chunk_count
    state ← ok_or (a.shards shard) missing_shard
    plan ← push_identity state.plan (identity_of (chunk_of a))
    count ← ok_or (bounded_add 31 a.chunk_count 1) chunk_overflow
    ok (
      record a {
        shards = put_shard a.shards shard (record state { plan = plan });
        chunk_count = count;
        chunk_start = a.ordinal;
        chunk_hash = digests.projection;
      },
      some (chunk_of a),
    ))

  abbrev or_new_shard : List Text → Text → Option (ShardState H) → ShardState H
  or_new_shard gate_ids alias none = record {
    plan = empty_plan;
    gates = zero_gates gate_ids;
    projection = digests.projection;
    alias = alias;
  }
  or_new_shard gate_ids alias (some state) = state

  abbrev row_of : Accumulator H → PlannedCase → CaseRow
  row_of a r = record {
    run_id = a.run_id;
    run_shard = run_shard_for_chunk_index a.chunk_count;
    dataset_version_id = a.version;
    case_id = r.case_id;
    case_ordinal = a.ordinal;
    case_hash = r.case_hash;
  }

  -- `push`, up to the point where the chunk may be full.
  unfoldable pub add_case : Accumulator H → PlannedCase → Result PlanError (Accumulator H)
  add_case a r = do
    ensure (eqb_ℤ r.case_ordinal (pos a.ordinal)) ordinal_gap
    count ← r.resolved
    evaluators ← ok_or (bounded_add 64 a.evaluator_count count) evaluator_overflow
    let shard = run_shard_for_chunk_index a.chunk_count
    alias ← ok_or (a.aliases shard) missing_placement
    let state = or_new_shard a.gate_ids alias (a.shards shard)
    gates ← count_gates r.matches a.gate_ids state.gates
    ordinal ← ok_or (bounded_add 31 a.ordinal 1) case_overflow
    ok (record a {
      evaluator_count = evaluators;
      chunk_hash = digests.update a.chunk_hash (row_of a r);
      shards = put_shard a.shards shard (record state {
        gates = gates;
        projection = digests.update state.projection (row_of a r);
      });
      ordinal = ordinal;
    })

  unfoldable pub push_case :
      Accumulator H → PlannedCase → Result PlanError (Accumulator H × Option RunChunk)
  push_case a r = do
    a' ← add_case a r
    if a'.ordinal - a'.chunk_start == 100 then finish_chunk a' else ok (a', none)

  -- The loop of the caller, vigilo/src/run_planning.rs: every case, then the rest of the last chunk.
  unfoldable pub plan_cases :
      Accumulator H → List PlannedCase → Result PlanError (Accumulator H × List RunChunk)
  plan_cases a [] = do (a', chunk) ← finish_chunk a; ok (a', emitted chunk [])
  plan_cases a (r ∷ rs) = do
    (a', chunk) ← push_case a r
    (a'', chunks) ← plan_cases a' rs
    ok (a'', emitted chunk chunks)
