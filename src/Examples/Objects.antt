-- ===== src/Examples/Objects.antt =====
-- Objects, index pages, chunk pages and plans at concrete inputs.
use agent_vigilo.Prelude.{
  ℕ, ◌+◌, ◌*◌, ◌≤◌, ◌<◌, ◌≡◌, refl, none, some, List, [], ◌∷◌, arith, get_elem?, ok, err,
}
use agent_vigilo.Prelude.Int.{ℤ, pos, ◌+ℤ◌, ◌-ℤ◌, ◌≤ℤ◌, checked_add, to_i32}
use agent_vigilo.Prelude.Text.{
  Text, codes, text_eq, byte_len, is_whitespace, is_blank, is_control, is_ascii_digit,
  is_ascii_alphanumeric,
}
use agent_vigilo.Storage.Limits.{
  index_gap, default_limits, StorageFormat, case_batch, ordinal_index, run_chunks,
  run_plan_manifest, run_configuration, dataset_manifest, validate_limits, byte_limit,
  validate_batch_limits, format_eq, schema, range, shard, validate_digest,
}
use agent_vigilo.Storage.Object.{
  ObjectRef, blake3, VerifiedObject, verify, for_bytes, validate_ref, validate_revision,
  split_slash, is_plain_part, require,
}
use agent_vigilo.Storage.Object.Integrity.{verify-for_bytes}
use agent_vigilo.Storage.Index.{
  IndexPage, IndexEntry, chunks, validate_page, check_entries, child_schema, leaf_schema,
  validate_descriptor, validate_edge, entry_descriptor, validate_child, kind_eq,
}
use agent_vigilo.Storage.Index.Tiling.{Holds, validate_page_tiles}
use agent_vigilo.Storage.Index.Descent.{
  IsChild, Descent, here, down, validate_child-IsChild, Descent-bounds, Descent-lt-eight,
}
use agent_vigilo.Storage.Chunks.{
  RunChunk, RunChunkPage, check_chunk, check_chunks, validate_chunk_page,
}
use agent_vigilo.Storage.Chunks.Consecutive.{IsPlaced, validate_chunk_page-IsPlaced}
use agent_vigilo.Storage.Gates.{validate_gate_descriptor, require_next}
use agent_vigilo.Storage.Manifest.{
  RunPlanShard, RunPlanManifest, covers, check_gate_owner, check_shard, check_shards, validate_plan,
}
use agent_vigilo.Storage.Manifest.Coverage.{AreOrdered, total, validate_plan_totals}

abbrev pub digest : Text
digest = codes "0123456789abcdef0123456789abcdef0123456789abcdef0123456789abcdef"

-- A function of the right shape in the place of BLAKE3.
abbrev pub hex_digest : List ℕ → Text
hex_digest bytes = digest

abbrev pub object : StorageFormat → ObjectRef
object schema = record {
  storage_alias = codes "cases";
  key = codes "a/b";
  schema = schema;
  hash_scheme = blake3;
  digest = digest;
  byte_count = 3;
  revision = none;
}

abbrev bytes : List ℕ
bytes = 1 ∷ 2 ∷ 3 ∷ []

abbrev verified : VerifiedObject
verified = record { reference = object case_batch; bytes = bytes }

verify-for_bytes_example : verify hex_digest (object case_batch) bytes default_limits ≡ ok verified
unfolding for_bytes validate_limits validate_batch_limits validate_ref validate_digest
    validate_revision is_plain_part split_slash format_eq byte_limit text_eq byte_len is_ascii_digit
    is_control is_ascii_alphanumeric
verify-for_bytes_example =
    verify-for_bytes hex_digest (codes "cases") (codes "a/b") case_batch bytes default_limits
      {r = object case_batch} refl

abbrev interval : StorageFormat → ℤ → ℤ → IndexEntry
interval schema low high = record { range_start = low; range_end = high; object = object schema }

abbrev leaf : IndexPage
leaf = record {
  schema = ordinal_index;
  kind = chunks;
  level = 0;
  range_start = pos 0;
  range_end = pos 5;
  entries = interval run_chunks (pos 0) (pos 2) ∷ interval run_chunks (pos 2) (pos 5) ∷ [];
}

abbrev root : IndexPage
root = record {
  schema = ordinal_index;
  kind = chunks;
  level = 1;
  range_start = pos 0;
  range_end = pos 9;
  entries = interval ordinal_index (pos 0) (pos 5) ∷ interval ordinal_index (pos 5) (pos 9) ∷ [];
}

leaf_valid : validate_page leaf default_limits ≡ ok tt
unfolding validate_page check_entries child_schema leaf_schema require schema range validate_ref
    validate_digest validate_revision is_plain_part split_slash format_eq byte_limit text_eq
    byte_len is_ascii_digit is_control is_ascii_alphanumeric
leaf_valid = refl

root_valid : validate_page root default_limits ≡ ok tt
unfolding validate_page check_entries child_schema leaf_schema require schema range validate_ref
    validate_digest validate_revision is_plain_part split_slash format_eq byte_limit text_eq
    byte_len is_ascii_digit is_control is_ascii_alphanumeric
root_valid = refl

leaf_is_child : validate_child root 0 leaf default_limits ≡ ok tt
unfolding validate_child validate_edge validate_descriptor entry_descriptor kind_eq validate_page
    check_entries child_schema leaf_schema require schema range validate_ref validate_digest
    validate_revision is_plain_part split_slash format_eq byte_limit text_eq byte_len is_ascii_digit
    is_control is_ascii_alphanumeric
leaf_is_child = refl

-- A page with a gap is refused.
gap_refused :
    validate_page
      (record leaf {
        entries = interval run_chunks (pos 0) (pos 2) ∷ interval run_chunks (pos 3) (pos 5) ∷ [];
      })
      default_limits
    ≡ err index_gap
unfolding validate_page check_entries child_schema leaf_schema require schema range validate_ref
    validate_digest validate_revision is_plain_part split_slash format_eq byte_limit text_eq
    byte_len is_ascii_digit is_control is_ascii_alphanumeric
gap_refused = refl

validate_page_tiles_example :
    (k : ℕ) × (e : IndexEntry) × (get_elem? leaf.entries k ≡ some e)
    × Holds (pos 3) e
    × ((j : ℕ) (d : IndexEntry) → get_elem? leaf.entries j ≡ some d → Holds (pos 3) d → k ≡ j)
validate_page_tiles_example =
    validate_page_tiles leaf default_limits (pos 3) leaf_valid (omega arith) (omega arith)

validate_child-IsChild_example : IsChild root 0 leaf
validate_child-IsChild_example = validate_child-IsChild root 0 leaf default_limits leaf_is_child

one_edge : Descent default_limits root leaf 1
one_edge = down 0 leaf here leaf_is_child

Descent-bounds_example :
    (leaf.level + 1 ≡ root.level)
    × (leaf.kind ≡ root.kind)
    × (root.range_start ≤ℤ leaf.range_start)
    × (leaf.range_end ≤ℤ root.range_end)
Descent-bounds_example = Descent-bounds default_limits root leaf 1 one_edge

Descent-lt-eight_example : 1 < 8
unfolding validate_limits validate_batch_limits
Descent-lt-eight_example = Descent-lt-eight default_limits root leaf 1 refl root_valid one_edge

abbrev chunk : ℕ → ℕ → ℕ → RunChunk
chunk index low high = record {
  chunk_index = pos index;
  chunk_id = 70 + index;
  run_shard = pos 3;
  ordinal_start = pos low;
  ordinal_end = pos high;
  profile_group_id = codes "g";
  case_projection_hash = digest;
}

abbrev chunk_page : RunChunkPage
chunk_page = record {
  schema = run_chunks;
  run_id = 1;
  chunk_index_start = pos 0;
  chunk_index_end = pos 2;
  chunks = chunk 0 0 40 ∷ chunk 1 40 100 ∷ [];
}

validate_chunk_page-IsPlaced_example : IsPlaced (pos 0) 0 chunk_page.chunks 1 (chunk 1 40 100)
unfolding validate_chunk_page check_chunks check_chunk schema range shard validate_digest format_eq
    byte_len is_blank is_whitespace is_ascii_digit to_i32 ◌-ℤ◌ ◌+ℤ◌
validate_chunk_page-IsPlaced_example =
    validate_chunk_page-IsPlaced chunk_page default_limits 1 (chunk 1 40 100) refl refl

abbrev plan_shard : ℕ → ℕ → ℕ → RunPlanShard
plan_shard index cases chunk_count = record {
  run_shard = pos index;
  case_count = pos cases;
  chunk_count = pos chunk_count;
  planned_chunk_hash = digest;
  gate_counts = record { first = none; page_count = pos 0; entry_count = pos 0 };
}

abbrev plan : RunPlanManifest
plan = record {
  schema = run_plan_manifest;
  run_id = 1;
  dataset = object dataset_manifest;
  profile_hash = digest;
  aggregation_policy_hash = digest;
  execution_plan_hash = digest;
  configuration = object run_configuration;
  chunk_count = pos 5;
  chunks = record {
    level = 0;
    range_start = pos 0;
    range_end = pos 5;
    object = object ordinal_index;
  };
  shards = plan_shard 3 120 2 ∷ plan_shard 7 90 3 ∷ [];
}

plan_valid : validate_plan plan default_limits ≡ ok tt
unfolding validate_plan check_shards check_shard check_gate_owner covers validate_gate_descriptor
    require_next validate_descriptor require schema range shard validate_ref validate_digest
    validate_revision is_plain_part split_slash format_eq byte_limit text_eq byte_len is_ascii_digit
    is_control is_ascii_alphanumeric checked_add ◌+ℤ◌
plan_valid = refl

validate_plan_totals_example :
    AreOrdered none plan.shards
    × (pos (total (λ s. s.chunk_count) plan.shards) ≡ plan.chunk_count)
    × (plan.chunks.range_start ≡ pos 0)
    × (plan.chunks.range_end ≡ plan.chunk_count)
    × (total (λ s. s.chunk_count) plan.shards ≤ total (λ s. s.case_count) plan.shards)
    × (total (λ s. s.case_count) plan.shards ≤ total (λ s. s.chunk_count) plan.shards * 100)
validate_plan_totals_example = validate_plan_totals plan default_limits plan_valid
