-- ===== src/Storage/Limits.antt =====
-- vigilo/src/contracts/case_storage/limits.rs, and the small checks of formats.rs: `schema`, `range`,
-- `shard` and `validate_digest`. A message of the source is a constructor of `StorageError`. The
-- fields of type `usize` and `u8` are numbers; the target has 64 bits.
use agent_vigilo.Prelude.{
  ℕ, ◌*◌, ◌^◌, Bool, ◌&&◌, ◌||◌, Option, none, some, ltb, leb, ◌==◌, if◌then◌else◌, all, Result,
  ◌>>=◌, ◌>>◌, ensure, ok_or,
}
use agent_vigilo.Prelude.Int.{ℤ, pos, leb_ℤ, ltb_ℤ}
use agent_vigilo.Prelude.Text.{Text, byte_len, is_ascii_digit}

pub data StorageError : Type 0 where
  batch_max_cases batch_max_bytes page_bytes_range page_entries_range : StorageError
  root_bytes_range source_bytes_range index_height_range resident_batches_range : StorageError
  resident_budget_range staging_spool_range resident_overflow resident_exceeded : StorageError
  staging_exceeded : StorageError
  bad_digest bad_alias bad_key bad_byte_count bad_revision : StorageError
  byte_count_mismatch digest_mismatch reference_schema schema_mismatch : StorageError
  bad_range bad_shard : StorageError
  index_depth index_entry_count index_gap index_cover descriptor_mismatch index_owner : StorageError
  not_dataset_leaf not_run_leaf missing_batch missing_chunk missing_entry : StorageError
  batch_mismatch chunk_page_mismatch leaf_has_no_child : StorageError
  chunk_page_count nonconsecutive_chunks chunk_too_long chunk_gap duplicate_chunk : StorageError
  bad_profile_group int_conversion : StorageError
  gate_entry_count bad_gate_count gate_order : StorageError
  negative_descriptor inconsistent_descriptor impossible_descriptor bad_case_count : StorageError
  unexpected_gate_page gate_repeats gate_denominator gate_page_overflow : StorageError
  gate_entry_overflow gate_termination gate_cycle gate_incomplete : StorageError
  batching_policy dataset_cover dataset_owner : StorageError
  run_cover plan_shard_count plan_shard_order plan_shard_counts plan_case_overflow : StorageError
  plan_chunk_overflow gate_owner plan_chunk_totals plan_owner : StorageError

abbrev pub mib : ℕ
mib = 1_048_576

pub record BatchLimits : Type 0 where
  pub max_cases : ℕ
  pub max_bytes : ℕ

pub record FormatLimits : Type 0 where
  pub batch : BatchLimits
  pub page_bytes : ℕ
  pub page_entries : ℕ
  pub root_bytes : ℕ
  pub source_bytes : ℕ
  pub index_height : ℕ
  pub resident_batches : ℕ
  pub resident_batch_bytes : ℕ
  pub staging_spool_bytes : ℕ

abbrev pub default_limits : FormatLimits
default_limits = record {
  batch = record { max_cases = 100; max_bytes = 8 * mib };
  page_bytes = mib;
  page_entries = 256;
  root_bytes = 262_144;
  source_bytes = 8 * mib;
  index_height = 8;
  resident_batches = 4;
  resident_batch_bytes = 32 * mib;
  staging_spool_bytes = 256 * mib;
}

-- `(lo..=hi).contains(&x)`.
abbrev pub within : ℕ → ℕ → ℕ → Bool
within lo hi x = leb lo x && leb x hi

abbrev checked_mul : ℕ → ℕ → Option ℕ
checked_mul a b = if ltb (a * b) (2 ^ 64) then some (a * b) else none

unfoldable pub validate_batch_limits : BatchLimits → Result StorageError (Unit {0})
validate_batch_limits b = do
  ensure (within 1 65_536 b.max_cases) batch_max_cases
  ensure (within 256 (64 * mib) b.max_bytes) batch_max_bytes

unfoldable pub validate_limits : FormatLimits → Result StorageError (Unit {0})
validate_limits l = do
  validate_batch_limits l.batch
  ensure (within 256 (8 * mib) l.page_bytes) page_bytes_range
  ensure (within 1 4096 l.page_entries) page_entries_range
  ensure (within 256 mib l.root_bytes) root_bytes_range
  ensure (within 256 (64 * mib) l.source_bytes) source_bytes_range
  ensure (within 1 8 l.index_height) index_height_range
  ensure (within 1 16 l.resident_batches) resident_batches_range
  ensure (leb l.resident_batch_bytes (1024 * mib)) resident_budget_range
  ensure (leb l.staging_spool_bytes (4096 * mib)) staging_spool_range
  resident ← ok_or (checked_mul l.batch.max_bytes l.resident_batches) resident_overflow
  ensure (leb resident l.resident_batch_bytes) resident_exceeded
  ensure (leb l.batch.max_bytes l.staging_spool_bytes) staging_exceeded

pub data StorageFormat : Type 0 where
  case_batch dataset_source_fields dataset_manifest ordinal_index : StorageFormat
  run_chunks run_plan_manifest run_configuration gate_counts : StorageFormat

-- `==` of the derived `PartialEq`.
unfoldable pub format_eq : StorageFormat → StorageFormat → Bool
format_eq a b = format_index a == format_index b
  where
    format_index : StorageFormat → ℕ
    format_index case_batch = 0
    format_index dataset_source_fields = 1
    format_index dataset_manifest = 2
    format_index ordinal_index = 3
    format_index run_chunks = 4
    format_index run_plan_manifest = 5
    format_index run_configuration = 6
    format_index gate_counts = 7

unfoldable pub byte_limit : StorageFormat → FormatLimits → ℕ
byte_limit case_batch l = l.batch.max_bytes
byte_limit dataset_source_fields l = l.source_bytes
byte_limit run_configuration l = l.source_bytes
byte_limit dataset_manifest l = l.root_bytes
byte_limit run_plan_manifest l = l.root_bytes
byte_limit ordinal_index l = l.page_bytes
byte_limit run_chunks l = l.page_bytes
byte_limit gate_counts l = l.page_bytes

unfoldable pub schema : StorageFormat → StorageFormat → Result StorageError (Unit {0})
schema actual expected = ensure (format_eq actual expected) schema_mismatch

unfoldable pub range : ℤ → ℤ → Result StorageError (Unit {0})
range start end = ensure (leb_ℤ (pos 0) start && ltb_ℤ start end) bad_range

unfoldable pub shard : ℤ → Result StorageError (Unit {0})
shard value = ensure (leb_ℤ (pos 0) value && ltb_ℤ value (pos 128)) bad_shard

-- A code point outside ASCII has no byte among those that the source allows.
unfoldable pub validate_digest : Text → Result StorageError (Unit {0})
validate_digest digest =
    ensure
      ((byte_len digest == 64) && all (λ b. is_ascii_digit b || (leb b'a' b && leb b b'f')) digest)
      bad_digest
