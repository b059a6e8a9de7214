-- ===== src/Storage/Batch.antt =====
-- The case batches of vigilo/src/contracts/case_storage/codec.rs: the capped writer, the builder that
-- encodes records one by one, and the reader that decodes them, with `CaseBatchHeader` and `CaseRecord`
-- of formats.rs. JSON is a parameter: the pieces that the serializer writes, the strict parser, the
-- canonical text of a value, and the reading of typed fields from a value.
use agent_vigilo.Prelude.{
  ℕ, ◌+◌, ◌-◌, ◌^◌, Bool, true, false, not, ◌&&◌, ◌||◌, Option, none, some, List, [], ◌∷◌, ◌++◌,
  ltb, leb, ◌==◌, if◌then◌else◌, length, is_empty, any, Result, ok, err, ◌>>=◌, ◌>>◌, ensure, ok_or,
}
use agent_vigilo.Prelude.Int.{ℤ, pos, pos_part, leb_ℤ, ltb_ℤ, eqb_ℤ}
use agent_vigilo.Prelude.Text.{Text, text_eq, is_blank}
use agent_vigilo.Storage.Limits.{
  StorageError, FormatLimits, StorageFormat, case_batch, format_eq, validate_limits,
  validate_digest,
}

pub data BatchError : Type 0 where
  not_serializable over_limit invalid_json not_canonical invalid_fields : BatchError
  bad_start bad_schema end_overflow ordinal_gap negative_ordinal no_task_type : BatchError
  hash_mismatch not_hashable duplicate_case single_case_too_large batch_full count_mismatch :
      BatchError
  byte_count_overflow empty_batch over_byte_limit not_a_batch no_line_feed missing_header
        case_count_limit :
      BatchError
  truncated too_many_records reader_failed exhausted : BatchError
  limits_rejected : StorageError → BatchError

pub record CaseBatchHeader : Type 0 where
  pub schema : StorageFormat
  pub dataset_id : ℕ
  pub ordinal_start : ℤ
  pub ordinal_end : ℤ

pub record CaseRecord (Value : Type 0) : Type 0 where
  pub case_ordinal : ℤ
  pub case_hash : Text
  pub source : Value

-- The fields of `DatasetCase` that are read here.
pub record DatasetCase : Type 0 where
  pub id : ℕ
  pub task_type : Text

-- serde_json, with the strict parser and the canonical text of the source on top of it. `hash_case` is
-- the hash of the case that a value decodes to.
pub record Json (Value : Type 0) : Type 1 where
  pub strict_json : List ℕ → Option Value
  pub canonical : Value → Option (List ℕ)
  pub header_pieces : CaseBatchHeader → Option (List (List ℕ))
  pub record_pieces : CaseRecord Value → Option (List (List ℕ))
  pub header_from : Value → Option CaseBatchHeader
  pub record_from : Value → Option (CaseRecord Value)
  pub case_from : Value → Option DatasetCase
  pub hash_case : Value → Option Text

abbrev pub line_feed : ℕ
line_feed = 10

abbrev pub lift_limits {ℓ} : {A : Type ℓ} → Result StorageError A → Result BatchError A
lift_limits (err why) = err (limits_rejected why)
lift_limits (ok a) = ok a

-- `CappedWriter::write`.
unfoldable pub write_capped : ℕ → List ℕ → List ℕ → Option (List ℕ)
write_capped limit bytes piece =
    if ltb (limit - length bytes) (length piece) then none else some (bytes ++ piece)

unfoldable pub write_pieces : ℕ → List ℕ → List (List ℕ) → Option (List ℕ)
write_pieces limit bytes [] = some bytes
write_pieces limit bytes (piece ∷ pieces) = elim (write_capped limit bytes piece) [
  | none ↦ none
  | some written ↦ write_pieces limit written pieces
]

unfoldable pub bytes_eq : List ℕ → List ℕ → Bool
bytes_eq [] [] = true
bytes_eq [] (y ∷ ys) = false
bytes_eq (x ∷ xs) [] = false
bytes_eq (x ∷ xs) (y ∷ ys) = (x == y) && bytes_eq xs ys

module _ {Value : Type 0} (json : Json Value) where
  -- `compact`, of the pieces that the serializer writes.
  unfoldable pub compact : Option (List (List ℕ)) → ℕ → Result BatchError (List ℕ)
  compact serialized limit = do
    pieces ← ok_or serialized not_serializable
    written ← ok_or (write_pieces limit [] pieces) over_limit
    value ← ok_or (json.strict_json written) invalid_json
    bytes ← ok_or (json.canonical value) not_serializable
    ensure (leb (length bytes) limit) over_limit
    ok bytes

  unfoldable pub parse : {T : Type 0} → (Value → Option T) → List ℕ → Result BatchError T
  parse from_value bytes = do
    value ← ok_or (json.strict_json bytes) invalid_json
    again ← ok_or (json.canonical value) not_serializable
    ensure (bytes_eq again bytes) not_canonical
    ok_or (from_value value) invalid_fields

  -- `CaseRecord::validate`.
  unfoldable pub validate_record : CaseRecord Value → Result BatchError DatasetCase
  validate_record r = do
    ensure (leb_ℤ (pos 0) r.case_ordinal) negative_ordinal
    lift_limits (validate_digest r.case_hash)
    case ← ok_or (json.case_from r.source) invalid_fields
    ensure (not (is_blank case.task_type)) no_task_type
    hash ← ok_or (json.hash_case r.source) not_hashable
    ensure (text_eq hash r.case_hash) hash_mismatch
    ok case

-- `CaseBatchBuilder`; `start` and `end` are in the range of `i32` and not negative.
pub record CaseBatchBuilder : Type 0 where
  pub dataset_id : ℕ
  pub start : ℕ
  pub end : ℕ
  pub limits : FormatLimits
  pub records : List ℕ
  pub ids : List ℕ

unfoldable pub new_builder : ℕ → ℤ → FormatLimits → Result BatchError CaseBatchBuilder
new_builder dataset_id ordinal_start limits = do
  lift_limits (validate_limits limits)
  ensure (leb_ℤ (pos 0) ordinal_start && ltb_ℤ ordinal_start (pos (2 ^ 31 - 1))) bad_start
  ok (record {
    dataset_id = dataset_id;
    start = pos_part ordinal_start;
    end = pos_part ordinal_start;
    limits = limits;
    records = [];
    ids = [];
  })

unfoldable pub header_to : CaseBatchBuilder → ℕ → CaseBatchHeader
header_to b end = record {
  schema = case_batch;
  dataset_id = b.dataset_id;
  ordinal_start = pos b.start;
  ordinal_end = pos end;
}

module _ {Value : Type 0} (json : Json Value) where
  -- The builder after the call, and whether it took the record.
  unfoldable pub try_push :
      CaseBatchBuilder → CaseRecord Value → Result BatchError (Bool × CaseBatchBuilder)
  try_push b r = do
    ensure (eqb_ℤ r.case_ordinal (pos b.end)) ordinal_gap
    ensure (ltb (b.end + 1) (2 ^ 31)) end_overflow
    encoded ← compact json (json.record_pieces r) b.limits.batch.max_bytes
    case ← validate_record json r
    ensure (not (any (λ i. i == case.id) b.ids)) duplicate_case
    head ← compact json (json.header_pieces (header_to b (b.end + 1))) b.limits.batch.max_bytes
    let new_bytes = length head + 1 + length b.records + length encoded + 1
    ensure (ltb new_bytes (2 ^ 64)) byte_count_overflow
    let full = (length b.ids == b.limits.batch.max_cases) || ltb b.limits.batch.max_bytes new_bytes
    if full
        then (ensure (not (is_empty b.ids)) single_case_too_large >> ok (false, b))
        else ok (
          true,
          record b {
            records = b.records ++ encoded ++ line_feed ∷ [];
            ids = case.id ∷ b.ids;
            end = b.end + 1;
          },
        )

  unfoldable pub finish_batch : CaseBatchBuilder → Result BatchError (List ℕ)
  finish_batch b = do
    ensure (not (is_empty b.ids)) empty_batch
    head ← compact json (json.header_pieces (header_to b b.end)) b.limits.batch.max_bytes
    let bytes = head ++ line_feed ∷ b.records
    ensure (leb (length bytes) b.limits.batch.max_bytes) over_byte_limit
    ok bytes

  -- The loop of `encode_batch`.
  unfoldable pub push_all :
      CaseBatchBuilder → List (CaseRecord Value) → Result BatchError CaseBatchBuilder
  push_all b [] = ok b
  push_all b (r ∷ rs) = do (taken, b') ← try_push b r; ensure taken batch_full; push_all b' rs

  unfoldable pub encode_batch :
      CaseBatchHeader → List (CaseRecord Value) → FormatLimits → Result BatchError (List ℕ)
  encode_batch h rs limits = do
    b ← new_builder h.dataset_id h.ordinal_start limits
    ensure (format_eq h.schema case_batch) bad_schema
    b' ← push_all b rs
    ensure (eqb_ℤ (pos b'.end) h.ordinal_end) count_mismatch
    finish_batch b'
