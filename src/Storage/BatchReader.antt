-- ===== src/Storage/BatchReader.antt =====
-- The decoding of case batches in vigilo/src/contracts/case_storage/codec.rs: `decode_case_batch`,
-- `DecodedCaseBatch::validate`, the iterator `CaseBatchReader` and `validate_remaining`.
use agent_vigilo.Prelude.{
  ℕ, zero, suc, ◌+◌, Bool, true, false, not, Option, none, some, List, [], ◌∷◌, leb, ◌==◌,
  if◌then◌else◌, is_some_and, length, last?, any, Result, ok, err, ◌>>=◌, ◌>>◌, ensure, ok_or,
}
use agent_vigilo.Prelude.Int.{pos, pos_part, ◌-ℤ◌, ltb_ℤ, eqb_ℤ}
use agent_vigilo.Storage.Limits.{FormatLimits, case_batch, format_eq, validate_limits, range}
use agent_vigilo.Storage.Object.{VerifiedObject}
use agent_vigilo.Storage.Batch.{
  BatchError, bad_schema, ordinal_gap, duplicate_case, over_byte_limit, not_a_batch, no_line_feed,
  missing_header, case_count_limit, truncated, too_many_records, reader_failed, exhausted,
  CaseBatchHeader, CaseRecord, Json, line_feed, lift_limits, parse, validate_record,
}
pub mod Frames
pub mod Pushed
pub mod RoundTrip

-- `position`, and the bytes in front of it.
unfoldable pub before_line_feed : List ℕ → Option (List ℕ)
before_line_feed [] = none
before_line_feed (x ∷ xs) =
    let rest = before_line_feed xs in
    if x == line_feed then some [] else elim rest [ none ↦ none | some front ↦ some (x ∷ front) ]

-- `slice::split` at every line feed: at least one line.
unfoldable pub split_lines : List ℕ → List (List ℕ)
split_lines [] = [] ∷ []
split_lines (x ∷ xs) = add (split_lines xs)
  where
    add : List (List ℕ) → List (List ℕ)
    add [] = (x ∷ []) ∷ []
    add (line ∷ lines) = if x == line_feed then [] ∷ line ∷ lines else (x ∷ line) ∷ lines

-- `&bytes[..bytes.len() - 1]`, of bytes that are not empty.
unfoldable pub without_last : List ℕ → List ℕ
without_last [] = []
without_last (x ∷ []) = []
without_last (x ∷ y ∷ ys) = x ∷ without_last (y ∷ ys)

abbrev pub rest_of : List (List ℕ) → List (List ℕ)
rest_of [] = []
rest_of (line ∷ lines) = lines

pub record DecodedCaseBatch : Type 0 where
  pub header : CaseBatchHeader
  pub bytes : List ℕ

-- `CaseBatchReader`; `ordinal` starts at a valid start and only grows.
pub record CaseBatchReader : Type 0 where
  pub header : CaseBatchHeader
  pub lines : List (List ℕ)
  pub ordinal : ℕ
  pub ids : List ℕ
  pub terminal : Bool
  pub failed : Bool

unfoldable pub validate_batch : DecodedCaseBatch → FormatLimits → Result BatchError CaseBatchReader
validate_batch d limits = do
  lift_limits (validate_limits limits)
  ensure (leb (length d.bytes) limits.batch.max_bytes) over_byte_limit
  ensure (format_eq d.header.schema case_batch) bad_schema
  lift_limits (range d.header.ordinal_start d.header.ordinal_end)
  ensure (leb (pos_part (d.header.ordinal_end -ℤ d.header.ordinal_start)) limits.batch.max_cases)
      case_count_limit
  ok (record {
    header = d.header;
    lines = rest_of (split_lines (without_last d.bytes));
    ordinal = pos_part d.header.ordinal_start;
    ids = [];
    terminal = false;
    failed = false;
  })

module _ {Value : Type 0} (json : Json Value) where
  unfoldable pub decode_case_batch : VerifiedObject → Result BatchError DecodedCaseBatch
  decode_case_batch object = do
    ensure (format_eq object.reference.schema case_batch) not_a_batch
    ensure (is_some_and (λ b. b == line_feed) (last? object.bytes)) no_line_feed
    head ← ok_or (before_line_feed object.bytes) missing_header
    header ← parse json json.header_from head
    ok (record { header = header; bytes = object.bytes })

  -- One line behind the tests of the reader: the record, and the reader that goes on.
  unfoldable pub read_line :
      CaseBatchReader
      → List ℕ
      → List (List ℕ)
      → Result BatchError (CaseRecord Value × CaseBatchReader)
  read_line reader line lines = do
    ensure (ltb_ℤ (pos reader.ordinal) reader.header.ordinal_end) too_many_records
    r ← parse json json.record_from line
    ensure (eqb_ℤ r.case_ordinal (pos reader.ordinal)) ordinal_gap
    case ← validate_record json r
    ensure (not (any (λ i. i == case.id) reader.ids)) duplicate_case
    ok (
      r,
      record reader { lines = lines; ids = case.id ∷ reader.ids; ordinal = reader.ordinal + 1 },
    )

  -- `Iterator::next`.
  unfoldable pub next_record :
      CaseBatchReader → Option (Result BatchError (CaseRecord Value)) × CaseBatchReader
  next_record reader = if reader.terminal then (none, reader) else elim reader.lines [
    | [] ↦
        if eqb_ℤ (pos reader.ordinal) reader.header.ordinal_end
        then (none, record reader { terminal = true })
        else (some (err truncated), record reader { terminal = true; failed = true })
    | line ∷ lines ↦ elim (read_line reader line lines) [
      | ok (r, reader') ↦ (some (ok r), reader')
      | err why ↦ (some (err why), record reader { lines = lines; terminal = true; failed = true })
    ]
  ]

  -- A loop over the reader that ends at the first error and keeps the records; the fuel is the number
  -- of calls of `next`.
  unfoldable pub read_all : ℕ → CaseBatchReader → Result BatchError (List (CaseRecord Value))
  read_all zero reader = err exhausted
  read_all (suc n) reader =
      let (item, reader') = next_record reader in
      elim item [
        | none ↦ ok []
        | some result ↦ (result >>= λ r. read_all n reader' >>= λ rs. ok (r ∷ rs))
      ]

  unfoldable pub validate_remaining : CaseBatchReader → Result BatchError (Unit {0})
  validate_remaining reader = do
    ensure (not reader.failed) reader_failed
    rs ← read_all (suc (length reader.lines)) reader
    ok tt
