-- ===== src/Examples/Batches.antt =====
-- Case batches at concrete inputs, with plain numbers in the place of JSON.
use agent_vigilo.Prelude.{
  ℕ, zero, suc, ◌+◌, ◌≤◌, ◌<◌, ◌≡◌, refl, sym, ap, ◌∙◌, inl, inr, false, Option, none, some, List,
  [], ◌∷◌, ◌++◌, arith, ◌==◌, if◌then◌else◌, Bool-cases, length, any, ok, err,
}
use agent_vigilo.Prelude.Int.{ℤ, pos, negsuc}
use mathlib.Core.Path.{subst}
use mathlib.Core.List.{append-nil}
use agent_vigilo.Prelude.Text.{
  codes, byte_len, is_ascii_digit, is_blank, is_whitespace, text_eq, text_eq→eq,
}
use agent_vigilo.Storage.Limits.{
  default_limits, case_batch, format_eq, validate_limits, validate_batch_limits, validate_digest,
}
use agent_vigilo.Storage.Object.Integrity.{format_eq→eq}
use agent_vigilo.Examples.Objects.{object, digest}
use agent_vigilo.Storage.Batch.{
  CaseBatchHeader, CaseRecord, DatasetCase, Json, line_feed, encode_batch, new_builder, push_all,
  try_push, compact, write_pieces, write_capped, validate_record, header_to, finish_batch,
  duplicate_case,
}
use agent_vigilo.Storage.BatchReader.{CaseBatchReader, decode_case_batch, validate_batch, read_all}
use agent_vigilo.Storage.BatchReader.Frames.{IsLine, concat}
use agent_vigilo.Storage.BatchReader.Pushed.{IsOneLine, IsStableRecord}
use agent_vigilo.Storage.BatchReader.RoundTrip.{
  IsStableHeader, encode_batch_round_trip, encode_batch_bounds,
}

abbrev sign : ℤ → ℕ
sign (pos n) = 0
sign (negsuc n) = 1

abbrev magnitude : ℤ → ℕ
magnitude (pos n) = n
magnitude (negsuc n) = n

abbrev integer : ℕ → ℕ → ℤ
integer zero n = pos n
integer (suc s) n = negsuc n

abbrev header_pieces : CaseBatchHeader → Option (List (List ℕ))
header_pieces h =
    if format_eq h.schema case_batch
    then some (
        ((h.dataset_id ∷ [])
          ∷ (sign h.ordinal_start ∷ magnitude h.ordinal_start ∷ [])
          ∷ (sign h.ordinal_end ∷ magnitude h.ordinal_end ∷ [])
          ∷ []))
    else none

abbrev header_from : List ℕ → Option CaseBatchHeader
header_from (d ∷ s ∷ m ∷ s' ∷ m' ∷ rest) = some (record {
  schema = case_batch;
  dataset_id = d;
  ordinal_start = integer s m;
  ordinal_end = integer s' m';
})
header_from _ = none

abbrev record_pieces : CaseRecord (List ℕ) → Option (List (List ℕ))
record_pieces r =
    if text_eq r.case_hash digest
    then some ((sign r.case_ordinal ∷ magnitude r.case_ordinal ∷ []) ∷ r.source ∷ [])
    else none

abbrev record_from : List ℕ → Option (CaseRecord (List ℕ))
record_from (s ∷ m ∷ source) =
    some (record { case_ordinal = integer s m; case_hash = digest; source = source })
record_from _ = none

abbrev case_from : List ℕ → Option DatasetCase
case_from (id ∷ rest) = some (record { id = id; task_type = codes "qa" })
case_from [] = none

abbrev numbers : Json (List ℕ)
numbers = record {
  strict_json = λ bytes. some bytes;
  canonical = λ bytes. if any (λ c. c == line_feed) bytes then none else some bytes;
  header_pieces = header_pieces;
  record_pieces = record_pieces;
  header_from = header_from;
  record_from = record_from;
  case_from = case_from;
  hash_case = λ source. some digest;
}

integer_again : (a : ℤ) → integer (sign a) (magnitude a) ≡ a
integer_again (pos n) = refl
integer_again (negsuc n) = refl

no_line_feed : (bytes : List ℕ) → any (λ c. c == line_feed) bytes ≡ false → IsLine bytes
no_line_feed [] h = tt
no_line_feed (c ∷ bytes) h = (ground arith, no_line_feed bytes (ground arith))

reparsed :
    (value bytes : List ℕ)
    → numbers.canonical value ≡ some bytes
    → (numbers.strict_json bytes ≡ some value) × IsLine bytes
reparsed value bytes h = elim (Bool-cases (any (λ c. c == line_feed) value)) [
  | inl broken ↦ absurd (ground arith)
  | inr clean ↦
      let same : value ≡ bytes = ground arith in
      (ap (λ b. some b) (sym same), subst IsLine same (no_line_feed value clean))
]

header_again :
    (h : CaseBatchHeader) (pieces : List (List ℕ)) (value : List ℕ)
    → header_pieces h ≡ some pieces
    → numbers.strict_json (concat pieces) ≡ some value
    → header_from value ≡ some h
unfolding concat
header_again h pieces value s v = elim (Bool-cases (format_eq h.schema case_batch)) [
  | inl is_batch ↦
      let made : (h.dataset_id ∷ [])
            ∷ (sign h.ordinal_start ∷ magnitude h.ordinal_start ∷ [])
            ∷ (sign h.ordinal_end ∷ magnitude h.ordinal_end ∷ [])
            ∷ []
          ≡ pieces =
        ground arith in
      let text : concat pieces ≡ value = ground arith in
      let fields : header_from (
            h.dataset_id
            ∷ sign h.ordinal_start
            ∷ magnitude h.ordinal_start
            ∷ sign h.ordinal_end
            ∷ magnitude h.ordinal_end
            ∷ [])
          ≡ some h =
        λ i. some (record {
          schema = sym (format_eq→eq h.schema case_batch is_batch) i;
          dataset_id = h.dataset_id;
          ordinal_start = integer_again h.ordinal_start i;
          ordinal_end = integer_again h.ordinal_end i;
        }) in
      ap header_from (sym text ∙ ap concat (sym made)) ∙ fields
  | inr other ↦ absurd (ground arith)
]

record_again :
    (r : CaseRecord (List ℕ)) (pieces : List (List ℕ)) (value : List ℕ)
    → record_pieces r ≡ some pieces
    → numbers.strict_json (concat pieces) ≡ some value
    → record_from value ≡ some r
unfolding concat
record_again r pieces value s v = elim (Bool-cases (text_eq r.case_hash digest)) [
  | inl same_hash ↦
      let made : (sign r.case_ordinal ∷ magnitude r.case_ordinal ∷ []) ∷ r.source ∷ [] ≡ pieces =
        ground arith in
      let text : concat pieces ≡ value = ground arith in
      let fields : record_from (sign r.case_ordinal ∷ magnitude r.case_ordinal ∷ (r.source ++ []))
          ≡ some r =
        λ i. some (record {
          case_ordinal = integer_again r.case_ordinal i;
          case_hash = sym (text_eq→eq r.case_hash digest same_hash) i;
          source = append-nil r.source i;
        }) in
      ap record_from (sym text ∙ ap concat (sym made)) ∙ fields
  | inr other ↦ absurd (ground arith)
]

one_line : IsOneLine numbers
one_line = record { line = λ value bytes h. (reparsed value bytes h).1 }

stable_header : (h : CaseBatchHeader) → IsStableHeader numbers h
stable_header h = record {
  reparses =
      λ pieces value bytes s v c. ((reparsed value bytes c).0, header_again h pieces value s v);
}

stable_record : (r : CaseRecord (List ℕ)) → IsStableRecord numbers r
stable_record r = record {
  reparses =
      λ pieces value bytes s v c. ((reparsed value bytes c).0, record_again r pieces value s v);
}

abbrev case_record : ℕ → ℕ → CaseRecord (List ℕ)
case_record ordinal id = record { case_ordinal = pos ordinal; case_hash = digest; source = id ∷ [] }

abbrev batch_header : CaseBatchHeader
batch_header = record {
  schema = case_batch;
  dataset_id = 7;
  ordinal_start = pos 4;
  ordinal_end = pos 6;
}

abbrev batch_bytes : List ℕ
batch_bytes = 7 ∷ 0 ∷ 4 ∷ 0 ∷ 6 ∷ 10 ∷ 0 ∷ 4 ∷ 80 ∷ 10 ∷ 0 ∷ 5 ∷ 81 ∷ 10 ∷ []

encoded :
    encode_batch numbers batch_header (case_record 4 80 ∷ case_record 5 81 ∷ []) default_limits
    ≡ ok batch_bytes
unfolding encode_batch new_builder validate_limits validate_batch_limits format_eq push_all try_push
    compact text_eq write_pieces write_capped validate_record validate_digest byte_len
    is_ascii_digit is_blank is_whitespace header_to finish_batch
encoded = refl

repeated_case :
    encode_batch numbers batch_header (case_record 4 80 ∷ case_record 5 80 ∷ []) default_limits
    ≡ err duplicate_case
unfolding encode_batch new_builder validate_limits validate_batch_limits format_eq push_all try_push
    compact text_eq write_pieces write_capped validate_record validate_digest byte_len
    is_ascii_digit is_blank is_whitespace header_to finish_batch
repeated_case = refl

encode_batch_round_trip_example :
    (reader : CaseBatchReader) × (decode_case_batch numbers
        (record { reference = object case_batch; bytes = batch_bytes })
      ≡ ok (record { header = batch_header; bytes = batch_bytes }))
    × (validate_batch (record { header = batch_header; bytes = batch_bytes }) default_limits
        ≡ ok reader)
    × (read_all numbers (suc (length reader.lines)) reader
        ≡ ok (case_record 4 80 ∷ case_record 5 81 ∷ []))
encode_batch_round_trip_example =
    encode_batch_round_trip numbers batch_header (case_record 4 80 ∷ case_record 5 81 ∷ [])
      default_limits (record { reference = object case_batch; bytes = batch_bytes }) one_line
      (stable_header batch_header)
      (stable_record (case_record 4 80), (stable_record (case_record 5 81), tt)) encoded refl refl

encode_batch_bounds_example :
    (0 < 2) × (2 ≤ 100) × (pos 6 ≡ pos (4 + 2)) × (14 ≤ default_limits.batch.max_bytes)
encode_batch_bounds_example =
    encode_batch_bounds numbers batch_header (case_record 4 80 ∷ case_record 5 81 ∷ [])
      default_limits encoded
