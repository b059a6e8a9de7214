-- ===== src/Storage/BatchReader/RoundTrip.antt =====
-- What `encode_batch` of vigilo/src/contracts/case_storage/codec.rs writes, its reader reads.
use agent_vigilo.Prelude.{
  ℕ, suc, ◌+◌, ◌-◌, ◌^◌, ◌≤◌, ◌<◌, ◌≡◌, refl, sym, ap, ◌∙◌, true, not, ◌&&◌, some, List, [], ◌∷◌,
  ◌++◌, arith, leb, length, All, is_empty, last?, Result, ok, err, >>=-eq-ok, >>-eq-ok,
  ensure-eq-ok,
}
use agent_vigilo.Prelude.Int.{
  pos, pos_part, neg_part, ◌-ℤ◌, ◌≤ℤ◌, leb_ℤ, ltb_ℤ, eqb_ℤ, -ℤ_parts, eqb_ℤ→eq, parts_exclusive,
  pos-pos_part,
}
use mathlib.Core.Path.{subst}
use agent_vigilo.Storage.Limits.{
  StorageError, FormatLimits, StorageFormat, case_batch, format_eq, validate_limits, range,
}
use agent_vigilo.Storage.Object.{VerifiedObject}
use agent_vigilo.Storage.Object.Integrity.{format_eq→eq}
use agent_vigilo.Storage.Batch.{
  CaseBatchHeader, CaseRecord, Json, line_feed, lift_limits, compact, parse, CaseBatchBuilder,
  new_builder, header_to, push_all, finish_batch, encode_batch,
}
use agent_vigilo.Storage.BatchReader.{
  CaseBatchReader, before_line_feed, without_last, split_lines, rest_of, validate_batch,
  decode_case_batch, read_all,
}
use agent_vigilo.Storage.BatchReader.Frames.{
  IsLine, frames, split_lines-frames, last?-frames, before_line_feed-line,
}
use agent_vigilo.Storage.BatchReader.Pushed.{
  IsOneLine, IsStable, IsStableRecord, compact-IsLine, parse-compact, reader_at, Pushed,
  push_all-Pushed,
}

lift_limits-eq-ok : (m : Result StorageError (Unit {0})) → lift_limits m ≡ ok tt → m ≡ ok tt
lift_limits-eq-ok (err why) h = cc
lift_limits-eq-ok (ok t) h = refl

format_is : (a : StorageFormat) → a ≡ case_batch → format_eq a case_batch ≡ true
unfolding format_eq
format_is a e = rw e refl

module _ {Value : Type 0} (json : Json Value) where
  abbrev first_builder : CaseBatchHeader → FormatLimits → CaseBatchBuilder
  first_builder h limits = record {
    dataset_id = h.dataset_id;
    start = pos_part h.ordinal_start;
    end = pos_part h.ordinal_start;
    limits = limits;
    records = [];
    ids = [];
  }

  started :
      (h : CaseBatchHeader) (limits : FormatLimits) {b : CaseBatchBuilder}
      → new_builder h.dataset_id h.ordinal_start limits ≡ ok b
      → (validate_limits limits ≡ ok tt) × (pos 0 ≤ℤ h.ordinal_start) × (b ≡ first_builder h limits)
  unfolding new_builder
  started h limits {b} e =
      let (valid, e1) = >>-eq-ok (lift_limits (validate_limits limits)) _ e in
      let (inside, e2) =
        ensure-eq-ok (leb_ℤ (pos 0) h.ordinal_start && ltb_ℤ h.ordinal_start (pos (2 ^ 31 - 1))) _ _
          e1 in
      (lift_limits-eq-ok (validate_limits limits) valid, ground arith, ground arith)

  -- A batch that was encoded: the builder that took the records, and what `finish` wrote.
  record Encoded (h : CaseBatchHeader) (rs : List (CaseRecord Value)) (limits : FormatLimits)
      (bytes : List ℕ) : Type 0 where
    limits_valid : validate_limits limits ≡ ok tt
    built : CaseBatchBuilder
    took : Pushed json (first_builder h limits) rs built
    not_empty : 0 < length built.ids
    head : List ℕ
    head_eq :
        compact json (json.header_pieces (header_to built built.end)) built.limits.batch.max_bytes
        ≡ ok head
    bytes_are : bytes ≡ head ++ line_feed ∷ built.records
    small : length bytes ≤ built.limits.batch.max_bytes
    schema_eq : h.schema ≡ case_batch
    start_nonneg : pos 0 ≤ℤ h.ordinal_start
    end_eq : pos built.end ≡ h.ordinal_end

  finished :
      (b : CaseBatchBuilder) {bytes : List ℕ}
      → finish_batch json b ≡ ok bytes
      → (head : List ℕ) × (compact json
            (json.header_pieces (header_to b b.end))
            b.limits.batch.max_bytes
          ≡ ok head)
        × (bytes ≡ head ++ line_feed ∷ b.records)
        × (length bytes ≤ b.limits.batch.max_bytes)
        × (0 < length b.ids)
  unfolding finish_batch
  finished b {bytes} h =
      let (some_ids, h1) = ensure-eq-ok (not (is_empty b.ids)) _ _ h in
      let (head, e, h2) =
        >>=-eq-ok (compact json (json.header_pieces (header_to b b.end)) _) _ h1 in
      let same : head ++ line_feed ∷ b.records ≡ bytes = ground arith in
      (
        head,
        e,
        sym same,
        subst (λ x. length x ≤ b.limits.batch.max_bytes) same (ground arith),
        ground arith,
      )

  encoded :
      (h : CaseBatchHeader) (rs : List (CaseRecord Value)) (limits : FormatLimits) {bytes : List ℕ}
      → encode_batch json h rs limits ≡ ok bytes
      → Encoded h rs limits bytes
  unfolding encode_batch
  encoded h rs limits {bytes} e =
      let (b, made, e1) = >>=-eq-ok (new_builder h.dataset_id h.ordinal_start limits) _ e in
      let (format, e2) = ensure-eq-ok (format_eq h.schema case_batch) _ _ e1 in
      let (built, took, e3) = >>=-eq-ok (push_all json b rs) _ e2 in
      let (at_end, e4) = ensure-eq-ok (eqb_ℤ (pos built.end) h.ordinal_end) _ _ e3 in
      let (valid, nonneg, first) = started h limits made in
      let (head, head_eq, bytes_are, small, not_empty) = finished built e4 in
      record {
        limits_valid = valid;
        built = built;
        took =
            push_all-Pushed json (first_builder h limits) rs
              (subst (λ x. push_all json x rs ≡ ok built) first took) (omega arith);
        not_empty = not_empty;
        head = head;
        head_eq = head_eq;
        bytes_are = bytes_are;
        small = small;
        schema_eq = format_eq→eq h.schema case_batch format;
        start_nonneg = nonneg;
        end_eq = eqb_ℤ→eq (pos built.end) h.ordinal_end at_end;
      }

  header_again :
      (h : CaseBatchHeader) (rs : List (CaseRecord Value)) (limits : FormatLimits) {bytes : List ℕ}
      (e : Encoded h rs limits bytes)
      → header_to e.built e.built.end ≡ h
  unfolding header_to
  header_again h rs limits e =
      let start : pos e.built.start ≡ h.ordinal_start =
        ap (λ n. pos n) e.took.start_kept ∙ pos-pos_part h.ordinal_start e.start_nonneg in
      λ i. record {
        schema = sym e.schema_eq i;
        dataset_id = e.took.dataset_kept i;
        ordinal_start = start i;
        ordinal_end = e.end_eq i;
      }

  abbrev pub IsStableHeader : CaseBatchHeader → Type 0
  IsStableHeader h = IsStable json json.header_from (json.header_pieces h) h

  framed :
      (h : CaseBatchHeader) (rs : List (CaseRecord Value)) (limits : FormatLimits) {bytes : List ℕ}
      (e : Encoded h rs limits bytes)
      → IsOneLine json
      → IsStableHeader h
      → (bytes ≡ frames (e.head ∷ e.took.lines))
        × (parse json json.header_from e.head ≡ ok h)
        × IsLine e.head
  unfolding frames
  framed h rs limits e one_line stable =
      let limit = e.built.limits.batch.max_bytes in
      let made : compact json (json.header_pieces h) limit ≡ ok e.head =
        subst (λ x. compact json (json.header_pieces x) limit ≡ ok e.head)
          (header_again h rs limits e) e.head_eq in
      (
        e.bytes_are ∙ ap (λ b. e.head ++ line_feed ∷ b) e.took.records_eq,
        parse-compact json json.header_from h (json.header_pieces h) limit stable made,
        compact-IsLine json (json.header_pieces h) limit one_line made,
      )

  -- The sizes of a batch: at least one case, at most the allowed cases, as many as the header says.
  sizes :
      (h : CaseBatchHeader) (rs : List (CaseRecord Value)) (limits : FormatLimits) {bytes : List ℕ}
      (e : Encoded h rs limits bytes)
      → (0 < length rs)
        × (length rs ≤ limits.batch.max_cases)
        × (h.ordinal_end ≡ pos (pos_part h.ordinal_start + length rs))
        × (length bytes ≤ limits.batch.max_bytes)
  sizes h rs limits {bytes} e = (
    omega (arith, e.took.ids_eq, e.not_empty),
    omega (arith, e.took.ids_eq, e.took.few_ids),
    sym e.end_eq ∙ ap (λ n. pos n) e.took.end_eq,
    subst (λ l. length bytes ≤ l.batch.max_bytes) e.took.limits_kept e.small,
  )

  batch_valid :
      (h : CaseBatchHeader) (rs : List (CaseRecord Value)) (limits : FormatLimits) {bytes : List ℕ}
      (e : Encoded h rs limits bytes)
      → IsOneLine json
      → IsStableHeader h
      → validate_batch (record { header = h; bytes = bytes }) limits
        ≡ ok (reader_at json h e.took.lines (pos_part h.ordinal_start) [])
  unfolding range validate_batch
  batch_valid h rs limits {bytes} e one_line stable =
      let (some_records, few, at_end, small) = sizes h rs limits e in
      let end_pos : pos_part h.ordinal_end ≡ pos_part h.ordinal_start + length rs =
        ap pos_part at_end in
      let end_neg : neg_part h.ordinal_end ≡ 0 = ap neg_part at_end in
      let (framed_bytes, parsed, line) = framed h rs limits e one_line stable in
      let fits : leb (length bytes) limits.batch.max_bytes ≡ true = ground arith in
      let format : format_eq h.schema case_batch ≡ true = format_is h.schema e.schema_eq in
      let ordered : range h.ordinal_start h.ordinal_end ≡ ok tt = ground arith in
      let count : leb (pos_part (h.ordinal_end -ℤ h.ordinal_start)) limits.batch.max_cases ≡ true =
        ground (
          arith,
          -ℤ_parts h.ordinal_end h.ordinal_start,
          parts_exclusive h.ordinal_start,
          parts_exclusive (h.ordinal_end -ℤ h.ordinal_start),
        ) in
      let found : rest_of (split_lines (without_last bytes)) ≡ e.took.lines =
        ap (λ b. rest_of (split_lines (without_last b))) framed_bytes
        ∙ ap rest_of (split_lines-frames e.head e.took.lines line (e.took.are_lines one_line)) in
      rw (validate_batch, e.limits_valid, fits, format, ordered, count, found) refl

  batch_decoded :
      (h : CaseBatchHeader) (rs : List (CaseRecord Value)) (limits : FormatLimits) {bytes : List ℕ}
      (e : Encoded h rs limits bytes) (object : VerifiedObject)
      → IsOneLine json
      → IsStableHeader h
      → object.reference.schema ≡ case_batch
      → object.bytes ≡ bytes
      → decode_case_batch json object ≡ ok (record { header = h; bytes = bytes })
  unfolding decode_case_batch frames format_eq
  batch_decoded h rs limits {bytes} e object one_line stable schema same =
      let (framed_bytes, parsed, line) = framed h rs limits e one_line stable in
      let last : last? object.bytes ≡ some line_feed =
        ap last? (same ∙ framed_bytes) ∙ last?-frames e.head e.took.lines in
      let front : before_line_feed object.bytes ≡ some e.head =
        ap before_line_feed (same ∙ framed_bytes)
        ∙ before_line_feed-line e.head (frames e.took.lines) line in
      rw (decode_case_batch, schema, last, front, parsed, same) refl

  -- When `encode_batch` succeeds, and an object of the schema of case batches has the bytes:
  -- decoding them gives the header that was encoded, the header is accepted under the same limits,
  -- and the reader hands out exactly the records that were encoded, in their order, and then ends
  -- without an error. The condition is on the JSON of the header and of each record: its compact
  -- text is one line and parses to the same value again, which a number that the parser rounds does
  -- not.
  pub encode_batch_round_trip :
      (h : CaseBatchHeader) (rs : List (CaseRecord Value)) (limits : FormatLimits) {bytes : List ℕ}
      (object : VerifiedObject)
      → IsOneLine json
      → IsStableHeader h
      → All (IsStableRecord json) rs
      → encode_batch json h rs limits ≡ ok bytes
      → object.reference.schema ≡ case_batch
      → object.bytes ≡ bytes
      → (reader : CaseBatchReader) × (decode_case_batch json object
          ≡ ok (record { header = h; bytes = bytes }))
        × (validate_batch (record { header = h; bytes = bytes }) limits ≡ ok reader)
        × (read_all json (suc (length reader.lines)) reader ≡ ok rs)
  encode_batch_round_trip h rs limits object one_line stable stables done schema same =
      let e = encoded h rs limits done in
      (
        reader_at json h e.took.lines (pos_part h.ordinal_start) [],
        batch_decoded h rs limits e object one_line stable schema same,
        batch_valid h rs limits e one_line stable,
        e.took.reads h stables (sym e.end_eq),
      )

  -- A batch that `encode_batch` returns has at least one case and at most the allowed number, its
  -- header covers exactly those cases, and its bytes are within the byte limit of a batch.
  pub encode_batch_bounds :
      (h : CaseBatchHeader) (rs : List (CaseRecord Value)) (limits : FormatLimits) {bytes : List ℕ}
      → encode_batch json h rs limits ≡ ok bytes
      → (0 < length rs)
        × (length rs ≤ limits.batch.max_cases)
        × (h.ordinal_end ≡ pos (pos_part h.ordinal_start + length rs))
        × (length bytes ≤ limits.batch.max_bytes)
  encode_batch_bounds h rs limits done = sizes h rs limits (encoded h rs limits done)
