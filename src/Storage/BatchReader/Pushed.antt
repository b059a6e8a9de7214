-- ===== src/Storage/BatchReader/Pushed.antt =====
-- The records that `CaseBatchBuilder` of vigilo/src/contracts/case_storage/codec.rs took are read again
-- from the lines that it added.
use agent_vigilo.Prelude.{
  ℕ, suc, ◌+◌, ◌^◌, ◌≤◌, ◌<◌, ◌≡◌, refl, sym, ap, ◌∙◌, ◌≢◌, true, false, not, Option, some, List,
  [], ◌∷◌, ◌++◌, arith, ltb, ◌==◌, length, any, All, ok, ok_or, >>=-eq-ok, ensure-eq-ok,
  ok_or-eq-ok,
}
use agent_vigilo.Prelude.Int.{pos, pos_part, neg_part, ◌<ℤ◌, ltb_ℤ, eqb_ℤ, eqb_ℤ_refl, in_range}
use mathlib.Core.Path.{subst}
use mathlib.Core.List.{append_assoc, append-nil}
use agent_vigilo.Storage.Batch.{
  CaseBatchHeader, CaseRecord, DatasetCase, Json, line_feed, write_pieces, compact, parse,
  validate_record, CaseBatchBuilder, header_to, try_push, push_all,
}
use agent_vigilo.Storage.BatchReader.{CaseBatchReader, read_line, next_record, read_all}
use agent_vigilo.Storage.BatchReader.Frames.{
  IsLine, concat, frames, write_pieces-concat, bytes_eq_refl,
}

-- What is documented of serde_json: the compact text of a value has no line feed in it.
pub record IsOneLine {Value : Type 0} (json : Json Value) : Type 0 where
  pub line : (value : Value) (bytes : List ℕ) → json.canonical value ≡ some bytes → IsLine bytes

-- One typed value whose JSON survives printing: the compact text of what was serialized parses to
-- the same JSON value again, and the fields of the typed value are found in it. A value with a
-- number whose text the parser rounds to another one is not of this kind.
pub record IsStable {Value T : Type 0} (json : Json Value) (from_value : Value → Option T)
    (serialized : Option (List (List ℕ))) (t : T) : Type 0 where
  pub reparses :
      (pieces : List (List ℕ)) (value : Value) (bytes : List ℕ)
      → serialized ≡ some pieces
      → json.strict_json (concat pieces) ≡ some value
      → json.canonical value ≡ some bytes
      → (json.strict_json bytes ≡ some value) × (from_value value ≡ some t)

module _ {Value : Type 0} (json : Json Value) where
  abbrev pub IsStableRecord : CaseRecord Value → Type 0
  IsStableRecord r = IsStable json json.record_from (json.record_pieces r) r

  -- Compact bytes are one line.
  pub compact-IsLine :
      (serialized : Option (List (List ℕ))) (limit : ℕ) {bytes : List ℕ}
      → IsOneLine json
      → compact json serialized limit ≡ ok bytes
      → IsLine bytes
  unfolding compact
  compact-IsLine serialized limit {bytes} one_line h =
      let (pieces, s, h1) = >>=-eq-ok (ok_or serialized _) _ h in
      let (written, w, h2) = >>=-eq-ok (ok_or (write_pieces limit [] pieces) _) _ h1 in
      let (value, v, h3) = >>=-eq-ok (ok_or (json.strict_json written) _) _ h2 in
      let (made, c, h4) = >>=-eq-ok (ok_or (json.canonical value) _) _ h3 in
      let same : made ≡ bytes = ground arith in
      one_line.line value bytes (ok_or-eq-ok _ _ c ∙ ap (λ b. some b) same)

  -- Compact bytes of a value that survives printing parse to it.
  pub parse-compact :
      {T : Type 0} (from_value : Value → Option T) (t : T) (serialized : Option (List (List ℕ)))
      (limit : ℕ) {bytes : List ℕ}
      → IsStable json from_value serialized t
      → compact json serialized limit ≡ ok bytes
      → parse json from_value bytes ≡ ok t
  unfolding compact parse
  parse-compact from_value t serialized limit {bytes} stable h =
      let (pieces, s, h1) = >>=-eq-ok (ok_or serialized _) _ h in
      let (written, w, h2) = >>=-eq-ok (ok_or (write_pieces limit [] pieces) _) _ h1 in
      let (value, v, h3) = >>=-eq-ok (ok_or (json.strict_json written) _) _ h2 in
      let (made, c, h4) = >>=-eq-ok (ok_or (json.canonical value) _) _ h3 in
      let same : made ≡ bytes = ground arith in
      let all_written : written ≡ concat pieces =
        write_pieces-concat limit [] pieces (ok_or-eq-ok _ _ w) in
      let text : json.canonical value ≡ some bytes = ok_or-eq-ok _ _ c ∙ ap (λ b. some b) same in
      let (again, found) =
        stable.reparses pieces value bytes (ok_or-eq-ok _ _ s)
          (ap json.strict_json (sym all_written) ∙ ok_or-eq-ok _ _ v) text in
      rw (again, text, bytes_eq_refl bytes, found) refl

  -- A record that the builder took.
  record_taken :
      (b : CaseBatchBuilder) (r : CaseRecord Value) {after : CaseBatchBuilder}
      → try_push json b r ≡ ok (true, after)
      → (encoded : List ℕ) × (case : DatasetCase) × (compact json
            (json.record_pieces r)
            b.limits.batch.max_bytes
          ≡ ok encoded)
        × (validate_record json r ≡ ok case)
        × (eqb_ℤ r.case_ordinal (pos b.end) ≡ true)
        × (any (λ i. i == case.id) b.ids ≡ false)
        × (b.end + 1 < 2 ^ 31)
        × (length b.ids ≢ b.limits.batch.max_cases)
        × (after ≡ record b {
          records = b.records ++ encoded ++ line_feed ∷ [];
          ids = case.id ∷ b.ids;
          end = b.end + 1;
        })
  unfolding try_push
  record_taken b r {after} h =
      let (in_order, h1) = ensure-eq-ok (eqb_ℤ r.case_ordinal (pos b.end)) _ _ h in
      let (in_range, h2) = ensure-eq-ok (ltb (b.end + 1) (2 ^ 31)) _ _ h1 in
      let (encoded, e, h3) = >>=-eq-ok (compact json (json.record_pieces r) _) _ h2 in
      let (case, v, h4) = >>=-eq-ok (validate_record json r) _ h3 in
      let (fresh, h5) = ensure-eq-ok (not (any (λ i. i == case.id) b.ids)) _ _ h4 in
      let (head, p, h6) =
        >>=-eq-ok (compact json (json.header_pieces (header_to b (b.end + 1))) _) _ h5 in
      (encoded, case, e, v, in_order, ground arith, ground arith, ground arith, ground arith)

  -- A reader that has not failed.
  abbrev pub reader_at : CaseBatchHeader → List (List ℕ) → ℕ → List ℕ → CaseBatchReader
  reader_at h lines ordinal ids = record {
    header = h;
    lines = lines;
    ordinal = ordinal;
    ids = ids;
    terminal = false;
    failed = false;
  }

  read_all-end :
      (h : CaseBatchHeader) (n ordinal : ℕ) (ids : List ℕ)
      → h.ordinal_end ≡ pos ordinal
      → read_all json (suc n) (reader_at h [] ordinal ids) ≡ ok []
  unfolding read_all next_record
  read_all-end h n ordinal ids e =
      let test : eqb_ℤ (pos ordinal) h.ordinal_end ≡ true = rw e (eqb_ℤ_refl (pos ordinal)) in
      rw (read_all, next_record, test) refl

  read_all-step :
      (n : ℕ) (reader : CaseBatchReader) {after : CaseBatchReader} {r : CaseRecord Value}
      {rs : List (CaseRecord Value)}
      → next_record json reader ≡ (some (ok r), after)
      → read_all json n after ≡ ok rs
      → read_all json (suc n) reader ≡ ok (r ∷ rs)
  unfolding read_all
  read_all-step n reader {after} {r} {rs} step rest =
      let kept : read_all json n (next_record json reader).1 ≡ ok rs =
        ap (λ p. read_all json n p.1) step ∙ rest in
      rw (read_all, ap (λ p. p.0) step, kept) refl

  next_record-line :
      (h : CaseBatchHeader) (ordinal : ℕ) (ids : List ℕ) (line : List ℕ) (lines : List (List ℕ))
      (r : CaseRecord Value) (case : DatasetCase)
      → pos ordinal <ℤ h.ordinal_end
      → parse json json.record_from line ≡ ok r
      → eqb_ℤ r.case_ordinal (pos ordinal) ≡ true
      → validate_record json r ≡ ok case
      → any (λ i. i == case.id) ids ≡ false
      → next_record json (reader_at h (line ∷ lines) ordinal ids)
        ≡ (some (ok r), reader_at h lines (ordinal + 1) (case.id ∷ ids))
  unfolding next_record read_line
  next_record-line h ordinal ids line lines r case inside parsed in_order valid fresh =
      let inside' : ltb_ℤ (pos ordinal) h.ordinal_end ≡ true = ground arith in
      rw (next_record, read_line, inside', parsed, in_order, valid, fresh) refl

  read_all-line :
      (h : CaseBatchHeader) (n ordinal : ℕ) (ids : List ℕ) (line : List ℕ) (lines : List (List ℕ))
      (r : CaseRecord Value) (case : DatasetCase) {rs : List (CaseRecord Value)}
      → pos ordinal <ℤ h.ordinal_end
      → parse json json.record_from line ≡ ok r
      → eqb_ℤ r.case_ordinal (pos ordinal) ≡ true
      → validate_record json r ≡ ok case
      → any (λ i. i == case.id) ids ≡ false
      → read_all json n (reader_at h lines (ordinal + 1) (case.id ∷ ids)) ≡ ok rs
      → read_all json (suc n) (reader_at h (line ∷ lines) ordinal ids) ≡ ok (r ∷ rs)
  read_all-line h n ordinal ids line lines r case inside parsed in_order valid fresh rest =
      read_all-step n _
        (next_record-line h ordinal ids line lines r case inside parsed in_order valid fresh) rest

  -- The records that the builder took, one after another, are read from the lines that it added.
  pub record Pushed (b : CaseBatchBuilder) (rs : List (CaseRecord Value)) (after : CaseBatchBuilder)
      : Type 0 where
    pub lines : List (List ℕ)
    pub records_eq : after.records ≡ b.records ++ frames lines
    pub are_lines : IsOneLine json → All IsLine lines
    pub length_eq : length lines ≡ length rs
    pub end_eq : after.end ≡ b.end + length rs
    pub ids_eq : length after.ids ≡ length b.ids + length rs
    pub few_ids : length after.ids ≤ b.limits.batch.max_cases
    pub start_kept : after.start ≡ b.start
    pub dataset_kept : after.dataset_id ≡ b.dataset_id
    pub limits_kept : after.limits ≡ b.limits
    pub reads :
        (h : CaseBatchHeader)
        → All IsStableRecord rs
        → h.ordinal_end ≡ pos after.end
        → read_all json (suc (length lines)) (reader_at h lines b.end b.ids) ≡ ok rs

  Pushed-nil : (b : CaseBatchBuilder) → length b.ids ≤ b.limits.batch.max_cases → Pushed b [] b
  unfolding frames
  Pushed-nil b few = record {
    lines = [];
    records_eq = sym (append-nil b.records);
    are_lines = λ one_line. tt;
    length_eq = refl;
    end_eq = omega arith;
    ids_eq = omega arith;
    few_ids = few;
    start_kept = refl;
    dataset_kept = refl;
    limits_kept = refl;
    reads = λ h stable e. read_all-end h 0 b.end b.ids e;
  }

  Pushed-cons :
      (b : CaseBatchBuilder) (r : CaseRecord Value) (rs : List (CaseRecord Value))
      (encoded : List ℕ) (case : DatasetCase) {after : CaseBatchBuilder}
      → (IsStableRecord r → parse json json.record_from encoded ≡ ok r)
      → (IsOneLine json → IsLine encoded)
      → validate_record json r ≡ ok case
      → eqb_ℤ r.case_ordinal (pos b.end) ≡ true
      → any (λ i. i == case.id) b.ids ≡ false
      → Pushed
          (record b {
            records = b.records ++ encoded ++ line_feed ∷ [];
            ids = case.id ∷ b.ids;
            end = b.end + 1;
          })
          rs
          after
      → Pushed b (r ∷ rs) after
  unfolding frames
  Pushed-cons b r rs encoded case {after} parsed line valid in_order fresh p = record {
    lines = encoded ∷ p.lines;
    records_eq =
        p.records_eq
        ∙ append_assoc (b.records ++ encoded) (line_feed ∷ []) (frames p.lines)
        ∙ append_assoc b.records encoded (line_feed ∷ frames p.lines);
    are_lines = λ one_line. (line one_line, p.are_lines one_line);
    length_eq = ap suc p.length_eq;
    end_eq = omega (arith, p.end_eq);
    ids_eq = omega (arith, p.ids_eq);
    few_ids = p.few_ids;
    start_kept = p.start_kept;
    dataset_kept = p.dataset_kept;
    limits_kept = p.limits_kept;
    reads = λ h (stable, others) e.
        read_all-line h (suc (length p.lines)) b.end b.ids encoded p.lines r case
          (omega (arith, ap pos_part e, ap neg_part e, p.end_eq)) (parsed stable) in_order valid
          fresh (p.reads h others e);
  }

  pub push_all-Pushed :
      (b : CaseBatchBuilder) (rs : List (CaseRecord Value)) {after : CaseBatchBuilder}
      → push_all json b rs ≡ ok after
      → length b.ids ≤ b.limits.batch.max_cases
      → Pushed b rs after
  unfolding push_all
  push_all-Pushed b [] {after} h few =
      let same : b ≡ after = ground arith in subst (Pushed b []) same (Pushed-nil b few)
  push_all-Pushed b (r ∷ rs) {after} h few =
      let ((taken, b'), step, h1) = >>=-eq-ok (try_push json b r) _ h in
      let (t, h2) = ensure-eq-ok taken _ _ h1 in
      let (encoded, case, e, valid, in_order, fresh, inside, room, made) =
        record_taken b r (step ∙ ap (λ x. ok (x, b')) t) in
      Pushed-cons b r rs encoded case
        (λ stable.
          parse-compact json.record_from r (json.record_pieces r) b.limits.batch.max_bytes stable e)
        (λ one_line. compact-IsLine (json.record_pieces r) b.limits.batch.max_bytes one_line e)
        valid in_order fresh
        (subst (λ x. Pushed x rs after) made
          (push_all-Pushed b' rs h2
            (subst (λ x. length x.ids ≤ x.limits.batch.max_cases) (sym made) (omega arith))))
