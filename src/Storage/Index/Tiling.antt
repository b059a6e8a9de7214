-- ===== src/Storage/Index/Tiling.antt =====
-- The entries of a validated index page tile its range.
use native.Mathlib.Decide.{dec_lt}
use agent_vigilo.Prelude.{
  ℕ, zero, suc, ◌+◌, ◌≡◌, refl, ap, some, List, [], ◌∷◌, arith, get_elem?, ok, ◌>>=◌, ensure,
  ensure-eq-ok, >>-eq-ok, >>=-eq-ok, ensure-true,
}
use agent_vigilo.Prelude.Int.{ℤ, pos, pos_part, neg_part, ◌≤ℤ◌, ◌<ℤ◌, eqb_ℤ, eqb_ℤ→eq}
use agent_vigilo.Storage.Limits.{StorageFormat, FormatLimits, index_cover, range}
use agent_vigilo.Storage.Object.{require}
use agent_vigilo.Storage.Index.{IndexEntry, IndexPage, check_entries, child_schema, validate_page}

pub range-eq-ok : (s e : ℤ) → range s e ≡ ok tt → (pos 0 ≤ℤ s) × (s <ℤ e)
unfolding range
range-eq-ok s e h = ground arith

-- The ordinal lies in the entry's interval.
abbrev pub Holds : ℤ → IndexEntry → Type 0
Holds i e = (e.range_start ≤ℤ i) × (i <ℤ e.range_end)

pub check_entries-cons :
    (limits : FormatLimits) (child : StorageFormat) (next last : ℤ) (e : IndexEntry)
    (es : List IndexEntry)
    → check_entries limits child next (e ∷ es) ≡ ok last
    → (e.range_start ≡ next)
      × (pos 0 ≤ℤ e.range_start)
      × (e.range_start <ℤ e.range_end)
      × (require e.object child limits ≡ ok tt)
      × (check_entries limits child e.range_end es ≡ ok last)
unfolding check_entries
check_entries-cons limits child next last e es h =
    let (r, a) = >>-eq-ok (range e.range_start e.range_end) _ h in
    let (t, b) = ensure-eq-ok _ _ _ a in
    let (q, c) = >>-eq-ok _ _ b in
    let (lo, hi) = range-eq-ok _ _ r in (eqb_ℤ→eq _ _ t, lo, hi, q, c)

-- The loop of a validated page runs from the start of the range to its end.
pub validate_page_entries :
    (page : IndexPage) (limits : FormatLimits)
    → validate_page page limits ≡ ok tt
    → check_entries limits (child_schema page) page.range_start page.entries ≡ ok page.range_end
unfolding validate_page
validate_page_entries page limits h =
    let loop = check_entries limits (child_schema page) page.range_start page.entries in
    let cover = λ (next : ℤ). ensure (eqb_ℤ next page.range_end) index_cover in
    let ran : (loop >>= cover) ≡ ok tt = ground arith in
    let (next, done, t) = >>=-eq-ok loop cover ran in
    let e = eqb_ℤ→eq next page.range_end (ensure-true _ index_cover t) in rw e at done

module _ (limits : FormatLimits) (child : StorageFormat) where
  check_entries-le :
      (es : List IndexEntry) (next last : ℤ)
      → check_entries limits child next es ≡ ok last
      → next ≤ℤ last
  unfolding check_entries
  check_entries-le [] next last h = ground arith
  check_entries-le (x ∷ es) next last h =
      let (a, b, c, d, t) = check_entries-cons limits child next last x es h in
      let le = check_entries-le es x.range_end last t in ground arith

  pub check_entries_bounds :
      (es : List IndexEntry) (next last : ℤ) (k : ℕ) {e : IndexEntry}
      → check_entries limits child next es ≡ ok last
      → get_elem? es k ≡ some e
      → (next ≤ℤ e.range_start) × (e.range_start <ℤ e.range_end) × (e.range_end ≤ℤ last)
  check_entries_bounds [] next last k h g = cc
  check_entries_bounds (x ∷ es) next last zero h g =
      let (a, b, c, d, t) = check_entries-cons limits child next last x es h in
      let le = check_entries-le es x.range_end last t in ground arith
  check_entries_bounds (x ∷ es) next last (suc k) h g =
      let (a, b, c, d, t) = check_entries-cons limits child next last x es h in
      let below = check_entries_bounds es x.range_end last k t g in ground arith

  pub check_entries_find :
      (es : List IndexEntry) (next last i : ℤ)
      → check_entries limits child next es ≡ ok last
      → next ≤ℤ i
      → i <ℤ last
      → (k : ℕ) × (e : IndexEntry) × (get_elem? es k ≡ some e) × Holds i e
  unfolding check_entries
  check_entries_find [] next last i h lo hi = absurd (ground arith)
  check_entries_find (x ∷ es) next last i h lo hi =
      let (a, b, c, d, t) = check_entries-cons limits child next last x es h in
      elim (dec_lt (pos_part i + neg_part x.range_end) (pos_part x.range_end + neg_part i)) [
        | yes here ↦ (0, x, refl, (ground arith, here))
        | no beyond ↦
            let (k, e, g, held) = check_entries_find es x.range_end last i t (omega arith) hi in
            (suc k, e, g, held)
      ]

  pub check_entries_unique :
      (es : List IndexEntry) (next last i : ℤ) (k j : ℕ) {e d : IndexEntry}
      → check_entries limits child next es ≡ ok last
      → get_elem? es k ≡ some e
      → Holds i e
      → get_elem? es j ≡ some d
      → Holds i d
      → k ≡ j
  check_entries_unique [] next last i k j h g a g' b = cc
  check_entries_unique (x ∷ es) next last i zero zero h g a g' b = refl
  check_entries_unique (x ∷ es) next last i zero (suc j) h g a g' b =
      let t = (check_entries-cons limits child next last x es h).4 in
      let below = check_entries_bounds es x.range_end last j t g' in absurd (ground arith)
  check_entries_unique (x ∷ es) next last i (suc k) zero h g a g' b =
      let t = (check_entries-cons limits child next last x es h).4 in
      let below = check_entries_bounds es x.range_end last k t g in absurd (ground arith)
  check_entries_unique (x ∷ es) next last i (suc k) (suc j) h g a g' b =
      let t = (check_entries-cons limits child next last x es h).4 in
      ap suc (check_entries_unique es x.range_end last i k j t g a g' b)

-- A page that passes validation tiles its range: each ordinal of the range lies in an entry, and in
-- no other one.
pub validate_page_tiles :
    (page : IndexPage) (limits : FormatLimits) (i : ℤ)
    → validate_page page limits ≡ ok tt
    → page.range_start ≤ℤ i
    → i <ℤ page.range_end
    → (k : ℕ) × (e : IndexEntry) × (get_elem? page.entries k ≡ some e)
      × Holds i e
      × ((j : ℕ) (d : IndexEntry) → get_elem? page.entries j ≡ some d → Holds i d → k ≡ j)
validate_page_tiles page limits i h lo hi =
    let c = validate_page_entries page limits h in
    let child = child_schema page in
    let (k, e, g, held) =
      check_entries_find limits child page.entries page.range_start page.range_end i c lo hi in
    (
      k,
      e,
      g,
      held,
      λ j d g' held'.
          check_entries_unique limits child page.entries page.range_start page.range_end i k j c g
            held g' held',
    )
