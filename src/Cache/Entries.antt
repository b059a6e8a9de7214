-- ===== src/Cache/Entries.antt =====
-- The entries of the read cache of vigilo/src/case_reader/cache.rs: the bytes charged for them, the
-- keys that differ, and what removing an entry and putting it at the back keeps.
use agent_vigilo.Prelude.{
  ℕ, ◌+◌, ◌≡◌, refl, ap, ◌∙◌, ◌⊎◌, inl, inr, Bool, true, false, Option, none, some, List, [], ◌∷◌,
  ◌++◌, arith, ◌==◌, Bool-cases, Option-cases, option_eq, length, any, All, length-append,
}
use agent_vigilo.Prelude.Text.{Text, text_eq}
use agent_vigilo.Storage.Limits.{format_eq}
use agent_vigilo.Storage.Object.{ObjectRef, ref_eq}
use agent_vigilo.Cache.{Entry, entry_is, remove_first, State, lookup}

-- The charge of all entries.
unfoldable pub total : List Entry → ℕ
total [] = 0
total (e ∷ es) = e.charge + total es

pub total-append : (es fs : List Entry) → total (es ++ fs) ≡ total es + total fs
unfolding total
total-append [] fs = omega arith
total-append (e ∷ es) fs = omega (arith, total-append es fs)

text_eq_sym : (a b : Text) → text_eq a b ≡ text_eq b a
unfolding text_eq
text_eq_sym [] [] = refl
text_eq_sym [] (y ∷ b) = refl
text_eq_sym (x ∷ a) [] = refl
text_eq_sym (x ∷ a) (y ∷ b) = ground (arith, text_eq_sym a b)

option_eq_sym : (a b : Option Text) → option_eq text_eq a b ≡ option_eq text_eq b a
option_eq_sym none none = refl
option_eq_sym none (some t) = refl
option_eq_sym (some s) none = refl
option_eq_sym (some s) (some t) = text_eq_sym s t

format_eq_sym : (a b : _) → format_eq a b ≡ format_eq b a
unfolding format_eq
format_eq_sym a b = ground arith

==_sym : (a b : ℕ) → (a == b) ≡ (b == a)
==_sym a b = ground arith

ref_eq_sym : (a b : ObjectRef) → ref_eq a b ≡ ref_eq b a
unfolding ref_eq
ref_eq_sym a b = cc (
  text_eq_sym a.storage_alias b.storage_alias,
  text_eq_sym a.key b.key,
  format_eq_sym a.schema b.schema,
  text_eq_sym a.digest b.digest,
  ==_sym a.byte_count b.byte_count,
  option_eq_sym a.revision b.revision,
)

abbrev pub clash : Entry → Entry → Bool
clash e f = entry_is e.binding e.reference f

clash_sym : (e f : Entry) → clash e f ≡ clash f e
unfolding entry_is
clash_sym e f = cc (text_eq_sym e.binding f.binding, ref_eq_sym e.reference f.reference)

-- No two entries have one key.
unfoldable pub AreDistinct : List Entry → Type 0
AreDistinct [] = Unit
AreDistinct (e ∷ es) = All (λ f. clash e f ≡ false) es × AreDistinct es

module _ (P : Entry → Type 0) where
  pub All-append : (es fs : List Entry) → All P es → All P fs → All P (es ++ fs)
  All-append [] fs u v = v
  All-append (e ∷ es) fs (p, u) v = (p, All-append es fs u v)

  pub All-behind : (es fs : List Entry) → All P (es ++ fs) → All P fs
  All-behind [] fs u = u
  All-behind (e ∷ es) fs (p, u) = All-behind es fs u

pub AreDistinct-behind : (es fs : List Entry) → AreDistinct (es ++ fs) → AreDistinct fs
unfolding AreDistinct
AreDistinct-behind [] fs d = d
AreDistinct-behind (e ∷ es) fs (a, d) = AreDistinct-behind es fs d

-- An entry whose key no other has goes to the back.
pub AreDistinct-push :
    (es : List Entry) (e : Entry)
    → AreDistinct es
    → All (λ f. clash e f ≡ false) es
    → AreDistinct (es ++ e ∷ [])
unfolding AreDistinct
AreDistinct-push [] e d a = (tt, tt)
AreDistinct-push (f ∷ es) e (b, d) (p, a) = (
  All-append (λ g. clash f g ≡ false) es (e ∷ []) b (clash_sym f e ∙ p, tt),
  AreDistinct-push es e d a,
)

pub any-false : (p : Entry → Bool) (es : List Entry) → any p es ≡ false → All (λ e. p e ≡ false) es
any-false p [] h = tt
any-false p (e ∷ es) h = (ground arith, any-false p es (ground arith))

-- An entry that moves to the back.
pub rotate-All :
    (P : Entry → Type 0) (front : List Entry) (e : Entry) (back : List Entry)
    → All P (front ++ e ∷ back)
    → All P ((front ++ back) ++ e ∷ [])
rotate-All P [] e back (p, u) = All-append P back (e ∷ []) u (p, tt)
rotate-All P (f ∷ front) e back (p, u) = (p, rotate-All P front e back u)

pub rotate-AreDistinct :
    (front : List Entry) (e : Entry) (back : List Entry)
    → AreDistinct (front ++ e ∷ back)
    → AreDistinct ((front ++ back) ++ e ∷ [])
unfolding AreDistinct
rotate-AreDistinct [] e back (a, d) = AreDistinct-push back e d a
rotate-AreDistinct (f ∷ front) e back (a, d) =
    (rotate-All (λ g. clash f g ≡ false) front e back a, rotate-AreDistinct front e back d)

pub rotate-total :
    (front : List Entry) (e : Entry) (back : List Entry)
    → total ((front ++ back) ++ e ∷ []) ≡ total (front ++ e ∷ back)
unfolding total
rotate-total [] e back = omega (arith, total-append back (e ∷ []))
rotate-total (f ∷ front) e back = omega (arith, rotate-total front e back)

pub rotate-length :
    (front : List Entry) (e : Entry) (back : List Entry)
    → length ((front ++ back) ++ e ∷ []) ≡ length (front ++ e ∷ back)
rotate-length [] e back = omega (arith, length-append back (e ∷ []))
rotate-length (f ∷ front) e back = omega (arith, rotate-length front e back)

-- What `remove_first` found stood in the list, and the others are left as they stand.
remove_first-splits :
    (binding : Text) (reference : ObjectRef) (es : List Entry) {e : Entry} {others : List Entry}
    → remove_first binding reference es ≡ some (e, others)
    → (front : List Entry) × (back : List Entry) × (es ≡ front ++ e ∷ back)
      × (others ≡ front ++ back)
      × (entry_is binding reference e ≡ true)
unfolding remove_first
remove_first-splits binding reference [] h = cc
remove_first-splits binding reference (x ∷ es) {e} {others} h =
    elim (Bool-cases (entry_is binding reference x)) [
      | inl found ↦
          let same : x ≡ e = ground arith in
          let rest : es ≡ others = ground arith in
          ([], others, cc (same, rest), refl, cc (same, found))
      | inr other ↦ elim (Option-cases (remove_first binding reference es)) [
        | inl gone ↦ absurd (ground arith)
        | inr ((e', others'), there) ↦
            let same : e' ≡ e = ground arith in
            let rest : others ≡ x ∷ others' = ground arith in
            let (front, back, split, left, is) = remove_first-splits binding reference es there in
            (
              x ∷ front,
              back,
              ap (λ xs. x ∷ xs) (split ∙ ap (λ y. front ++ y ∷ back) same),
              rest ∙ ap (λ xs. x ∷ xs) left,
              cc (same, is),
            )
      ]
    ]

-- What a lookup returns and leaves behind: nothing and the state, or the bytes of an entry of the
-- key, which has moved to the back.
pub lookup-cases :
    (binding : Text) (reference : ObjectRef) (s : State)
    → (lookup binding reference s ≡ (none, s))
      ⊎ ((front : List Entry) × (e : Entry) × (back : List Entry) × (s.entries ≡ front ++ e ∷ back)
          × (entry_is binding reference e ≡ true)
          × (lookup binding reference s ≡ (
            some e.bytes,
            record { entries = (front ++ back) ++ e ∷ []; charged = s.charged },
          )))
unfolding lookup
lookup-cases binding reference s = elim (Option-cases (remove_first binding reference s.entries)) [
  | inl gone ↦ inl (rw (gone, lookup) refl)
  | inr ((e, others), there) ↦
      let (front, back, split, left, is) = remove_first-splits binding reference s.entries there in
      inr (front, e, back, split, is, rw (lookup, there, left) refl)
]
