-- ===== src/Prelude/Dict.antt =====
-- `BTreeMap` with text keys: pairs in rising order of their keys.
use mathlib.Core.Path.{◌≡◌, refl, sym, subst}
use mathlib.Core.Bool.{true, false}
use mathlib.Core.Logic.{inl, inr}
use agent_vigilo.Prelude.Lists.{All, All-map}
use mathlib.Core.Option.{Option, none, some}
use mathlib.Core.List.{List, [], ◌∷◌}
use native.Mathlib.Omega.{arith}
use agent_vigilo.Prelude.Tests.{if◌then◌else◌, Bool-cases}
use agent_vigilo.Prelude.Text.{
  Text, text_eq, text_lt, text_eq_iff, text_eq_refl, text_eq→eq, text_lt_trans, text_lt_irrefl,
}

abbrev pub Dict {ℓ} : Type ℓ → Type ℓ
Dict V = List (Text × V)

module _ {ℓ} {V : Type ℓ} where
  unfoldable pub get : Text → Dict V → Option V
  get k [] = none
  get k ((j, v) ∷ m) = if text_eq k j then some v else get k m

  -- `insert`: replaces the value of a key that is there.
  unfoldable pub insert : Text → V → Dict V → Dict V
  insert k v [] = (k, v) ∷ []
  insert k v ((j, w) ∷ m) =
      if text_eq k j
      then (k, v) ∷ m
      else (if text_lt k j then (k, v) ∷ (j, w) ∷ m else (j, w) ∷ insert k v m)

  abbrev pub keys : Dict V → List Text
  keys [] = []
  keys ((k, v) ∷ m) = k ∷ keys m

  abbrev pub values : Dict V → List V
  values [] = []
  values ((k, v) ∷ m) = v ∷ values m

  pub get-insert :
      (k j : Text) (v : V) (m : Dict V)
      → get j (insert k v m) ≡ (if text_eq j k then some v else get j m)
  unfolding get insert
  get-insert k j v [] = refl
  get-insert k j v ((i, w) ∷ m) =
      ground (arith, text_eq_iff k i, text_eq_iff j i, text_eq_iff j k, get-insert k j v m)

All-both :
    {A : Type 0} (P Q : A → Type 0) (xs : List A) → All P xs → All Q xs → All (λ x. P x × Q x) xs
All-both P Q [] u v = tt
All-both P Q (x ∷ xs) (p, u) (q, v) = ((p, q), All-both P Q xs u v)

text_lt_total : (s t : Text) → text_eq s t ≡ false → text_lt s t ≡ false → text_lt t s ≡ true
unfolding text_eq text_lt
text_lt_total [] [] h k = cc
text_lt_total [] (b ∷ bs) h k = cc
text_lt_total (a ∷ as') [] h k = refl
text_lt_total (a ∷ as') (b ∷ bs) h k = ground (arith, text_lt_total as' bs)

module _ {V : Type 0} where
  -- The keys rise.
  unfoldable pub IsSorted : Dict V → Type 0
  IsSorted [] = Unit
  IsSorted ((k, v) ∷ m) = All (λ p. text_lt k p.0 ≡ true) m × IsSorted m

  insert-All :
      (P : Text × V → Type 0) (k : Text) (v : V) (m : Dict V)
      → P (k, v)
      → All P m
      → All P (insert k v m)
  unfolding insert
  insert-All P k v [] p u = (p, tt)
  insert-All P k v ((j, w) ∷ m) p (q, u) = elim (Bool-cases (text_eq k j)) [
    | inl same ↦ rw (insert, same) (p, u)
    | inr other ↦ elim (Bool-cases (text_lt k j)) [
      | inl before ↦ rw (insert, other, before) (p, (q, u))
      | inr behind ↦ rw (insert, other, behind) (q, insert-All P k v m p u)
    ]
  ]

  pub insert-IsSorted : (k : Text) (v : V) (m : Dict V) → IsSorted m → IsSorted (insert k v m)
  unfolding insert IsSorted
  insert-IsSorted k v [] u = (tt, tt)
  insert-IsSorted k v ((j, w) ∷ m) (first, u) = elim (Bool-cases (text_eq k j)) [
    | inl same ↦
        rw (insert, same)
          (subst (λ i. All (λ p. text_lt i p.0 ≡ true) m) (sym (text_eq→eq k j same)) first, u)
    | inr other ↦ elim (Bool-cases (text_lt k j)) [
      | inl before ↦
          rw (insert, other, before)
            ((before, All-map (λ p h. text_lt_trans k j p.0 before h) m first), (first, u))
      | inr behind ↦
          rw (insert, other, behind)
            (
              insert-All (λ p. text_lt j p.0 ≡ true) k v m (text_lt_total k j other behind) first,
              insert-IsSorted k v m u,
            )
    ]
  ]

  -- In a sorted dictionary every pair is found under its key.
  pub get-IsSorted : (m : Dict V) → IsSorted m → All (λ p. get p.0 m ≡ some p.1) m
  unfolding get IsSorted
  get-IsSorted [] u = tt
  get-IsSorted ((k, v) ∷ m) (first, u) = (
    rw (get, text_eq_refl k) refl,
    All-map (λ p h. ground (arith, h.0, h.1, text_eq_iff p.0 k, text_lt_irrefl k)) m
        (All-both _ _ m first (get-IsSorted m u)),
  )
