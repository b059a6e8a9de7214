-- ===== src/Aggregation/Bindings.antt =====
-- The map of expected bindings.
use agent_vigilo.Prelude.{
  ℕ, suc, ◌≤◌, ◌≡◌, sym, ap, ◌∙◌, inl, inr, Bool, true, false, some, List, [], ◌∷◌, arith,
  if◌then◌else◌, Bool-cases, is_some, All,
}
use mathlib.Core.Path.{subst}
use agent_vigilo.Prelude.Text.{Text, text_eq, text_eq→eq, text_eq_refl}
use agent_vigilo.Prelude.Dict.{Dict, get, insert, get-insert}
use agent_vigilo.Aggregation.{AggregationBinding, expect_bindings, required_ids}

expect_again :
    (b : AggregationBinding) (bs : List AggregationBinding) (m : Dict Bool) (n : ℕ) (t : Bool)
    → is_some (get b.binding_id m) ≡ t
    → expect_bindings (b ∷ bs) m n
      ≡ expect_bindings bs (insert b.binding_id b.required m) (if t then suc n else n)
unfolding expect_bindings
expect_again b bs m n t h =
    ap (λ t. expect_bindings bs (insert b.binding_id b.required m) (if t then suc n else n)) h

expect_bindings-count :
    (bs : List AggregationBinding) (m : Dict Bool) (n : ℕ) → n ≤ (expect_bindings bs m n).1
unfolding expect_bindings
expect_bindings-count [] m n = omega arith
expect_bindings-count (b ∷ bs) m n = elim (Bool-cases (is_some (get b.binding_id m))) [
  | inl again ↦
      let rest = expect_bindings-count bs (insert b.binding_id b.required m) (suc n) in
      rw (expect_again b bs m n true again) (omega (arith, rest))
  | inr first ↦
      rw (expect_again b bs m n false first)
        (expect_bindings-count bs (insert b.binding_id b.required m) n)
]

-- Without a duplicate, a key that is there keeps its value.
expect_bindings-keeps :
    (bs : List AggregationBinding) (m : Dict Bool) (n : ℕ) (k : Text) (v : Bool)
    → (expect_bindings bs m n).1 ≡ n
    → get k m ≡ some v
    → get k (expect_bindings bs m n).0 ≡ some v
unfolding expect_bindings
expect_bindings-keeps [] m n k v e h = h
expect_bindings-keeps (b ∷ bs) m n k v e h =
    let next = insert b.binding_id b.required m in
    elim (Bool-cases (is_some (get b.binding_id m))) [
      | inl again ↦
          let most = expect_bindings-count bs next (suc n) in
          absurd (omega (arith, most, ap (λ p. p.1) (sym (expect_again b bs m n true again)) ∙ e))
      | inr first ↦
          let found : get k next ≡ some v =
            ground (arith, get-insert b.binding_id k b.required m, text_eq→eq k b.binding_id) in
          let step = expect_again b bs m n false first in
          rw step (expect_bindings-keeps bs next n k v (ap (λ p. p.1) (sym step) ∙ e) found)
    ]

abbrev pub AreExpected : Dict Bool → List AggregationBinding → Type 0
AreExpected m bs = All (λ b. get b.binding_id m ≡ some b.required) bs

pub expect_bindings-get :
    (bs : List AggregationBinding) (m : Dict Bool) (n : ℕ)
    → (expect_bindings bs m n).1 ≡ n
    → AreExpected (expect_bindings bs m n).0 bs
unfolding expect_bindings
expect_bindings-get [] m n e = tt
expect_bindings-get (b ∷ bs) m n e =
    let next = insert b.binding_id b.required m in
    elim (Bool-cases (is_some (get b.binding_id m))) [
      | inl again ↦
          let most = expect_bindings-count bs next (suc n) in
          absurd (omega (arith, most, ap (λ p. p.1) (sym (expect_again b bs m n true again)) ∙ e))
      | inr first ↦
          let step = expect_again b bs m n false first in
          let fresh = ap (λ p. p.1) (sym step) ∙ e in
          let found : get b.binding_id next ≡ some b.required =
            ground (
              arith,
              get-insert b.binding_id b.binding_id b.required m,
              text_eq_refl b.binding_id,
            ) in
          subst (λ p. AreExpected (p.0) (b ∷ bs)) (sym step)
            (
              expect_bindings-keeps bs next n b.binding_id b.required fresh found,
              expect_bindings-get bs next n fresh,
            )
    ]

required_ids-lookup :
    (P : Text → Type 0) (m : Dict Bool) (k : Text)
    → All P (required_ids m)
    → get k m ≡ some true
    → P k
unfolding required_ids get
required_ids-lookup P [] k h e = absurd (ground arith)
required_ids-lookup P ((j, true) ∷ m) k h e = elim (Bool-cases (text_eq k j)) [
  | inl same ↦ rw (text_eq→eq k j same) (h.0)
  | inr other ↦ required_ids-lookup P m k (h.1) (ground arith)
]
required_ids-lookup P ((j, false) ∷ m) k h e = elim (Bool-cases (text_eq k j)) [
  | inl same ↦ absurd (ground arith)
  | inr other ↦ required_ids-lookup P m k h (ground arith)
]

pub required_bindings :
    (P : Text → Type 0) (m : Dict Bool) (bs : List AggregationBinding)
    → AreExpected m bs
    → All P (required_ids m)
    → All (λ b. b.required ≡ true → P b.binding_id) bs
required_bindings P m [] e h = tt
required_bindings P m (b ∷ bs) (e, es) h = (
  λ needed. required_ids-lookup P m b.binding_id h (e ∙ ap some needed),
  required_bindings P m bs es h,
)
