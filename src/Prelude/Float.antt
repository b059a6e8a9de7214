-- ===== src/Prelude/Float.antt =====
-- What the code does with `f64`: constants, tests and arithmetic, as an interface, with the laws of
-- IEEE 754 that the theorems rely on. NaN is a value that no test of order holds for.
use Prim.Native.Nat.{ℕ, ◌+◌, ◌-◌, ◌*◌, ◌/◌, ◌≤◌, ◌<◌, min, max}
use mathlib.Core.Path.{◌≡◌, refl, ap}
use mathlib.Core.Logic.{◌⊎◌, inl, inr}
use mathlib.Core.Bool.{Bool, true, false, not, ◌&&◌}
use mathlib.Core.Option.{Option, none, some}
use native.Mathlib.Omega.{arith}
use native.Mathlib.Decide.{dec_le}
use native.Mathlib.Nat.{div-le_of_le-mul, mul-le-mul_right}
use agent_vigilo.Prelude.Tests.{ltb, leb, ◌==◌, if◌then◌else◌, is_some, and-eq-true}
use agent_vigilo.Prelude.Int.{ℤ, pos, negsuc}

pub record Float {ℓ} (W : Type ℓ) : Type ℓ where
  pub nought : W
  pub unit : W
  pub epsilon : W
  pub is_finite : W → Bool
  pub le : W → W → Bool
  pub lt : W → W → Bool
  pub eq : W → W → Bool
  pub add : W → W → W
  pub sub : W → W → W
  pub mul : W → W → W
  pub div : W → W → W
  pub fmin : W → W → W
  pub fmax : W → W → W
  pub of_int : ℤ → W

module _ {ℓ} {W : Type ℓ} ⦃f : Float W⦄ where
  infix 4 ◌≼◌
  abbrev pub ◌≼◌ : W → W → Type 0
  x ≼ y = f.le x y ≡ true

  -- `x.is_finite() && (0.0..=1.0).contains(&x)`.
  unfoldable pub valid_score : W → Bool
  valid_score x = f.is_finite x && f.le f.nought x && f.le x f.unit

  -- The same of a value that is there.
  abbrev pub IsScore : W → Type 0
  IsScore x = (f.is_finite x ≡ true) × (f.nought ≼ x) × (x ≼ f.unit)

  pub valid_score-IsScore : (x : W) → valid_score x ≡ true → IsScore x
  unfolding valid_score
  valid_score-IsScore x h =
      let a = and-eq-true _ _ h in let b = and-eq-true _ _ a.0 in (b.0, b.1, a.1)

  pub IsScore-valid_score : (x : W) → IsScore x → valid_score x ≡ true
  unfolding valid_score
  IsScore-valid_score x (h, lo, hi) = rw (h, lo, hi)

-- Rounding is monotone, so the bounds of exact arithmetic survive it.
pub record IsFloat {ℓ} (W : Type ℓ) ⦃f : Float W⦄ : Type ℓ where
  pub nought_finite : f.is_finite f.nought ≡ true
  pub unit_finite : f.is_finite f.unit ≡ true
  pub nought-le-unit : f.nought ≼ f.unit
  pub le_refl : (x : W) → f.is_finite x ≡ true → x ≼ x
  pub le_trans : (x y z : W) → x ≼ y → y ≼ z → x ≼ z
  pub lt-eq-not-le :
      (x y : W) → f.is_finite x ≡ true → f.is_finite y ≡ true → f.lt x y ≡ not (f.le y x)
  pub finite_between :
      (x y : W) → f.nought ≼ x → x ≼ y → f.is_finite y ≡ true → f.is_finite x ≡ true
  pub le_total : (x y : W) → f.is_finite x ≡ true → f.is_finite y ≡ true → f.le x y ≡ false → y ≼ x
  pub add_nonneg : (x y : W) → f.nought ≼ x → f.nought ≼ y → f.nought ≼ f.add x y
  pub add_mono : (x y z w : W) → f.nought ≼ x → f.nought ≼ z → x ≼ y → z ≼ w → f.add x z ≼ f.add y w
  pub le-add : (x y : W) → f.nought ≼ x → f.nought ≼ y → x ≼ f.add x y
  pub mul_nonneg :
      (s w : W) → IsScore s → f.is_finite w ≡ true → f.nought ≼ w → f.nought ≼ f.mul s w
  pub mul_le : (s w : W) → IsScore s → f.is_finite w ≡ true → f.nought ≼ w → f.mul s w ≼ w
  pub div_score :
      (x y : W)
      → f.nought ≼ x
      → x ≼ y
      → f.lt f.nought y ≡ true
      → f.is_finite y ≡ true
      → IsScore (f.div x y)
  pub unit-sub : (x : W) → IsScore x → IsScore (f.sub f.unit x)
  pub sub_between :
      (low x high : W)
      → f.is_finite low ≡ true
      → f.is_finite high ≡ true
      → low ≼ x
      → x ≼ high
      → (f.nought ≼ f.sub x low) × (f.sub x low ≼ f.sub high low)
  pub sub_pos :
      (low high : W)
      → f.is_finite low ≡ true
      → f.is_finite high ≡ true
      → f.le high low ≡ false
      → f.lt f.nought (f.sub high low) ≡ true
  pub fmin_cases :
      (x y : W) → f.is_finite x ≡ true → f.is_finite y ≡ true → (f.fmin x y ≡ x) ⊎ (f.fmin x y ≡ y)

-- The laws can be met: whole thousandths, with `none` for NaN.
abbrev pub Milli : Type 0
Milli = Option ℕ

abbrev on_test : (ℕ → ℕ → Bool) → Milli → Milli → Bool
on_test p none y = false
on_test p (some x) none = false
on_test p (some x) (some y) = p x y

abbrev on_values : (ℕ → ℕ → Milli) → Milli → Milli → Milli
on_values g none y = none
on_values g (some x) none = none
on_values g (some x) (some y) = g x y

abbrev of_signed : ℤ → Milli
of_signed (pos n) = some (n * 1000)
of_signed (negsuc n) = none

instance abbrev pub milli_float : Float Milli
milli_float = record {
  nought = some 0;
  unit = some 1000;
  epsilon = some 0;
  is_finite = is_some;
  le = on_test leb;
  lt = on_test ltb;
  eq = on_test (λ x y. x == y);
  add = on_values (λ x y. some (x + y));
  sub = on_values (λ x y. some (x - y));
  mul = on_values (λ x y. some (x * y / 1000));
  div = on_values (λ x y. if y == 0 then none else some (x * 1000 / y));
  fmin = on_values (λ x y. some (min x y));
  fmax = on_values (λ x y. some (max x y));
  of_int = of_signed;
}

milli_div : (x y : ℕ) → x ≤ y → 0 < y → x * 1000 / y ≤ 1000
milli_div x y h p = grind arith

milli_mul : (x y : ℕ) → x ≤ 1000 → x * y / 1000 ≤ y
milli_mul x y h = div-le_of_le-mul 1000 (mul-le-mul_right y h)

milli_mul_le :
    (x y : Milli)
    → milli_float.le x (some 1000) ≡ true
    → milli_float.le (some 0) y ≡ true
    → milli_float.le (milli_float.mul x y) y ≡ true
milli_mul_le none y h k = cc
milli_mul_le (some x) none h k = cc
milli_mul_le (some x) (some y) h k = ground (arith, milli_mul x y)

milli_div-IsScore :
    (x y : Milli)
    → milli_float.le x y ≡ true
    → milli_float.lt (some 0) y ≡ true
    → IsScore (milli_float.div x y)
milli_div-IsScore none y h l = cc
milli_div-IsScore (some x) none h l = cc
milli_div-IsScore (some x) (some y) h l =
    (ground arith, ground arith, ground (arith, milli_div x y))

milli_min_cases :
    (x y : Milli)
    → is_some x ≡ true
    → is_some y ≡ true
    → (milli_float.fmin x y ≡ x) ⊎ (milli_float.fmin x y ≡ y)
milli_min_cases none y h k = cc
milli_min_cases (some x) none h k = cc
milli_min_cases (some x) (some y) h k = elim (dec_le x y) [
  | yes le ↦ inl (ap some (omega arith))
  | no more ↦ inr (ap some (omega arith))
]

pub Milli-IsFloat : IsFloat Milli
Milli-IsFloat = record {
  nought_finite = refl;
  unit_finite = refl;
  nought-le-unit = refl;
  le_refl = λ x h. ground arith;
  le_trans = λ x y z h k. ground arith;
  lt-eq-not-le = λ x y h k. ground arith;
  finite_between = λ x y h k l. ground arith;
  le_total = λ x y h k l. ground arith;
  add_nonneg = λ x y h k. ground arith;
  add_mono = λ x y z w h k l m. ground arith;
  le-add = λ x y h k. ground arith;
  mul_nonneg = λ x y h k l. ground arith;
  mul_le = λ x y h k l. milli_mul_le x y h.2 l;
  div_score = λ x y h k l m. milli_div-IsScore x y k l;
  unit-sub = λ x h. ground arith;
  sub_between = λ low x high h k l m. ground arith;
  sub_pos = λ low high h k l. ground arith;
  fmin_cases = λ x y h k. milli_min_cases x y h k;
}
