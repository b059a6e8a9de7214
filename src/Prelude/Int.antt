-- ===== src/Prelude/Int.antt =====
-- Signed integers over the native numbers, with the tests and the checked sums of `i32` and `i64`.
use Prim.Native.Nat.{ℕ, suc, ◌+◌, ◌-◌, ◌^◌, ◌≤◌, ◌<◌}
use mathlib.Core.Path.{◌≡◌, refl}
use mathlib.Core.Logic.{◌⊎◌, inl, inr}
use mathlib.Core.Bool.{Bool, true, ◌&&◌}
use mathlib.Core.Option.{Option, none, some}
use native.Mathlib.Omega.{arith}
use agent_vigilo.Prelude.Tests.{ltb, leb, ◌==◌, if◌then◌else◌}

-- `negsuc n` is -(n + 1).
pub data ℤ : Type 0 where
  pos : ℕ → ℤ
  negsuc : ℕ → ℤ

abbrev pub pos_part : ℤ → ℕ
pos_part (pos n) = n
pos_part (negsuc n) = 0

abbrev pub neg_part : ℤ → ℕ
neg_part (pos n) = 0
neg_part (negsuc n) = suc n

-- a - b, as an integer.
abbrev pub sub_ℕ : ℕ → ℕ → ℤ
sub_ℕ a b = if leb b a then pos (a - b) else negsuc (b - a - 1)

infixl 65 ◌+ℤ◌ ◌-ℤ◌
infix 50 ◌≤ℤ◌ ◌<ℤ◌
unfoldable pub ◌+ℤ◌ : ℤ → ℤ → ℤ
a +ℤ b = sub_ℕ (pos_part a + pos_part b) (neg_part a + neg_part b)

unfoldable pub ◌-ℤ◌ : ℤ → ℤ → ℤ
a -ℤ b = sub_ℕ (pos_part a + neg_part b) (neg_part a + pos_part b)

abbrev pub ◌≤ℤ◌ : ℤ → ℤ → Type 0
a ≤ℤ b = pos_part a + neg_part b ≤ pos_part b + neg_part a

abbrev pub ◌<ℤ◌ : ℤ → ℤ → Type 0
a <ℤ b = pos_part a + neg_part b < pos_part b + neg_part a

abbrev pub leb_ℤ : ℤ → ℤ → Bool
leb_ℤ a b = leb (pos_part a + neg_part b) (pos_part b + neg_part a)

abbrev pub ltb_ℤ : ℤ → ℤ → Bool
ltb_ℤ a b = ltb (pos_part a + neg_part b) (pos_part b + neg_part a)

abbrev pub eqb_ℤ : ℤ → ℤ → Bool
eqb_ℤ a b = (pos_part a + neg_part b) == (pos_part b + neg_part a)

pub +ℤ_parts :
    (a b : ℤ)
    → pos_part (a +ℤ b) + neg_part a + neg_part b ≡ neg_part (a +ℤ b) + pos_part a + pos_part b
unfolding ◌+ℤ◌
+ℤ_parts a b = ground arith

pub -ℤ_parts :
    (a b : ℤ)
    → pos_part (a -ℤ b) + neg_part a + pos_part b ≡ neg_part (a -ℤ b) + pos_part a + neg_part b
unfolding ◌-ℤ◌
-ℤ_parts a b = ground arith

pub eq_of_parts : (a b : ℤ) → pos_part a + neg_part b ≡ pos_part b + neg_part a → a ≡ b
eq_of_parts (pos m) (pos n) h = let e : m ≡ n = omega arith in rw e
eq_of_parts (pos m) (negsuc n) h = absurd (omega arith)
eq_of_parts (negsuc m) (pos n) h = absurd (omega arith)
eq_of_parts (negsuc m) (negsuc n) h = let e : m ≡ n = omega arith in rw e

pub eqb_ℤ→eq : (a b : ℤ) → eqb_ℤ a b ≡ true → a ≡ b
eqb_ℤ→eq a b h = eq_of_parts a b (ground arith)

pub eqb_ℤ_refl : (a : ℤ) → eqb_ℤ a a ≡ true
eqb_ℤ_refl a = ground arith

pub parts_exclusive : (a : ℤ) → (pos_part a ≡ 0) ⊎ (neg_part a ≡ 0)
parts_exclusive (pos n) = inr refl
parts_exclusive (negsuc n) = inl refl

-- A number that is not negative is its own positive part.
pub pos-pos_part : (a : ℤ) → pos 0 ≤ℤ a → pos (pos_part a) ≡ a
pos-pos_part (pos n) h = refl
pos-pos_part (negsuc n) h = absurd (omega arith)

-- `checked_add` and `checked_sub` of a signed type with `w + 1` bits.
abbrev pub in_range : ℕ → ℤ → Bool
in_range w a = ltb (pos_part a) (2 ^ w) && leb (neg_part a) (2 ^ w)

unfoldable pub checked_add : ℕ → ℤ → ℤ → Option ℤ
checked_add w a b = if in_range w (a +ℤ b) then some (a +ℤ b) else none

unfoldable pub checked_sub : ℕ → ℤ → ℤ → Option ℤ
checked_sub w a b = if in_range w (a -ℤ b) then some (a -ℤ b) else none

-- `i32::try_from` of a length.
unfoldable pub to_i32 : ℕ → Option ℤ
to_i32 n = if ltb n (2 ^ 31) then some (pos n) else none

-- A checked difference that is not negative counts down exactly.
pub checked_sub_falls :
    (w : ℕ) (a : ℤ) (n : ℕ) {c : ℤ}
    → checked_sub w a (pos n) ≡ some c
    → pos 0 ≤ℤ c
    → (pos_part c + n ≡ pos_part a) × (neg_part c ≡ 0)
unfolding checked_sub
checked_sub_falls w a n h nonneg =
    ground (arith, -ℤ_parts a (pos n), parts_exclusive a, parts_exclusive (a -ℤ pos n))

-- A sum of numbers that are not negative.
pub +ℤ_nonneg :
    (a b : ℤ)
    → pos 0 ≤ℤ a
    → pos 0 ≤ℤ b
    → (pos_part (a +ℤ b) ≡ pos_part a + pos_part b) × (neg_part (a +ℤ b) ≡ 0)
+ℤ_nonneg a b h k =
    ground (arith, +ℤ_parts a b, parts_exclusive a, parts_exclusive b, parts_exclusive (a +ℤ b))

-- A checked sum is the sum, and fits.
pub checked_add_lem :
    (w : ℕ) (a b : ℤ) {c : ℤ}
    → checked_add w a b ≡ some c
    → (c ≡ a +ℤ b) × (pos_part c < 2 ^ w) × (neg_part c ≤ 2 ^ w)
unfolding checked_add
checked_add_lem w a b h = ground arith

pub ruleset int_laws = (arith, +ℤ_parts, -ℤ_parts)
