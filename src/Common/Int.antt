-- ===== src/Common/Int.antt =====
-- The signed integers of C, over the native numbers. `negsuc n` is -(n + 1).
use Prim.Native.Nat.{ℕ, zero, suc, ◌+◌, ◌-◌}
use mathlib.Core.Path.{◌≡◌, refl}
use mathlib.Core.Logic.{◌⊎◌, inl, inr}
use mathlib.Core.Bool.{Bool, true, false}
use native.Mathlib.Omega.{arith}
use lso_baldini.Common.Tests.{leb, ◌==◌, if◌then◌else◌}

pub data ℤ : Type 0 where
  pos : ℕ → ℤ
  negsuc : ℕ → ℤ

abbrev pub minus_one : ℤ
minus_one = negsuc 0

abbrev pub sub_ℕ : ℕ → ℕ → ℤ
sub_ℕ a b = if leb b a then pos (a - b) else negsuc (b - a - 1)

abbrev pub pos_part : ℤ → ℕ
pos_part (pos n) = n
pos_part (negsuc n) = 0

abbrev pub neg_part : ℤ → ℕ
neg_part (pos n) = 0
neg_part (negsuc n) = suc n

infixl 65 ◌+ℤ◌
abbrev pub ◌+ℤ◌ : ℤ → ℤ → ℤ
a +ℤ b = sub_ℕ (pos_part a + pos_part b) (neg_part a + neg_part b)

-- `x > 0`
abbrev pub is_pos : ℤ → Bool
is_pos (pos zero) = false
is_pos (pos (suc n)) = true
is_pos (negsuc n) = false

-- `x == 0`
abbrev pub is_zero : ℤ → Bool
is_zero (pos zero) = true
is_zero (pos (suc n)) = false
is_zero (negsuc n) = false

-- `x < 0`
abbrev pub is_neg : ℤ → Bool
is_neg (pos n) = false
is_neg (negsuc n) = true

abbrev pub neg : ℤ → ℤ
neg (pos zero) = pos zero
neg (pos (suc n)) = negsuc n
neg (negsuc n) = pos (suc n)

abbrev pub eq_ℤ : ℤ → ℤ → Bool
eq_ℤ (pos a) (pos b) = a == b
eq_ℤ (pos a) (negsuc b) = false
eq_ℤ (negsuc a) (pos b) = false
eq_ℤ (negsuc a) (negsuc b) = a == b

pub eq_ℤ_refl : (a : ℤ) → eq_ℤ a a ≡ true
eq_ℤ_refl (pos n) = ground arith
eq_ℤ_refl (negsuc n) = ground arith

pub eq_ℤ_sound : (a b : ℤ) → eq_ℤ a b ≡ true → a ≡ b
eq_ℤ_sound (pos a) (pos b) h = ground arith
eq_ℤ_sound (pos a) (negsuc b) h = ground arith
eq_ℤ_sound (negsuc a) (pos b) h = ground arith
eq_ℤ_sound (negsuc a) (negsuc b) h = ground arith

pub ℤ-cases : (a : ℤ) → (is_neg a ≡ true) ⊎ ((a ≡ pos 0) ⊎ (is_pos a ≡ true))
ℤ-cases (pos zero) = inr (inl refl)
ℤ-cases (pos (suc n)) = inr (inr refl)
ℤ-cases (negsuc n) = inl refl

pub neg_not_pos : (a : ℤ) → is_neg a ≡ true → (is_pos a ≡ false) × (is_zero a ≡ false)
neg_not_pos (pos n) h = cc
neg_not_pos (negsuc n) h = (refl, refl)

pub pos_not_zero : (a : ℤ) → is_pos a ≡ true → (is_zero a ≡ false) × (is_neg a ≡ false)
pos_not_zero (pos zero) h = cc
pos_not_zero (pos (suc n)) h = (refl, refl)
pos_not_zero (negsuc n) h = cc

pub le_nonzero : (a : ℤ) → is_pos a ≡ false → is_zero a ≡ false → is_neg a ≡ true
le_nonzero (pos zero) h k = cc
le_nonzero (pos (suc n)) h k = cc
le_nonzero (negsuc n) h k = refl

pub zero_of_is_zero : (a : ℤ) → is_zero a ≡ true → a ≡ pos 0
zero_of_is_zero (pos zero) h = refl
zero_of_is_zero (pos (suc n)) h = cc
zero_of_is_zero (negsuc n) h = cc
