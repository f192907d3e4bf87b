-- ===== src/CString/Order.antt =====
-- What `su_string_compare` (libs/LSO_LIB/string_utils.c) orders: it sees only the bytes up to the
-- end of the shorter string.
use lso_baldini.Common.{
  ◌≡◌, refl, ap, sym, ◌∙◌, ◌↔◌, ◌⊎◌, inl, inr, [], ◌∷◌, ◌++◌, true, false, ◌==◌, if◌then◌else◌,
  Bool-cases, ==_iff, ==_refl, ℤ, pos, sub_ℕ, is_pos, is_zero, is_neg, arith,
}
use lso_baldini.CString.{Bytes, su_string_compare}

-- The comparison as a plain recursion.
abbrev pub prefix_compare : Bytes → Bytes → ℤ
prefix_compare [] b = pos 0
prefix_compare (x ∷ a) [] = pos 0
prefix_compare (x ∷ a) (y ∷ b) = if x == y then prefix_compare a b else sub_ℕ x y

pub su_string_compare_lem : (a b : Bytes) → su_string_compare a b ≡ prefix_compare a b
unfolding su_string_compare
su_string_compare_lem [] b = ground arith
su_string_compare_lem (x ∷ a) [] = ground arith
su_string_compare_lem (x ∷ a) (y ∷ b) = ground (arith, su_string_compare_lem a b)

abbrev pub IsPrefix : Bytes → Bytes → Type 0
IsPrefix a b = (c : Bytes) × (a ++ c ≡ b)

prefix_compare_zero :
    (a b : Bytes) → is_zero (prefix_compare a b) ≡ true → IsPrefix a b ⊎ IsPrefix b a
prefix_compare_zero [] b h = inl (b, refl)
prefix_compare_zero (x ∷ a) [] h = inr (x ∷ a, refl)
prefix_compare_zero (x ∷ a) (y ∷ b) h = elim (Bool-cases (x == y)) [
  | inl e ↦ elim (prefix_compare_zero a b (rw e at h)) [
    | inl (c, p) ↦ inl (c, ground (arith, ==_iff x y))
    | inr (c, p) ↦ inr (c, ground (arith, ==_iff x y))
  ]
  | inr e ↦ ground arith
]

prefix_compare-append : (a c : Bytes) → prefix_compare a (a ++ c) ≡ pos 0
prefix_compare-append [] c = refl
prefix_compare-append (x ∷ a) c = rw (==_refl x) (prefix_compare-append a c)

prefix_compare-append_left : (a c : Bytes) → prefix_compare (a ++ c) a ≡ pos 0
prefix_compare-append_left [] [] = refl
prefix_compare-append_left [] (x ∷ c) = refl
prefix_compare-append_left (x ∷ a) c = rw (==_refl x) (prefix_compare-append_left a c)

pub prefix_compare_refl : (a : Bytes) → prefix_compare a a ≡ pos 0
prefix_compare_refl [] = refl
prefix_compare_refl (x ∷ a) = rw (==_refl x) (prefix_compare_refl a)

pub prefix_compare_anti : (a b : Bytes) → is_neg (prefix_compare a b) ≡ is_pos (prefix_compare b a)
prefix_compare_anti [] [] = refl
prefix_compare_anti [] (y ∷ b) = refl
prefix_compare_anti (x ∷ a) [] = refl
prefix_compare_anti (x ∷ a) (y ∷ b) = ground (arith, prefix_compare_anti a b)

pub prefix_compare_trans :
    (a b c : Bytes)
    → is_neg (prefix_compare a b) ≡ true
    → is_pos (prefix_compare b c) ≡ false
    → is_pos (prefix_compare a c) ≡ false
prefix_compare_trans [] b c h k = refl
prefix_compare_trans (x ∷ a) [] c h k = cc
prefix_compare_trans (x ∷ a) (y ∷ b) [] h k = refl
prefix_compare_trans (x ∷ a) (y ∷ b) (z ∷ c) h k = ground (arith, prefix_compare_trans a b c)

-- Two paths compare as equal exactly when one of them is a prefix of the other.
pub su_string_compare_zero :
    (a b : Bytes) → (su_string_compare a b ≡ pos 0) ↔ (IsPrefix a b ⊎ IsPrefix b a)
su_string_compare_zero a b = (
  λ e. prefix_compare_zero a b (ap is_zero (sym (su_string_compare_lem a b) ∙ e)),
  λ p. su_string_compare_lem a b ∙ zero_of_prefix p,
)
  where
    zero_of_prefix : IsPrefix a b ⊎ IsPrefix b a → prefix_compare a b ≡ pos 0
    zero_of_prefix (inl (c, e)) = rw (← e) (prefix_compare-append a c)
    zero_of_prefix (inr (c, e)) = rw (← e) (prefix_compare-append_left b c)

-- The strict part of the order is transitive.
pub prefix_compare_lt_trans :
    (a b c : Bytes)
    → is_neg (prefix_compare a b) ≡ true
    → is_neg (prefix_compare b c) ≡ true
    → is_neg (prefix_compare a c) ≡ true
prefix_compare_lt_trans [] b c h k = cc
prefix_compare_lt_trans (x ∷ a) [] c h k = cc
prefix_compare_lt_trans (x ∷ a) (y ∷ b) [] h k = cc
prefix_compare_lt_trans (x ∷ a) (y ∷ b) (z ∷ c) h k = ground (arith, prefix_compare_lt_trans a b c)
