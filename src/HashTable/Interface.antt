-- ===== src/HashTable/Interface.antt =====
-- The hash and the comparison that `hu_init` (libs/LSO_LIB/hash_utils.c) is given, with what the
-- table needs of them. Keys that compare as equal need not be the same key.
use lso_baldini.Common.{ℕ, ◌≡◌, true, ℤ, pos, is_pos, is_neg}

pub record Key {ℓ} (K : Type ℓ) : Type ℓ where
  pub hash : K → ℕ
  pub compare : K → K → ℤ
  pub compare_refl : (a : K) → compare a a ≡ pos 0
  pub compare_anti : (a b : K) → is_neg (compare a b) ≡ is_pos (compare b a)
  pub compare_lt_trans :
      (a b c : K)
      → is_neg (compare a b) ≡ true
      → is_neg (compare b c) ≡ true
      → is_neg (compare a c) ≡ true
