-- ===== src/CString.antt =====
-- C strings and their comparison (libs/LSO_LIB/string_utils.c), and the hash of a path
-- (libs/LSO_LIB/hash_utils.c). A string is the list of its bytes before the closing NUL.
pub mod Order
use lso_baldini.Common.{
  ℕ, zero, suc, ◌+◌, ◌-◌, ◌*◌, ◌%◌, ◌^◌, List, [], ◌∷◌, Bool, true, false, ltb, ◌==◌, if◌then◌else◌,
  ℤ, pos, sub_ℕ, length,
}

abbrev pub Bytes : Type 0
Bytes = List ℕ

abbrev pub strlen : Bytes → ℕ
strlen = length

-- The bytes before the first NUL.
unfoldable pub c_string : Bytes → Bytes
c_string [] = []
c_string (b ∷ bs) = if b == 0 then [] else b ∷ c_string bs

-- `strncmp`: at most `n` bytes, as unsigned numbers, up to the first difference or NUL.
unfoldable pub strncmp : Bytes → Bytes → ℕ → ℤ
strncmp a b zero = pos 0
strncmp [] [] (suc n) = pos 0
strncmp [] (y ∷ b) (suc n) = sub_ℕ 0 y
strncmp (x ∷ a) [] (suc n) = pos x
strncmp (x ∷ a) (y ∷ b) (suc n) = if x == y then strncmp a b n else sub_ℕ x y

-- The macro `MIN` of libs/LSO_LIB/common_utils.h.
abbrev pub min : ℕ → ℕ → ℕ
min a b = if ltb a b then a else b

unfoldable pub su_string_compare : Bytes → Bytes → ℤ
unfolding strncmp
su_string_compare a b = strncmp a b (min (strlen a) (strlen b))

-- `char` is signed: a byte from 128 on stands for the byte less 256, here modulo 2 ^ 64.
abbrev pub sign_extend : ℕ → ℕ
sign_extend c = if ltb c 128 then c else c + (2 ^ 64 - 256)

-- The loop of `hu_hash_string`, `hash * 33 + c` in a `size_t`.
unfoldable pub hash_from : ℕ → Bytes → ℕ
hash_from h [] = h
hash_from h (c ∷ s) = hash_from ((h * 32 + h + sign_extend c) % 2 ^ 64) s

unfoldable pub hu_hash_string : Bytes → ℕ
unfolding hash_from
hu_hash_string s = hash_from 5381 s
