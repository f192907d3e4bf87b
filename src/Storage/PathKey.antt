-- ===== src/Storage/PathKey.antt =====
-- The functions that `fu_init_file_storage` (libs/LSO_LIB/file_utils.c) gives to `hu_init`.
use lso_baldini.Common.{◌≡◌, ◌∙◌, sym, ap, pos, is_pos, is_neg, true}
use lso_baldini.CString.{Bytes, su_string_compare, hu_hash_string}
use lso_baldini.CString.Order.{
  su_string_compare_lem, prefix_compare_refl, prefix_compare_anti, prefix_compare_lt_trans,
}
use lso_baldini.HashTable.Interface.{Key}

pub compare_refl : (a : Bytes) → su_string_compare a a ≡ pos 0
compare_refl a = su_string_compare_lem a a ∙ prefix_compare_refl a

pub compare_anti : (a b : Bytes) → is_neg (su_string_compare a b) ≡ is_pos (su_string_compare b a)
compare_anti a b =
    rw (su_string_compare_lem a b, su_string_compare_lem b a) (prefix_compare_anti a b)

pub compare_lt_trans :
    (a b c : Bytes)
    → is_neg (su_string_compare a b) ≡ true
    → is_neg (su_string_compare b c) ≡ true
    → is_neg (su_string_compare a c) ≡ true
compare_lt_trans a b c h k = rw (su_string_compare_lem a c) (
    prefix_compare_lt_trans a b c (ap is_neg (sym (su_string_compare_lem a b)) ∙ h)
      (ap is_neg (sym (su_string_compare_lem b c)) ∙ k))

instance abbrev pub path_key : Key Bytes
path_key = record {
  hash = hu_hash_string;
  compare = su_string_compare;
  compare_refl = compare_refl;
  compare_anti = compare_anti;
  compare_lt_trans = compare_lt_trans;
}
