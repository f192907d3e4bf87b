-- ===== src/Tests/Tables.antt =====
-- The theorems on paths, messages and the hash table at concrete inputs.
use lso_baldini.CString.{Bytes, su_string_compare, hu_hash_string, hash_from, strncmp}
use lso_baldini.CString.Order.{IsPrefix, su_string_compare_zero}
use lso_baldini.Common.{
  ℕ, [], ◌∷◌, ◌≡◌, refl, some, none, pos, ◌↔◌, ◌⊎◌, ◌==◌, arith, zero, suc, ◌+◌, ◌*◌,
}
use lso_baldini.HashTable.{
  Table, hu_insert, hu_get, hu_remove, chain_remove, hu_index, hu_navigate_list, hu_is_empty,
  no_items,
}
use lso_baldini.HashTable.Laws.{IsValid, IsOrdered}
use lso_baldini.HashTable.Deletion.{hu_remove-insert}
use lso_baldini.HashTable.Map.{hu_insert_refines, hu_remove_refines}
use lso_baldini.Message.{sapi_message_len, op_of, len_of, creates, locks, message_parts}
use lso_baldini.Storage.PathKey.{path_key}

abbrev path_a : Bytes
path_a = 97 ∷ []

abbrev path_c : Bytes
path_c = 99 ∷ []

abbrev no_table : Table Bytes ℕ
no_table = record { n_entries = 2; buckets = [] ∷ [] ∷ [] }

no_table-IsValid : IsValid no_table
no_table-IsValid = record { some_entry = omega arith; allocated = refl }

no_table-IsOrdered : IsOrdered no_table
no_table-IsOrdered zero = tt
no_table-IsOrdered (suc zero) = tt
no_table-IsOrdered (suc (suc i)) = tt

abbrev table_c : Table Bytes ℕ
table_c = record { n_entries = 2; buckets = ((path_c, 5) ∷ []) ∷ [] ∷ [] }

table_c-IsValid : IsValid table_c
table_c-IsValid = record { some_entry = omega arith; allocated = refl }

table_c-IsOrdered : IsOrdered table_c
table_c-IsOrdered zero = (tt, tt)
table_c-IsOrdered (suc zero) = tt
table_c-IsOrdered (suc (suc i)) = tt

hu_insert_refines_example :
    IsValid (hu_insert table_c path_a 7)
    × IsOrdered (hu_insert table_c path_a 7)
    × (hu_get (hu_insert table_c path_a 7) path_a ≡ some 7)
    × (hu_get (hu_insert table_c path_a 7) path_c ≡ hu_get table_c path_c)
unfolding hu_index hu_hash_string hash_from su_string_compare strncmp
hu_insert_refines_example =
    hu_insert_refines path_c path_a 7 table_c-IsValid table_c-IsOrdered (refl, tt) refl

hu_remove-insert_example :
    hu_remove (hu_insert table_c path_a 7) path_a ≡ some ((path_a, 7), table_c)
hu_remove-insert_example = hu_remove-insert path_a 7 table_c-IsValid

hu_remove_refines_example :
    IsValid no_table
    × IsOrdered no_table
    × (hu_get no_table path_c ≡ none)
    × (hu_get no_table path_a ≡ hu_get table_c path_a)
unfolding hu_index hu_hash_string hash_from su_string_compare strncmp hu_remove chain_remove
    hu_navigate_list hu_is_empty no_items
hu_remove_refines_example =
    hu_remove_refines path_a path_c 5 table_c-IsValid table_c-IsOrdered refl refl

su_string_compare_zero_example :
    (su_string_compare path_a (97 ∷ 98 ∷ []) ≡ pos 0)
    ↔ (IsPrefix path_a (97 ∷ 98 ∷ []) ⊎ IsPrefix (97 ∷ 98 ∷ []) path_a)
su_string_compare_zero_example = su_string_compare_zero path_a (97 ∷ 98 ∷ [])

message_parts_example :
    (op_of (sapi_message_len (1 + 0 * 2) (2 * 4) 300) ≡ 2 * 4)
    × (len_of (sapi_message_len (1 + 0 * 2) (2 * 4) 300) ≡ 300)
    × (creates (sapi_message_len (1 + 0 * 2) (2 * 4) 300) ≡ (1 == 1))
    × (locks (sapi_message_len (1 + 0 * 2) (2 * 4) 300) ≡ (0 == 1))
message_parts_example =
    message_parts 1 0 2 300 (omega arith) (omega arith) (omega arith) (omega arith)
