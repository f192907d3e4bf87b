-- ===== src/HashTable/Map.antt =====
-- The table (libs/LSO_LIB/hash_utils.c) as a map from keys to values.
use lso_baldini.Common.{◌≡◌, refl, false, none, some, is_zero}
use lso_baldini.HashTable.Chain.{IsFresh}
use lso_baldini.HashTable.Deletion.{
  hu_remove-IsValid, hu_remove-IsOrdered, hu_get-remove_self, hu_get-remove_ne,
}
use lso_baldini.HashTable.Interface.{Key}
use lso_baldini.HashTable.Laws.{
  IsValid, IsOrdered, hu_insert-IsValid, hu_insert-IsOrdered, hu_get-insert_self, hu_get-insert_ne,
}
use lso_baldini.HashTable.{Table, bucket, hu_insert, hu_get, hu_remove}

module _ {ℓ} {K V : Type ℓ} ⦃key : Key K⦄ where
  -- Into a valid table whose buckets are sorted without two keys that compare as equal, the insertion
  -- under a key that compares as different from all in its bucket gives such a table, in which the value
  -- is found under the key, and under a key that compares as different from it what was found before.
  pub hu_insert_refines :
      {t : Table K V} (j k : K) (v : V)
      → IsValid t
      → IsOrdered t
      → IsFresh k (bucket t k)
      → is_zero (key.compare j k) ≡ false
      → IsValid (hu_insert t k v)
        × IsOrdered (hu_insert t k v)
        × (hu_get (hu_insert t k v) k ≡ some v)
        × (hu_get (hu_insert t k v) j ≡ hu_get t j)
  hu_insert_refines {t} j k v h o f n = (
    hu_insert-IsValid k v h,
    hu_insert-IsOrdered t k v o f,
    hu_get-insert_self k v h,
    hu_get-insert_ne j k v h o f n,
  )

  -- From a valid table whose buckets are sorted without two keys that compare as equal, the removal by
  -- the key that an item is stored under leaves such a table, in which nothing is found under that key,
  -- and under a key that compares as different from it what was found before.
  pub hu_remove_refines :
      {t t' : Table K V} (j k : K) (v : V)
      → IsValid t
      → IsOrdered t
      → hu_remove t k ≡ some ((k, v), t')
      → is_zero (key.compare j k) ≡ false
      → IsValid t' × IsOrdered t' × (hu_get t' k ≡ none) × (hu_get t' j ≡ hu_get t j)
  hu_remove_refines j k v h o done n = (
    hu_remove-IsValid k h done,
    hu_remove-IsOrdered k h done o,
    hu_get-remove_self k h done o refl,
    hu_get-remove_ne k h done o j n,
  )
