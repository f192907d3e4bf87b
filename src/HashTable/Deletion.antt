-- ===== src/HashTable/Deletion.antt =====
-- `hu_remove` (libs/LSO_LIB/hash_utils.c) on the whole table.
use lso_baldini.Common.{
  ◌%◌, ◌≡◌, ap, ◌∙◌, sym, inl, inr, [], false, none, some, Bool-cases, Option-cases, is_zero, arith,
  get_or, length-set, get_or-set_self, set-set, set-get_or,
}
use lso_baldini.HashTable.Interface.{Key}
use lso_baldini.HashTable.Chain.{find, chain_remove-insert, chain_remove-get}
use lso_baldini.HashTable.Removal.{remove-IsSorted, find-remove_self, find-remove_ne}
use lso_baldini.HashTable.Laws.{
  IsValid, IsOrdered, value_of, hu_get_lem, no_items-get_or, hu_index-lt, hu_insert-IsValid,
  hu_get-eq-find, find_other, set-IsOrdered,
}
use lso_baldini.HashTable.{
  Chain, Table, hu_is_empty, hu_index, bucket, set_bucket, chain_insert, hu_insert, hu_get,
  chain_remove, update_list, hu_remove,
}

module _ {ℓ} {K V : Type ℓ} ⦃key : Key K⦄ where
  -- The test for an empty table changes no answer.
  pub hu_remove_lem :
      {t : Table K V} (k : K)
      → IsValid t
      → hu_remove t k ≡ update_list t k (chain_remove k (bucket t k))
  unfolding hu_remove
  hu_remove_lem {t} k v = elim (Bool-cases (hu_is_empty t)) [
    | inl e ↦ rw (e, no_items-get_or t.n_entries t.buckets (hu_index t k) v.allocated e)
    | inr e ↦ ground arith
  ]

  -- From a valid table, the removal by the key of what has just been inserted takes it out and gives
  -- back the table as it was.
  pub hu_remove-insert :
      {t : Table K V} (k : K) (v : V) → IsValid t → hu_remove (hu_insert t k v) k ≡ some ((k, v), t)
  unfolding hu_insert hu_index
  hu_remove-insert {t} k v h =
      let i = key.hash k % t.n_entries in
      rw (
        hu_remove_lem k (hu_insert-IsValid k v h),
        get_or-set_self t.buckets i (chain_insert k v (get_or t.buckets i [])) [] (hu_index-lt k h),
        chain_remove-insert k v (get_or t.buckets i []),
        set-set t.buckets i (chain_insert k v (get_or t.buckets i [])) (get_or t.buckets i []),
        set-get_or t.buckets i [],
      )

  module _ {t : Table K V} (k : K) {e : K × V} {t' : Table K V} (valid : IsValid t)
      (done : hu_remove t k ≡ some (e, t')) where
    -- A removal replaces the list of one bucket.
    pub hu_remove_parts :
        (c : Chain K V) × (chain_remove k (bucket t k) ≡ some (e, c)) × (t' ≡ set_bucket t k c)
    hu_remove_parts = elim (Option-cases (chain_remove k (bucket t k))) [
      | inl miss ↦ ground (arith, hu_remove_lem k valid)
      | inr ((x, c), hit) ↦
          (c, ground (arith, hu_remove_lem k valid), ground (arith, hu_remove_lem k valid))
    ]

    pub hu_remove-IsValid : IsValid t'
    hu_remove-IsValid =
        let (c, hit, same) = hu_remove_parts in
        rw same
          (record { some_entry = valid.some_entry; allocated = length-set _ _ _ ∙ valid.allocated })

    module _ (ordered : IsOrdered t) where
      -- A removal from a table whose buckets are sorted without two keys that compare as equal leaves
      -- such a table.
      pub hu_remove-IsOrdered : IsOrdered t'
      hu_remove-IsOrdered =
          let (c, hit, same) = hu_remove_parts in
          rw same
            (set-IsOrdered t.buckets _ _ ordered (remove-IsSorted k _ (ordered (hu_index t k)) hit))

      -- In a valid table with sorted buckets, a removal changes no lookup of a key that compares as
      -- different from the removed one.
      pub hu_get-remove_ne :
          (j : K) → is_zero (key.compare j e.0) ≡ false → hu_get t' j ≡ hu_get t j
      hu_get-remove_ne j n =
          let (c, hit, same) = hu_remove_parts in
          hu_get-eq-find j hu_remove-IsValid hu_remove-IsOrdered
          ∙ ap value_of (
              ap (λ (u : Table K V). find j (bucket u j)) same
              ∙ find_other t j k c valid (find-remove_ne j k _ n hit))
          ∙ sym (hu_get-eq-find j valid ordered)

      -- In a valid table with sorted buckets, after a removal by `k` of an item that is stored under `k`
      -- itself nothing is found under `k`.
      pub hu_get-remove_self : e.0 ≡ k → hu_get t' k ≡ none
      unfolding hu_index
      hu_get-remove_self stored =
          let (c, hit, same) = hu_remove_parts in
          let gone : find k c ≡ none =
            rw stored at (find-remove_self k _ (ordered (hu_index t k)) hit) in
          hu_get-eq-find k hu_remove-IsValid hu_remove-IsOrdered
          ∙ ap value_of (
              ap (λ (u : Table K V). find k (bucket u k)) same
              ∙ ap (find k) (get_or-set_self t.buckets _ c [] (hu_index-lt k valid))
              ∙ gone)

  -- What `hu_get` finds is what `hu_remove` takes out.
  pub hu_remove-get :
      {t : Table K V} (k : K) {v : V}
      → IsValid t
      → hu_get t k ≡ some v
      → (e : K × V) × (t' : Table K V) × (hu_remove t k ≡ some (e, t')) × (e.1 ≡ v)
  hu_remove-get {t} k {v} h found = elim (Option-cases (chain_remove k (bucket t k))) [
    | inl miss ↦ ground (arith, hu_get_lem k h, chain_remove-get k (bucket t k))
    | inr ((e, c), hit) ↦ (
      e,
      set_bucket t k c,
      hu_remove_lem k h ∙ ap (update_list t k) hit,
      ground (arith, hu_get_lem k h, chain_remove-get k (bucket t k)),
    )
  ]
