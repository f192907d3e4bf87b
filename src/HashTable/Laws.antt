-- ===== src/HashTable/Laws.antt =====
-- The hash table (libs/LSO_LIB/hash_utils.c) as a map: what `hu_get` sees after `hu_insert` and
-- `hu_remove`.
use lso_baldini.Common.{
  ℕ, zero, suc, ◌<◌, ◌≡◌, refl, ap, ◌∙◌, sym, inl, inr, List, [], ◌∷◌, true, false, Option, none,
  some, Bool-cases, is_zero, arith, length, length-set, get_or, set, get_or-set_self, get_or-set_ne,
  ==_iff, ◌==◌,
}
use lso_baldini.HashTable.Interface.{Key}
use lso_baldini.HashTable.Chain.{
  chain_get-insert_self, find, IsSorted, IsFresh, chain_get-eq-find, insert-IsSorted,
  find-insert_ne,
}
use lso_baldini.HashTable.{
  Chain, Table, no_items, hu_is_empty, hu_index, bucket, set_bucket, chain_insert, hu_insert,
  chain_get, hu_get,
}

-- The bucket array has the recorded length, which is not zero.
pub record IsValid {ℓ} {K V : Type ℓ} (t : Table K V) : Type 0 where
  pub some_entry : 0 < t.n_entries
  pub allocated : length t.buckets ≡ t.n_entries

module _ {ℓ} {K V : Type ℓ} where
  pub no_items-get_or :
      (n : ℕ) (bs : List (Chain K V)) (i : ℕ)
      → length bs ≡ n
      → no_items n bs ≡ true
      → get_or bs i [] ≡ []
  unfolding no_items
  no_items-get_or zero [] i e h = refl
  no_items-get_or zero (c ∷ bs) i e h = absurd (omega arith)
  no_items-get_or (suc n) [] i e h = refl
  no_items-get_or (suc n) ([] ∷ bs) zero e h = refl
  no_items-get_or (suc n) ([] ∷ bs) (suc i) e h = no_items-get_or n bs i (omega arith) h
  no_items-get_or (suc n) ((x ∷ c) ∷ bs) i e h = cc

  abbrev pub value_of : Option (K × V) → Option V
  value_of none = none
  value_of (some e) = some e.1

module _ {ℓ} {K V : Type ℓ} ⦃key : Key K⦄ where
  pub hu_index-lt : {t : Table K V} (k : K) → IsValid t → hu_index t k < length t.buckets
  unfolding hu_index
  hu_index-lt k v = grind arith

  -- The test for an empty table changes no answer.
  pub hu_get_lem :
      {t : Table K V} (k : K) → IsValid t → hu_get t k ≡ value_of (chain_get k (bucket t k))
  unfolding hu_get
  hu_get_lem {t} k v = elim (Bool-cases (hu_is_empty t)) [
    | inl e ↦ rw (e, no_items-get_or t.n_entries t.buckets (hu_index t k) v.allocated e)
    | inr e ↦ ground arith
  ]

  pub hu_insert-IsValid : {t : Table K V} (k : K) (v : V) → IsValid t → IsValid (hu_insert t k v)
  unfolding hu_insert
  hu_insert-IsValid k v h = record {
    some_entry = h.some_entry;
    allocated = length-set _ _ _ ∙ h.allocated;
  }

  bucket-insert_self :
      {t : Table K V} (k : K) (v : V)
      → IsValid t
      → bucket (hu_insert t k v) k ≡ chain_insert k v (bucket t k)
  unfolding hu_insert
  bucket-insert_self {t} k v h = get_or-set_self t.buckets _ _ [] (hu_index-lt k h)

  -- In a valid table a value is found under the key that it has just been inserted with.
  pub hu_get-insert_self :
      {t : Table K V} (k : K) (v : V) → IsValid t → hu_get (hu_insert t k v) k ≡ some v
  hu_get-insert_self k v h =
      rw (
        hu_get_lem k (hu_insert-IsValid k v h),
        bucket-insert_self k v h,
        chain_get-insert_self k v,
      )

  -- Every bucket is sorted without two keys that compare as equal.
  abbrev pub IsOrdered : Table K V → Type 0
  IsOrdered t = (i : ℕ) → IsSorted (get_or t.buckets i [])

  -- A search in a table of which the bucket of `k` was replaced by one that answers alike.
  pub find_other :
      (t : Table K V) (j k : K) (c : Chain K V)
      → IsValid t
      → find j c ≡ find j (bucket t k)
      → find j (bucket (set_bucket t k c) j) ≡ find j (bucket t j)
  unfolding hu_index
  find_other t j k c h same = elim (Bool-cases (hu_index t k == hu_index t j)) [
    | inl e ↦
        rw (← (==_iff _ _).0 e)
          (ap (find j) (get_or-set_self t.buckets _ c [] (hu_index-lt k h)) ∙ same)
    | inr n ↦ ap (find j) (get_or-set_ne t.buckets _ _ c [] (λ e. cc ((==_iff _ _).1 e)))
  ]

  pub set-IsOrdered :
      (bs : List (Chain K V)) (i : ℕ) (c : Chain K V)
      → ((j : ℕ) → IsSorted (get_or bs j []))
      → IsSorted c
      → (j : ℕ) → IsSorted (get_or (set bs i c) j [])
  set-IsOrdered [] i c o s j = o j
  set-IsOrdered (x ∷ bs) zero c o s zero = s
  set-IsOrdered (x ∷ bs) zero c o s (suc j) = o (suc j)
  set-IsOrdered (x ∷ bs) (suc i) c o s zero = o zero
  set-IsOrdered (x ∷ bs) (suc i) c o s (suc j) = set-IsOrdered bs i c (λ n. o (suc n)) s j

  -- Into a table whose buckets are sorted without two keys that compare as equal, the insertion under
  -- a key that compares as different from all in its bucket gives such a table.
  pub hu_insert-IsOrdered :
      (t : Table K V) (k : K) (v : V)
      → IsOrdered t
      → IsFresh k (bucket t k)
      → IsOrdered (hu_insert t k v)
  unfolding hu_insert
  hu_insert-IsOrdered t k v o f =
      set-IsOrdered t.buckets _ _ o (insert-IsSorted k v _ (o (hu_index t k)) f)

  pub hu_get-eq-find :
      {t : Table K V} (k : K)
      → IsValid t
      → IsOrdered t
      → hu_get t k ≡ value_of (find k (bucket t k))
  hu_get-eq-find {t} k v o = hu_get_lem k v ∙ ap value_of (chain_get-eq-find k _ (o (hu_index t k)))

  -- In a valid table with sorted buckets, an insertion under a key that compares as different from all
  -- in its bucket changes no lookup of a key that compares as different from it.
  pub hu_get-insert_ne :
      {t : Table K V} (j k : K) (v : V)
      → IsValid t
      → IsOrdered t
      → IsFresh k (bucket t k)
      → is_zero (key.compare j k) ≡ false
      → hu_get (hu_insert t k v) j ≡ hu_get t j
  unfolding hu_insert
  hu_get-insert_ne {t} j k v h o f n =
      hu_get-eq-find j (hu_insert-IsValid k v h) (hu_insert-IsOrdered t k v o f)
      ∙ ap value_of (find_other t j k (chain_insert k v (bucket t k)) h (find-insert_ne j k v _ n))
      ∙ sym (hu_get-eq-find j h o)
