-- ===== src/HashTable.antt =====
-- The chained hash table (libs/LSO_LIB/hash_utils.c). The functions that `hu_init` is given are an
-- instance of `Key`. A bucket's linked list has one owner, so it is a list of its items;
-- `hu_navigate_list` splits it into the items passed, of which `prev` is the last, and those from
-- `curr` on. `free_data` and `free_key` are left to the caller, who gets the removed item.
pub mod Interface
pub mod Chain
pub mod Removal
pub mod Laws
pub mod Deletion
pub mod Totals
pub mod Map
use lso_baldini.Common.{
  ℕ, zero, suc, ◌%◌, ◌*◌, List, [], ◌∷◌, ◌++◌, Bool, true, false, Option, none, some, get_or, set,
  replicate, flatten, if◌then◌else◌, ltb, is_pos, is_zero,
}
use lso_baldini.Memory.{mu_calloc, Allocation, exits}
use Interface.{Key}

abbrev pub Chain {ℓ} : Type ℓ → Type ℓ → Type ℓ
Chain K V = List (K × V)

pub record Table {ℓ} (K V : Type ℓ) : Type ℓ where
  pub n_entries : ℕ
  pub buckets : List (Chain K V)

abbrev pub pointer_size : ℕ
pointer_size = 8

-- `none` when the allocation ends the process.
unfoldable pub hu_init {ℓ} : {K V : Type ℓ} → ℕ → Option (Table K V)
unfolding mu_calloc replicate
hu_init n = elim (mu_calloc (pointer_size * n)) [
  | exits ↦ none
  | _ ↦ some (record { n_entries = n; buckets = replicate n [] })
]

module _ {ℓ} {K V : Type ℓ} where
  -- The loop of `hu_is_empty`.
  unfoldable pub no_items : ℕ → List (Chain K V) → Bool
  no_items zero bs = true
  no_items (suc n) [] = true
  no_items (suc n) ([] ∷ bs) = no_items n bs
  no_items (suc n) ((_ ∷ _) ∷ bs) = false

  unfoldable pub hu_is_empty : Table K V → Bool
  unfolding no_items
  hu_is_empty t = no_items t.n_entries t.buckets

  -- The items in the order of `hu_foreach`.
  unfoldable pub hu_foreach : Table K V → Chain K V
  hu_foreach t = flatten t.buckets

  -- The items that `hu_free` gives to `free_data` and `free_key`.
  unfoldable pub hu_free : Table K V → Chain K V
  unfolding hu_is_empty hu_foreach
  hu_free t = if hu_is_empty t then [] else hu_foreach t

  -- `curr->next`
  abbrev pub rest_of : Chain K V → Chain K V
  rest_of [] = []
  rest_of (e ∷ c) = c

module _ {ℓ} {K V : Type ℓ} ⦃key : Key K⦄ where
  unfoldable pub hu_index : Table K V → K → ℕ
  hu_index t k = key.hash k % t.n_entries

  unfoldable pub hu_navigate_list : K → Chain K V → Chain K V × Chain K V
  hu_navigate_list k [] = ([], [])
  hu_navigate_list k (e ∷ c) =
      let (passed, rest) = hu_navigate_list k c in
      if is_pos (key.compare k e.0) then (e ∷ passed, rest) else ([], e ∷ c)

  -- `*(table->table + hu_index(table, key))`
  abbrev pub bucket : Table K V → K → Chain K V
  bucket t k = get_or t.buckets (hu_index t k) []

  abbrev pub set_bucket : Table K V → K → Chain K V → Table K V
  set_bucket t k c = record t { buckets = set t.buckets (hu_index t k) c }

  -- A new item goes between `prev` and `curr`.
  unfoldable pub chain_insert : K → V → Chain K V → Chain K V
  unfolding hu_navigate_list
  chain_insert k v c = let (passed, rest) = hu_navigate_list k c in passed ++ ((k, v) ∷ rest)

  unfoldable pub hu_insert : Table K V → K → V → Table K V
  unfolding hu_index chain_insert
  hu_insert t k v = set_bucket t k (chain_insert k v (bucket t k))

  -- What `curr` points to, if its key compares as equal.
  abbrev pub hit : K → Chain K V → Option (K × V)
  hit k [] = none
  hit k (e ∷ c) = if is_zero (key.compare k e.0) then some e else none

  unfoldable pub chain_get : K → Chain K V → Option (K × V)
  unfolding hu_navigate_list
  chain_get k c = hit k (hu_navigate_list k c).1

  unfoldable pub hu_get : Table K V → K → Option V
  unfolding hu_index hu_is_empty chain_get
  hu_get t k =
      if hu_is_empty t
      then none
      else elim (chain_get k (bucket t k)) [ none ↦ none | some e ↦ some e.1 ]

  -- The item taken out and the list without it.
  unfoldable pub chain_remove : K → Chain K V → Option ((K × V) × Chain K V)
  unfolding hu_navigate_list
  chain_remove k c =
      let (passed, rest) = hu_navigate_list k c in
      elim (hit k rest) [ none ↦ none | some e ↦ some (e, passed ++ rest_of rest) ]

  abbrev pub update_list :
      Table K V → K → Option ((K × V) × Chain K V) → Option ((K × V) × Table K V)
  update_list t k none = none
  update_list t k (some (e, c)) = some (e, set_bucket t k c)

  -- `none` is the error return -1.
  unfoldable pub hu_remove : Table K V → K → Option ((K × V) × Table K V)
  unfolding hu_index hu_is_empty chain_remove
  hu_remove t k = if hu_is_empty t then none else update_list t k (chain_remove k (bucket t k))
