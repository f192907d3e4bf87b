-- ===== src/ListUtils.antt =====
-- The sorted linked list (libs/LSO_LIB/list_utils.c) in which the client keeps paths. `items` are the
-- objects from `head` on. Null arguments and printing are left out.
pub mod Laws
use lso_baldini.Common.{
  ℕ, zero, suc, ◌+◌, ◌-◌, ◌*◌, ◌%◌, ◌^◌, List, [], ◌∷◌, ◌++◌, Bool, Option, none, some, ◌==◌, leb,
  if◌then◌else◌, get_elem?, ℤ, pos, negsuc, minus_one, is_pos, is_zero, not,
}

pub record LinkedList (A : Type 0) : Type 0 where
  pub items : List A
  pub len : ℕ
  pub element_size : ℕ

-- `compare` and `free` are not null.
unfoldable pub lu_init_list : {A : Type 0} → ℕ → LinkedList A
lu_init_list element_size = record { items = []; len = 0; element_size = element_size }

module _ {A : Type 0} where
  unfoldable pub lu_is_empty : LinkedList A → Bool
  lu_is_empty l = l.len == 0

  -- `none` is the null pointer.
  unfoldable pub lu_get : LinkedList A → ℤ → Option A
  lu_get l (pos i) = if leb l.len i then none else get_elem? l.items i
  lu_get l (negsuc i) = none

  -- What is freed, and the list after it.
  unfoldable pub lu_free : LinkedList A → List A × LinkedList A
  unfolding lu_is_empty
  lu_free l = if lu_is_empty l then ([], l) else (l.items, record l { items = []; len = 0 })

module _ {A : Type 0} (compare : A → A → ℤ) where
  -- The nodes up to `prev`, and those from `curr` on.
  unfoldable pub lu_navigate : A → List A → List A × List A
  lu_navigate x [] = ([], [])
  lu_navigate x (y ∷ ys) =
      let (passed, rest) = lu_navigate x ys in
      if is_pos (compare x y) then (y ∷ passed, rest) else ([], y ∷ ys)

  unfoldable pub lu_insert : LinkedList A → A → LinkedList A
  unfolding lu_navigate
  lu_insert l x =
      let (passed, rest) = lu_navigate x l.items in
      record l { items = passed ++ (x ∷ rest); len = (l.len + 1) % 2 ^ 64 }

  -- What is left of the list: `none` if its head is not `x`.
  abbrev pub without_head : A → List A → List A → Option (List A)
  without_head x passed [] = none
  without_head x passed (y ∷ rest) =
      if not (is_zero (compare x y)) then none else some (passed ++ rest)

  -- `none` is the error return -1, with the list unchanged.
  unfoldable pub lu_remove : LinkedList A → A → Option (LinkedList A)
  unfolding lu_is_empty lu_navigate
  lu_remove l x =
      if lu_is_empty l
      then none
      else let (passed, rest) = lu_navigate x l.items in
        elim (without_head x passed rest) [
          | none ↦ none
          | some ys ↦ some (record l { items = ys; len = (l.len + 2 ^ 64 - 1) % 2 ^ 64 })
        ]

  -- `index_from x ys res` is the walk of `lu_index_of_obj` from the node of index `res`.
  unfoldable pub index_from : A → List A → ℕ → ℤ
  index_from x [] res = minus_one
  index_from x (y ∷ ys) res =
      let rest = index_from x ys (res + 1) in if is_pos (compare x y) then rest else pos res

  unfoldable pub lu_index_of_obj : LinkedList A → A → ℤ
  unfolding index_from
  lu_index_of_obj l x = index_from x l.items 0
