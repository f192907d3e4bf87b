-- ===== src/ListUtils/Laws.antt =====
-- What an object that was inserted in a list (libs/LSO_LIB/list_utils.c) can be found and removed by.
use lso_baldini.Common.{
  ℕ, ◌+◌, ◌^◌, ◌<◌, ◌≡◌, refl, List, [], ◌∷◌, ◌++◌, Bool-cases, inl, inr, Option, some, get_elem?,
  ℤ, pos, is_pos, length, arith,
}
use lso_baldini.ListUtils.{
  LinkedList, lu_navigate, lu_insert, lu_remove, without_head, index_from, lu_index_of_obj, lu_get,
  lu_is_empty,
}

-- `len` is the number of nodes.
abbrev pub IsCounted : {A : Type 0} → LinkedList A → Type 0
IsCounted l = (length l.items ≡ l.len) × (l.len + 1 < 2 ^ 64)

module _ {A : Type 0} (compare : A → A → ℤ) (compare_refl : (a : A) → compare a a ≡ pos 0) where
  abbrev insert : A → List A → List A
  insert x xs = let (passed, rest) = lu_navigate compare x xs in passed ++ (x ∷ rest)

  abbrev remove : A → List A → Option (List A)
  remove x xs = let (passed, rest) = lu_navigate compare x xs in without_head compare x passed rest

  remove-insert : (x : A) (xs : List A) → remove x (insert x xs) ≡ some xs
  unfolding lu_navigate
  remove-insert x [] = ground (arith, compare_refl x)
  remove-insert x (y ∷ ys) = ground (arith, compare_refl x, remove-insert x ys)

  length-insert : (x : A) (xs : List A) → length (insert x xs) ≡ length xs + 1
  unfolding lu_navigate
  length-insert x [] = refl
  length-insert x (y ∷ ys) = ground (arith, length-insert x ys)

  -- The walk stops at the object that was inserted.
  index_from-insert :
      (x : A) (xs : List A) (res : ℕ)
      → (i : ℕ) × (index_from compare x (insert x xs) res ≡ pos (res + i))
        × (get_elem? (insert x xs) i ≡ some x)
        × (i < length xs + 1)
  unfolding index_from lu_navigate
  index_from-insert x [] res = (0, ground (arith, compare_refl x), ground arith, omega arith)
  index_from-insert x (y ∷ ys) res =
      let (i, index, got, bound) = index_from-insert x ys (res + 1) in
      elim (Bool-cases (is_pos (compare x y))) [
        | inl above ↦ (i + 1, ground (arith, index), ground (arith, got), omega (arith, bound))
        | inr below ↦ (0, ground (arith, compare_refl x), ground arith, omega arith)
      ]

  pub lu_insert-IsCounted :
      (l : LinkedList A) (x : A)
      → IsCounted l
      → length (lu_insert compare l x).items ≡ (lu_insert compare l x).len
  unfolding lu_insert
  lu_insert-IsCounted l x (counted, bound) = omega (arith, length-insert x l.items, counted, bound)

  -- In a list whose `len` is right and can grow, with a comparison that takes an object as equal to
  -- itself, the index that `lu_index_of_obj` gives of an object just inserted is the one at which
  -- `lu_get` returns it.
  pub lu_get-insert :
      (l : LinkedList A) (x : A)
      → IsCounted l
      → lu_get (lu_insert compare l x) (lu_index_of_obj compare (lu_insert compare l x) x) ≡ some x
  unfolding lu_insert lu_get lu_index_of_obj
  lu_get-insert l x (counted, bound) =
      let (i, index, got, below) = index_from-insert x l.items 0 in
      ground (arith, index, got, below, counted, bound)

  -- In a list whose `len` is right and can grow, with a comparison that takes an object as equal to
  -- itself, the removal of an object just inserted gives back the list as it was.
  pub lu_remove-insert :
      (l : LinkedList A) (x : A)
      → IsCounted l
      → lu_remove compare (lu_insert compare l x) x ≡ some l
  unfolding lu_insert lu_remove lu_is_empty
  lu_remove-insert l x (counted, bound) = ground (arith, remove-insert x l.items, counted, bound)
