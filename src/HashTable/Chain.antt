-- ===== src/HashTable/Chain.antt =====
-- The sorted list of one bucket: `hu_navigate_list` and what `hu_insert`, `hu_get` and `hu_remove`
-- (libs/LSO_LIB/hash_utils.c) do with it.
use lso_baldini.Common.{
  ◌≡◌, refl, ◌∙◌, inl, inr, [], ◌∷◌, true, false, Option, none, some, if◌then◌else◌, Bool-cases,
  is_pos, is_zero, is_neg, neg_not_pos, pos_not_zero, le_nonzero, arith,
}
use lso_baldini.HashTable.Interface.{Key}
use lso_baldini.HashTable.{Chain, chain_insert, chain_get, chain_remove, hit}

module _ {ℓ} {K V : Type ℓ} ⦃key : Key K⦄ where
  -- The walk of `hu_navigate_list`, one item at a time.
  pub chain_get_cons :
      (k : K) (e : K × V) (c : Chain K V)
      → chain_get k (e ∷ c) ≡ (if is_pos (key.compare k e.0) then chain_get k c else hit k (e ∷ c))
  unfolding chain_get
  chain_get_cons k e c = ground arith

  pub chain_insert_cons :
      (k : K) (v : V) (e : K × V) (c : Chain K V)
      → chain_insert k v (e ∷ c)
        ≡ (if is_pos (key.compare k e.0) then e ∷ chain_insert k v c else (k, v) ∷ (e ∷ c))
  unfolding chain_insert
  chain_insert_cons k v e c = ground arith

  abbrev pub put_back : K × V → Option ((K × V) × Chain K V) → Option ((K × V) × Chain K V)
  put_back e none = none
  put_back e (some (x, c)) = some (x, e ∷ c)

  pub chain_remove_cons :
      (k : K) (e : K × V) (c : Chain K V)
      → chain_remove k (e ∷ c) ≡ (
          if is_pos (key.compare k e.0)
          then put_back e (chain_remove k c)
          else if is_zero (key.compare k e.0)
          then some (e, c)
          else none)
  unfolding chain_remove
  chain_remove_cons k e c = ground arith

  -- An item that has just been inserted is found, and removing it restores the list.
  pub chain_get-insert_self :
      (k : K) (v : V) (c : Chain K V) → chain_get k (chain_insert k v c) ≡ some (k, v)
  unfolding chain_get chain_insert
  chain_get-insert_self k v [] = ground (arith, key.compare_refl k)
  chain_get-insert_self k v (e ∷ c) =
      ground (arith, key.compare_refl k, chain_get-insert_self k v c)

  -- A linear search, without the order.
  abbrev pub find : K → Chain K V → Option (K × V)
  find k [] = none
  find k (e ∷ c) = if is_zero (key.compare k e.0) then some e else find k c

  abbrev pub IsBelow : K → Chain K V → Type 0
  IsBelow k [] = Unit
  IsBelow k (e ∷ c) = (is_neg (key.compare k e.0) ≡ true) × IsBelow k c

  -- Each key is below all that follow it.
  abbrev pub IsSorted : Chain K V → Type 0
  IsSorted [] = Unit
  IsSorted (e ∷ c) = IsBelow e.0 c × IsSorted c

  -- No key of the list compares as equal to `k`.
  abbrev pub IsFresh : K → Chain K V → Type 0
  IsFresh k [] = Unit
  IsFresh k (e ∷ c) = (is_zero (key.compare k e.0) ≡ false) × IsFresh k c

  IsBelow-trans :
      (j k : K) (c : Chain K V) → is_neg (key.compare j k) ≡ true → IsBelow k c → IsBelow j c
  IsBelow-trans j k [] h b = tt
  IsBelow-trans j k (e ∷ c) h b = (key.compare_lt_trans j k e.0 h b.0, IsBelow-trans j k c h b.1)

  pub find_below : (k : K) (c : Chain K V) → IsBelow k c → find k c ≡ none
  find_below k [] b = refl
  find_below k (e ∷ c) b = rw ((neg_not_pos _ b.0).1) (find_below k c b.1)

  -- In a sorted list the walk finds what the linear search finds.
  pub chain_get-eq-find : (k : K) (c : Chain K V) → IsSorted c → chain_get k c ≡ find k c
  chain_get-eq-find k [] s = unfold chain_get in refl
  chain_get-eq-find k (e ∷ c) s = rw chain_get_cons (
      ground (
        arith,
        chain_get-eq-find k c s.1,
        pos_not_zero (key.compare k e.0),
        le_nonzero (key.compare k e.0),
        λ (h : is_neg (key.compare k e.0) ≡ true). find_below k c (IsBelow-trans k e.0 c h s.0),
      ))

  insert-IsBelow :
      (j k : K) (v : V) (c : Chain K V)
      → is_neg (key.compare j k) ≡ true
      → IsBelow j c
      → IsBelow j (chain_insert k v c)
  insert-IsBelow j k v [] h b = unfold chain_insert in (h, tt)
  insert-IsBelow j k v (e ∷ c) h b =
      rw chain_insert_cons (ground (arith, insert-IsBelow j k v c h b.1))

  pub insert-IsSorted :
      (k : K) (v : V) (c : Chain K V) → IsSorted c → IsFresh k c → IsSorted (chain_insert k v c)
  insert-IsSorted k v [] s f = unfold chain_insert in (tt, tt)
  insert-IsSorted k v (e ∷ c) s f = elim (Bool-cases (is_pos (key.compare k e.0))) [
    | inl above ↦
        rw (chain_insert_cons, above)
          (
            insert-IsBelow e.0 k v c (key.compare_anti e.0 k ∙ above) s.0,
            insert-IsSorted k v c s.1 f.1,
          )
    | inr below ↦
        let h = le_nonzero _ below f.0 in
        rw (chain_insert_cons, below) ((h, IsBelow-trans k e.0 c h s.0), s)
  ]

  -- The walk of a key that compares as different from `k` does not see the new item.
  pub find-insert_ne :
      (j k : K) (v : V) (c : Chain K V)
      → is_zero (key.compare j k) ≡ false
      → find j (chain_insert k v c) ≡ find j c
  find-insert_ne j k v [] h = unfold chain_insert in rw h
  find-insert_ne j k v (e ∷ c) h = rw chain_insert_cons (ground (arith, find-insert_ne j k v c h))

  pub chain_remove-insert :
      (k : K) (v : V) (c : Chain K V) → chain_remove k (chain_insert k v c) ≡ some ((k, v), c)
  unfolding chain_remove chain_insert
  chain_remove-insert k v [] = ground (arith, key.compare_refl k)
  chain_remove-insert k v (e ∷ c) = ground (arith, key.compare_refl k, chain_remove-insert k v c)

  -- `chain_remove` takes out the item that `chain_get` finds.
  abbrev pub removed : Option ((K × V) × Chain K V) → Option (K × V)
  removed none = none
  removed (some (e, c)) = some e

  pub chain_remove-get : (k : K) (c : Chain K V) → removed (chain_remove k c) ≡ chain_get k c
  unfolding chain_remove chain_get
  chain_remove-get k c = ground arith
