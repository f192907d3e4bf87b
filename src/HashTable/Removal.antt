-- ===== src/HashTable/Removal.antt =====
-- What `hu_remove` (libs/LSO_LIB/hash_utils.c) leaves of a bucket's list.
use lso_baldini.Common.{
  ◌≡◌, refl, ap, ◌∙◌, sym, inl, inr, [], ◌∷◌, ◌++◌, true, false, Option, none, some, Option-cases,
  is_zero, is_neg, pos_not_zero, arith,
}
use lso_baldini.HashTable.Interface.{Key}
use lso_baldini.HashTable.Chain.{find, find_below, IsBelow, IsSorted}
use lso_baldini.HashTable.{Chain, hu_navigate_list, chain_insert, chain_remove, hit, rest_of}

module _ {ℓ} {K V : Type ℓ} ⦃key : Key K⦄ where
  hu_navigate_list-append :
      (k : K) (c : Chain K V) → (hu_navigate_list k c).0 ++ (hu_navigate_list k c).1 ≡ c
  unfolding hu_navigate_list
  hu_navigate_list-append k [] = refl
  hu_navigate_list-append k (e ∷ c) = ground (arith, hu_navigate_list-append k c)

  hit-some : (k : K) (c : Chain K V) {e : K × V} → hit k c ≡ some e → c ≡ e ∷ rest_of c
  hit-some k [] h = cc
  hit-some k (x ∷ c) h = ground arith

  -- The list is the item taken out and what stays on either side of it.
  pub chain_remove_parts :
      (k : K) (c : Chain K V) {e : K × V} {d : Chain K V}
      → chain_remove k c ≡ some (e, d)
      → (a : Chain K V) × (b : Chain K V) × (c ≡ a ++ (e ∷ b)) × (d ≡ a ++ b)
  unfolding chain_remove
  chain_remove_parts k c {e} {d} h =
      let r = (hu_navigate_list k c).1 in
      elim (Option-cases (hit k r)) [
        | inl miss ↦ ground arith
        | inr (x, found) ↦ (
          (hu_navigate_list k c).0,
          rest_of r,
          sym (hu_navigate_list-append k c)
              ∙ ap (λ z. (hu_navigate_list k c).0 ++ z)
                  (hit-some k r found ∙ ap (λ z. z ∷ rest_of r) (ground arith)),
          ground arith,
        )
      ]

  -- An insertion puts the item between the two parts of the list.
  pub chain_insert_parts :
      (k : K) (v : V) (c : Chain K V)
      → (a : Chain K V) × (b : Chain K V) × (c ≡ a ++ b) × (chain_insert k v c ≡ a ++ ((k, v) ∷ b))
  unfolding chain_insert
  chain_insert_parts k v c =
      ((hu_navigate_list k c).0, (hu_navigate_list k c).1, sym (hu_navigate_list-append k c), refl)

  -- What a search finds first.
  abbrev or_find : Option (K × V) → Option (K × V) → Option (K × V)
  or_find none y = y
  or_find (some e) y = some e

  find-append : (j : K) (a b : Chain K V) → find j (a ++ b) ≡ or_find (find j a) (find j b)
  find-append j [] b = refl
  find-append j (e ∷ a) b = ground (arith, find-append j a b)

  IsBelow-middle :
      (j : K) (a : Chain K V) (e : K × V) (b : Chain K V)
      → IsBelow j (a ++ (e ∷ b))
      → IsBelow j (a ++ b) × (is_neg (key.compare j e.0) ≡ true)
  IsBelow-middle j [] e b h = (h.1, h.0)
  IsBelow-middle j (x ∷ a) e b h = ground (arith, IsBelow-middle j a e b h.1)

  middle-IsSorted :
      (a : Chain K V) (e : K × V) (b : Chain K V) → IsSorted (a ++ (e ∷ b)) → IsSorted (a ++ b)
  middle-IsSorted [] e b s = s.1
  middle-IsSorted (x ∷ a) e b s = ((IsBelow-middle x.0 a e b s.0).0, middle-IsSorted a e b s.1)

  find-middle_self :
      (a : Chain K V) (e : K × V) (b : Chain K V)
      → IsSorted (a ++ (e ∷ b))
      → find e.0 (a ++ b) ≡ none
  find-middle_self [] e b s = find_below e.0 b s.0
  find-middle_self (x ∷ a) e b s =
      let h = (IsBelow-middle x.0 a e b s.0).1 in
      rw ((pos_not_zero (key.compare e.0 x.0) (sym (key.compare_anti x.0 e.0) ∙ h)).0)
        (find-middle_self a e b s.1)

  find-middle_ne :
      (j : K) (a : Chain K V) (e : K × V) (b : Chain K V)
      → is_zero (key.compare j e.0) ≡ false
      → find j (a ++ b) ≡ find j (a ++ (e ∷ b))
  find-middle_ne j a e b n = rw (find-append j a b, find-append j a (e ∷ b), n)

  pub remove-IsSorted :
      (k : K) (c : Chain K V) {e : K × V} {d : Chain K V}
      → IsSorted c
      → chain_remove k c ≡ some (e, d)
      → IsSorted d
  remove-IsSorted k c s h =
      let (a, b, p, q) = chain_remove_parts k c h in rw q (middle-IsSorted a _ b (rw p at s))

  -- In a sorted list no other item has the removed item's key.
  pub find-remove_self :
      (k : K) (c : Chain K V) {e : K × V} {d : Chain K V}
      → IsSorted c
      → chain_remove k c ≡ some (e, d)
      → find e.0 d ≡ none
  find-remove_self k c s h =
      let (a, b, p, q) = chain_remove_parts k c h in rw q (find-middle_self a _ b (rw p at s))

  -- A search for a key that compares as different from the removed one finds what it found.
  pub find-remove_ne :
      (j k : K) (c : Chain K V) {e : K × V} {d : Chain K V}
      → is_zero (key.compare j e.0) ≡ false
      → chain_remove k c ≡ some (e, d)
      → find j d ≡ find j c
  find-remove_ne j k c {e} n h =
      let (a, b, p, q) = chain_remove_parts k c h in
      ap (find j) q ∙ find-middle_ne j a e b n ∙ sym (ap (find j) p)
