-- ===== src/HashTable/Totals.antt =====
-- Sums over the items of the table, which `hu_insert` and `hu_remove` (libs/LSO_LIB/hash_utils.c)
-- change by the one item.
use lso_baldini.Common.{
  ℕ, zero, suc, ◌+◌, ◌<◌, ◌≡◌, ap, ◌∙◌, List, [], ◌∷◌, ◌++◌, flatten, length, get_or, set, arith,
  some,
}
use lso_baldini.HashTable.Interface.{Key}
use lso_baldini.HashTable.Removal.{chain_remove_parts, chain_insert_parts}
use lso_baldini.HashTable.Laws.{IsValid, hu_index-lt}
use lso_baldini.HashTable.Deletion.{hu_remove_parts}
use lso_baldini.HashTable.{Table, hu_foreach, hu_index, bucket, chain_insert, hu_insert, hu_remove}

module _ {ℓ} {A : Type ℓ} where
  abbrev pub sum_by : (A → ℕ) → List A → ℕ
  sum_by w [] = 0
  sum_by w (x ∷ xs) = w x + sum_by w xs

  pub sum_by-append : (w : A → ℕ) (xs ys : List A) → sum_by w (xs ++ ys) ≡ sum_by w xs + sum_by w ys
  sum_by-append w [] ys = omega arith
  sum_by-append w (x ∷ xs) ys = omega (arith, sum_by-append w xs ys)

  sum_by-set :
      (w : A → ℕ) (bs : List (List A)) (i : ℕ) (c : List A)
      → i < length bs
      → sum_by w (flatten (set bs i c)) + sum_by w (get_or bs i [])
        ≡ sum_by w (flatten bs) + sum_by w c
  unfolding flatten
  sum_by-set w [] i c h = absurd (omega arith)
  sum_by-set w (b ∷ bs) zero c h = rw (sum_by-append, sum_by-append) (omega arith)
  sum_by-set w (b ∷ bs) (suc i) c h =
      rw (sum_by-append, sum_by-append) (omega (arith, sum_by-set w bs i c))

module _ {ℓ} {K V : Type ℓ} ⦃key : Key K⦄ (w : K × V → ℕ) where
  pub sum_by-insert :
      {t : Table K V} (k : K) (v : V)
      → IsValid t
      → sum_by w (hu_foreach (hu_insert t k v)) ≡ sum_by w (hu_foreach t) + w (k, v)
  unfolding hu_insert hu_foreach
  sum_by-insert {t} k v h =
      let c = bucket t k in
      let (a, b, p, q) = chain_insert_parts k v c in
      let new : sum_by w (chain_insert k v c) ≡ sum_by w a + (w (k, v) + sum_by w b) =
        ap (sum_by w) q ∙ sum_by-append w a ((k, v) ∷ b) in
      let old : sum_by w c ≡ sum_by w a + sum_by w b = ap (sum_by w) p ∙ sum_by-append w a b in
      omega (
        arith,
        sum_by-set w t.buckets (hu_index t k) (chain_insert k v c) (hu_index-lt k h),
        new,
        old,
      )

  pub sum_by-remove :
      {t : Table K V} (k : K) {e : K × V} {t' : Table K V}
      → IsValid t
      → hu_remove t k ≡ some (e, t')
      → sum_by w (hu_foreach t') + w e ≡ sum_by w (hu_foreach t)
  unfolding hu_foreach
  sum_by-remove {t} k {e} {t'} h d =
      let (c, hit, same) = hu_remove_parts k h d in
      let (a, b, p, q) = chain_remove_parts k (bucket t k) hit in
      let new : sum_by w c ≡ sum_by w a + sum_by w b = ap (sum_by w) q ∙ sum_by-append w a b in
      let old : sum_by w (bucket t k) ≡ sum_by w a + (w e + sum_by w b) =
        ap (sum_by w) p ∙ sum_by-append w a (e ∷ b) in
      let after : sum_by w (flatten t'.buckets)
          ≡ sum_by w (flatten (set t.buckets (hu_index t k) c)) =
        ap (λ (u : Table K V). sum_by w (flatten u.buckets)) same in
      omega (arith, sum_by-set w t.buckets (hu_index t k) c (hu_index-lt k h), new, old, after)
