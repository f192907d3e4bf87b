-- ===== src/Storage/Eviction/Choice.antt =====
-- When `fu_evict_files` (libs/LSO_LIB/file_utils.c) finds files to evict.
use lso_baldini.Arr.{Arr, au_init_arr, au_insert, au_is_full, no_arr}
use lso_baldini.Common.{
  ℕ, zero, suc, ◌+◌, ◌-◌, ◌*◌, ◌≤◌, ◌<◌, ◌≡◌, refl, ap, ◌∙◌, List, [], ◌∷◌, ◌++◌, if◌then◌else◌,
  ltb, ◌==◌, length, length-append, map, arith, is_pos, Bool-cases, inl, inr, Option-cases, sym,
  true, false, ◌⊎◌, le_or_gt,
}
use lso_baldini.CString.{Bytes}
use lso_baldini.HashTable.{Chain, hu_foreach}
use lso_baldini.HashTable.Totals.{sum_by}
use lso_baldini.Memory.{max_request, mu_calloc}
use lso_baldini.Run.{ret}
use lso_baldini.Storage.Eviction.{
  Loaded, fu_evict_compare, sort_insert, qsort, load_all, insert_all, still_needed, fu_evict_files,
}
use lso_baldini.Storage.Invariant.{IsValid, live, len_at, count_of}
use lso_baldini.Storage.{Heap, Storage}

abbrev pub total : List Loaded → ℕ
total xs = sum_by (λ (x : Loaded). x.1.data_len) xs

still_needed_lem : (bytes : ℕ) (xs : List Loaded) → still_needed bytes xs ≡ bytes - total xs
unfolding still_needed
still_needed_lem bytes [] = omega arith
still_needed_lem bytes (x ∷ xs) = ground (arith, still_needed_lem (bytes - x.1.data_len) xs)

sum_by-sort_insert :
    (w : Loaded → ℕ) (x : Loaded) (xs : List Loaded)
    → sum_by w (sort_insert x xs) ≡ w x + sum_by w xs
unfolding sort_insert
sum_by-sort_insert w x [] = refl
sum_by-sort_insert w x (y ∷ ys) = elim (Bool-cases (is_pos (fu_evict_compare x.1 y.1))) [
  | inl later ↦ rw later (omega (arith, sum_by-sort_insert w x ys))
  | inr here ↦ rw here refl
]

-- Sorting changes no sum.
sum_by-qsort : (w : Loaded → ℕ) (xs : List Loaded) → sum_by w (qsort xs) ≡ sum_by w xs
unfolding qsort
sum_by-qsort w [] = refl
sum_by-qsort w (x ∷ xs) = omega (arith, sum_by-sort_insert w x (qsort xs), sum_by-qsort w xs)

sum_by-map :
    {A B : Type 0} (w : B → ℕ) (g : A → B) (xs : List A)
    → sum_by w (map g xs) ≡ sum_by (λ x. w (g x)) xs
sum_by-map w g [] = refl
sum_by-map w g (x ∷ xs) = omega (arith, sum_by-map w g xs)

append_nil : (xs : List ℕ) → xs ++ [] ≡ xs
append_nil [] = refl
append_nil (x ∷ xs) = ap (λ ys. x ∷ ys) (append_nil xs)

append_cons : (xs : List ℕ) (y : ℕ) (zs : List ℕ) → (xs ++ (y ∷ [])) ++ zs ≡ xs ++ (y ∷ zs)
append_cons [] y zs = refl
append_cons (x ∷ xs) y zs = ap (λ ys. x ∷ ys) (append_cons xs y zs)

au_insert_room :
    (a : Arr ℕ) (p : ℕ)
    → length a.elements < a.len
    → (au_insert a p).0 ≡ record a { elements = a.elements ++ (p ∷ []); is_sorted = false }
unfolding au_insert au_is_full
au_insert_room a p room = ground (arith, room)

-- The array has room for all files of the table.
insert_all-elements :
    (a : Arr ℕ) (c : Chain Bytes ℕ)
    → length a.elements + length c ≤ a.len
    → (insert_all a c).elements ≡ a.elements ++ map (λ e. e.1) c
unfolding insert_all
insert_all-elements a [] room = sym (append_nil a.elements)
insert_all-elements a (e ∷ c) room =
    let next : Arr ℕ = record a { elements = a.elements ++ (e.1 ∷ []); is_sorted = false } in
    ap (λ b. (insert_all b c).elements) (au_insert_room a e.1 (omega (arith, room)))
    ∙ insert_all-elements next c (omega (arith, room, length-append a.elements (e.1 ∷ [])))
    ∙ append_cons a.elements e.1 (map (λ x. x.1) c)

load_all-total :
    (h : Heap) (c : Chain Bytes ℕ)
    → ((p : ℕ) → count_of p c ≤ live (h p))
    → (xs : List Loaded) × (load_all h (map (λ e. e.1) c) ≡ ret xs)
      × (total xs ≡ sum_by (λ e. len_at (h e.1)) c)
      × (map (λ (x : Loaded). x.0) xs ≡ map (λ e. e.1) c)
unfolding load_all
load_all-total h [] here = ([], refl, refl, refl)
load_all-total h (e ∷ c) here = elim (Option-cases (h e.1)) [
  | inl gone ↦ absurd (ground (arith, here e.1, gone))
  | inr (f, stored) ↦
      let (xs, loaded, same, ps) = load_all-total h c (λ p. omega (arith, here p)) in
      (
        (e.1, f) ∷ xs,
        ground (arith, stored, loaded),
        ground (arith, stored, same),
        ap (λ qs. e.1 ∷ qs) ps,
      )
]

init_room :
    (n : ℕ)
    → n * 8 ≤ max_request
    → (a : Arr ℕ) × (au_init_arr n 8 ≡ ret a) × (a.len ≡ n) × (a.elements ≡ [])
unfolding au_init_arr mu_calloc
init_room zero small = (no_arr, refl, refl, refl)
init_room (suc n) small =
    (record { len = suc n; elements = []; is_sorted = true }, ground (arith, small), refl, refl)

length-sum : (c : Chain Bytes ℕ) → length c ≡ sum_by (λ e. 1) c
length-sum [] = refl
length-sum (e ∷ c) = omega (arith, length-sum c)

au_insert-len : (a : Arr ℕ) (p : ℕ) → (au_insert a p).0.len ≡ a.len
unfolding au_insert
au_insert-len a p = elim (Bool-cases (au_is_full a)) [ inl e ↦ rw e refl | inr e ↦ rw e refl ]

insert_all-len : (a : Arr ℕ) (c : Chain Bytes ℕ) → (insert_all a c).len ≡ a.len
unfolding insert_all
insert_all-len a [] = refl
insert_all-len a (e ∷ c) = insert_all-len (au_insert a e.1).0 c ∙ au_insert-len a e.1

abbrev chosen : Arr ℕ → List Loaded → Arr ℕ
chosen a xs = record a { elements = map (λ (x : Loaded). x.0) (qsort xs) }

evict_files_run :
    (s : Storage) (bytes : ℕ) (a : Arr ℕ) (xs : List Loaded)
    → au_init_arr s.curr_files 8 ≡ ret a
    → load_all s.heap (insert_all a (hu_foreach s.table)).elements ≡ ret xs
    → fu_evict_files s bytes ≡ (
        if ltb 0 (bytes - total xs)
        then ret no_arr
        else ret (chosen (insert_all a (hu_foreach s.table)) xs))
unfolding fu_evict_files
evict_files_run s bytes a xs made loaded =
    ground
      (arith, made, loaded, still_needed_lem bytes (qsort xs), sum_by-qsort (λ x. x.1.data_len) xs)

-- 1 at the address itself.
abbrev pub here_at : ℕ → ℕ → ℕ
here_at p q = if q == p then 1 else 0

-- In a valid storage whose array of files, of 8 bytes for each, has at most 4 MiB, `fu_evict_files` fails
-- exactly where all files together have fewer bytes than are to be freed. Otherwise it gives an array as long as there
-- are files, in which each stored file stands exactly once, and nothing else.
pub fu_evict_files_lem :
    (s : Storage) (bytes : ℕ)
    → IsValid s
    → s.curr_files * 8 ≤ max_request
    → ((s.curr_bytes < bytes) × (fu_evict_files s bytes ≡ ret no_arr))
      ⊎ ((bytes ≤ s.curr_bytes)
          × (a : Arr ℕ) × (fu_evict_files s bytes ≡ ret a)
          × (a.len ≡ s.curr_files)
          × ((p : ℕ) → sum_by (here_at p) a.elements ≡ live (s.heap p)))
fu_evict_files_lem s bytes v small =
    let c = hu_foreach s.table in
    let (a, made, len, no_elements) = init_room s.curr_files small in
    let (xs, loaded, sum, ps) = load_all-total s.heap c (λ p. omega (arith, v.owned p)) in
    let room : length a.elements + length c ≤ a.len =
      omega (arith, ap (λ (ys : List ℕ). length ys) no_elements, length-sum c, v.counted, len) in
    let filled : (insert_all a c).elements ≡ map (λ e. e.1) c =
      insert_all-elements a c room ∙ ap (λ (ys : List ℕ). ys ++ map (λ e. e.1) c) no_elements in
    let run = evict_files_run s bytes a xs made (ap (load_all s.heap) filled ∙ loaded) in
    elim (le_or_gt bytes s.curr_bytes) [
      | inr few ↦ inl (few, ground (arith, run, sum, v.summed, few))
      | inl enough ↦ inr (
        enough,
        chosen (insert_all a c) xs,
        ground (arith, run, sum, v.summed, enough),
        insert_all-len a c ∙ len,
        λ p.
            sum_by-map (here_at p) (λ (x : Loaded). x.0) (qsort xs)
            ∙ sum_by-qsort (λ x. here_at p x.0) xs
            ∙ sym (sum_by-map (here_at p) (λ (x : Loaded). x.0) xs)
            ∙ ap (sum_by (here_at p)) ps
            ∙ sum_by-map (here_at p) (λ (e : Bytes × ℕ). e.1) c
            ∙ v.owned p,
      )
    ]
