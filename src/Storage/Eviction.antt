-- ===== src/Storage/Eviction.antt =====
-- The choice of the files to evict (`fu_evict_compare` and `fu_evict_files` of
-- libs/LSO_LIB/file_utils.c). `qsort` is an insertion sort: the C library leaves the order of
-- elements that compare as equal open.
pub mod Choice
use lso_baldini.Arr.{Arr, au_init_arr, au_insert, no_arr}
use lso_baldini.Common.{
  ℕ, ◌+◌, ◌-◌, ◌%◌, ◌^◌, List, [], ◌∷◌, ◌==◌, ltb, if◌then◌else◌, ℤ, pos, negsuc, is_pos, map,
}
use lso_baldini.CString.{Bytes}
use lso_baldini.HashTable.{hu_foreach}
use lso_baldini.Run.{Run, ret, ◌>>=◌, deref}
use lso_baldini.Storage.{FileData, Heap, Storage, size_sub}

-- A 32-bit pattern as an `int`.
abbrev pub to_int32 : ℕ → ℤ
to_int32 x = if ltb x (2 ^ 31) then pos x else negsuc (2 ^ 32 - 1 - x)

abbrev pub uint_sub : ℕ → ℕ → ℕ
uint_sub a b = (a + 2 ^ 32 - b) % 2 ^ 32

-- Files looked up more often come first, and longer ones among those looked up equally often.
unfoldable pub fu_evict_compare : FileData → FileData → ℤ
fu_evict_compare a b =
    if uint_sub a.data_info b.data_info == 0
    then to_int32 (size_sub b.data_len a.data_len % 2 ^ 32)
    else to_int32 (uint_sub b.data_info a.data_info)

abbrev pub Loaded : Type 0
Loaded = ℕ × FileData

unfoldable pub sort_insert : Loaded → List Loaded → List Loaded
sort_insert x [] = x ∷ []
sort_insert x (y ∷ ys) =
    if is_pos (fu_evict_compare x.1 y.1) then y ∷ sort_insert x ys else x ∷ (y ∷ ys)

unfoldable pub qsort : List Loaded → List Loaded
unfolding sort_insert fu_evict_compare
qsort [] = []
qsort (x ∷ xs) = sort_insert x (qsort xs)

-- The files that the pointers lead to, a fault at one that is not allocated.
unfoldable pub load_all : Heap → List ℕ → Run (List Loaded)
load_all h [] = ret []
load_all h (p ∷ ps) = do f ← deref (h p); rest ← load_all h ps; ret ((p, f) ∷ rest)

-- `hu_foreach(…, au_insert(&evict_arr, &(hi->data)))`, the results of `au_insert` ignored.
unfoldable pub insert_all : Arr ℕ → List (Bytes × ℕ) → Arr ℕ
unfolding au_insert
insert_all a [] = a
insert_all a (e ∷ c) = insert_all (au_insert a e.1).0 c

-- What the loop over the sorted array leaves of `bytes_to_free`.
unfoldable pub still_needed : ℕ → List Loaded → ℕ
still_needed bytes [] = bytes
still_needed bytes (x ∷ xs) =
    let rest = still_needed (bytes - x.1.data_len) xs in
    if bytes == 0 then 0 else if ltb bytes x.1.data_len then 0 else rest

-- `(u_arr){ 0 }` if all files together are too few.
unfoldable pub fu_evict_files : Storage → ℕ → Run (Arr ℕ)
unfolding au_init_arr insert_all qsort load_all still_needed hu_foreach
fu_evict_files s bytes_to_free = do
  a ← au_init_arr s.curr_files 8
  let filled = insert_all a (hu_foreach s.table)
  loaded ← load_all s.heap filled.elements
  let sorted = qsort loaded
  if ltb 0 (still_needed bytes_to_free sorted)
      then ret no_arr
      else ret (record filled { elements = map (λ (x : Loaded). x.0) sorted })
