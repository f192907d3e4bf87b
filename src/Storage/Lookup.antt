-- ===== src/Storage/Lookup.antt =====
-- `fu_getfile` (libs/LSO_LIB/file_utils.c) on a valid storage.
use lso_baldini.Common.{ℕ, ◌<◌, ◌≡◌, refl, ap, inl, inr, none, some, arith, Option-cases, ==_refl}
use lso_baldini.CString.{Bytes}
use lso_baldini.HashTable.Deletion.{hu_remove-get}
use lso_baldini.HashTable.Laws as Laws
use lso_baldini.HashTable.Totals.{sum_by-remove}
use lso_baldini.HashTable.{Table, hu_get, hu_foreach}
use lso_baldini.Run.{ret}
use lso_baldini.Storage.Invariant.{IsValid, count_of, occurs, live, store-IsValid}
use lso_baldini.Storage.PathKey.{path_key}
use lso_baldini.Storage.{FileData, Storage, store, uint_add, fu_getfile}

pub hu_get-counted :
    (t : Table Bytes ℕ) (path : Bytes) {p : ℕ}
    → Laws.IsValid t
    → hu_get t path ≡ some p
    → 0 < count_of p (hu_foreach t)
hu_get-counted t path {p} v found =
    let (e, t', gone, same) = hu_remove-get path v found in
    let once : occurs p e ≡ 1 = rw (same, ==_refl p) in
    omega (arith, sum_by-remove (occurs p) path v gone, once)

-- A path in the table of a valid storage leads to an allocated file.
pub hu_get-live :
    {s : Storage} (path : Bytes) {p : ℕ}
    → IsValid s
    → hu_get s.table path ≡ some p
    → (f : FileData) × (s.heap p ≡ some f)
hu_get-live {s} path {p} v found = elim (Option-cases (s.heap p)) [
  | inl gone ↦
      absurd
        (omega (arith, hu_get-counted s.table path v.table_IsValid found, v.owned p, ap live gone))
  | inr (f, e) ↦ (f, e)
]

-- `data_info` counts the lookups of a file.
abbrev pub touched : FileData → FileData
touched f = record f { data_info = uint_add f.data_info 1 }

-- In a valid storage, the lookup of a path in the table returns the address of an allocated file,
-- changes its `data_info` alone, by one more lookup, and leaves a valid storage.
pub fu_getfile_found :
    {s : Storage} (path : Bytes) {p : ℕ}
    → IsValid s
    → hu_get s.table path ≡ some p
    → (f : FileData) × (s.heap p ≡ some f)
      × (fu_getfile s path ≡ ret (some p, store s p (touched f)))
      × IsValid (store s p (touched f))
unfolding fu_getfile
fu_getfile_found path {p} v found =
    let (f, e) = hu_get-live path v found in
    (f, e, ground arith, store-IsValid p f (touched f) v e refl refl)

pub fu_getfile_missing :
    {s : Storage} (path : Bytes) → hu_get s.table path ≡ none → fu_getfile s path ≡ ret (none, s)
unfolding fu_getfile
fu_getfile_missing path miss = ground arith
