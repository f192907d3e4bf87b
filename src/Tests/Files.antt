-- ===== src/Tests/Files.antt =====
-- The theorems on the file storage at concrete inputs.
use lso_baldini.CString.{Bytes}
use lso_baldini.Common.{
  ℕ, [], ◌∷◌, ◌≡◌, ◌≢◌, ◌+◌, refl, some, none, pos, minus_one, arith, length, false,
}
use lso_baldini.HashTable.{hu_get}
use lso_baldini.HashTable.Laws.{hu_get-insert_self as get_inserted}
use lso_baldini.Run.{ret}
use lso_baldini.Arr.{Arr, no_arr}
use lso_baldini.Common.{◌⊎◌, ◌<◌, ◌≤◌}
use lso_baldini.HashTable.Totals.{sum_by}
use lso_baldini.Storage.Eviction.Choice.{here_at, fu_evict_files_lem}
use lso_baldini.Storage.Eviction.{fu_evict_files}
use lso_baldini.Storage.Invariant.{live}
use lso_baldini.Storage.PathKey.{path_key}
use lso_baldini.Storage.Addition.{
  IsPending, new_file, alloc-IsPending, with_file, with_file-IsValid, fu_add_file_stored,
}
use lso_baldini.Storage.Invariant.{IsValid}
use lso_baldini.Storage.Lookup.{touched}
use lso_baldini.Storage.Removal.{fu_remove_file_found}
use lso_baldini.Storage.Start.{empty_storage, empty_storage-IsValid, fu_init_file_storage-IsValid}
use lso_baldini.Storage.Writing.{
  written, rewritten, rewritten-IsValid, fu_writefile_stored, fu_writefile_full,
}
use lso_baldini.Storage.{
  FileData, Storage, store, update, fu_init_file_storage, fu_alloc_file_data, fu_add_file,
  fu_remove_file, fu_writefile,
}

fu_init_file_storage-IsValid_example :
    (s : Storage) × (fu_init_file_storage 4 100 ≡ ret (some s))
    × IsValid s
    × (s.curr_files ≡ 0)
    × (s.curr_bytes ≡ 0)
    × (s.max_files ≡ 4)
    × (s.max_bytes ≡ 100)
    × (s.locked ≡ false)
fu_init_file_storage-IsValid_example =
    fu_init_file_storage-IsValid 4 100 (omega arith) (omega arith) (omega arith) (omega arith)

abbrev pub start : Storage
start = empty_storage 2 4 100

pub start-IsValid : IsValid start
start-IsValid = empty_storage-IsValid 2 4 100 (omega arith) (omega arith) (omega arith)

abbrev allocated : Storage
allocated = record start { heap = update start.heap 1 (some new_file); next = 2 }

allocated-IsPending : IsPending allocated 1 new_file
unfolding fu_alloc_file_data
allocated-IsPending = alloc-IsPending start-IsValid

abbrev pub path_a : Bytes
path_a = 97 ∷ []

fu_add_file_stored_example :
    (s' : Storage) × (fu_add_file allocated 1 path_a ≡ ret (pos 0, s'))
    × IsValid s'
    × (hu_get s'.table path_a ≡ some 1)
    × (s'.heap 1 ≡ some (record new_file { path = some path_a }))
    × ((q : ℕ) → q ≢ 1 → s'.heap q ≡ allocated.heap q)
    × (s'.curr_files ≡ allocated.curr_files + 1)
    × (s'.curr_bytes ≡ allocated.curr_bytes)
fu_add_file_stored_example = fu_add_file_stored 1 path_a allocated-IsPending (omega arith)

abbrev pub file_a : FileData
file_a = record new_file { path = some path_a }

abbrev pub one_file : Storage
one_file = with_file allocated 1 new_file path_a

pub one_file-IsValid : IsValid one_file
one_file-IsValid = with_file-IsValid 1 path_a allocated-IsPending (omega arith)

pub one_file-found : hu_get one_file.table path_a ≡ some 1
one_file-found = get_inserted path_a 1 start-IsValid.table_IsValid

abbrev pub some_bytes : Bytes
some_bytes = 10 ∷ 20 ∷ 30 ∷ []

fu_writefile_stored_example :
    (s' : Storage) × (fu_writefile one_file 1 0 (some some_bytes) (length some_bytes)
      ≡ ret (pos 0, s'))
    × IsValid s'
    × (s'.heap 1 ≡ some (written file_a 0 some_bytes))
    × ((q : ℕ) → q ≢ 1 → s'.heap q ≡ one_file.heap q)
    × (s'.curr_bytes + file_a.data_len ≡ one_file.curr_bytes + (0 + length some_bytes))
    × (s'.curr_files ≡ one_file.curr_files)
fu_writefile_stored_example =
    fu_writefile_stored 1 0 some_bytes one_file-IsValid refl (omega arith) (omega arith)
      (omega arith) (omega arith)

abbrev pub filled : Storage
filled = rewritten one_file 1 file_a 0 some_bytes

pub filled-IsValid : IsValid filled
filled-IsValid =
    rewritten-IsValid 1 0 some_bytes one_file-IsValid refl (omega arith) (omega arith) (omega arith)
      (omega arith)

fu_remove_file_found_example :
    (f : FileData) × (s' : Storage) × (filled.heap 1 ≡ some f)
    × (fu_remove_file filled path_a ≡ ret (pos 0, s'))
    × IsValid s'
    × (s'.heap 1 ≡ none)
    × ((q : ℕ) → q ≢ 1 → s'.heap q ≡ filled.heap q)
    × (s'.curr_files + 1 ≡ filled.curr_files)
    × (s'.curr_bytes + f.data_len ≡ filled.curr_bytes)
fu_remove_file_found_example = fu_remove_file_found path_a filled-IsValid one_file-found

-- With a limit of two bytes.
abbrev tight : Storage
tight =
    with_file (record (empty_storage 2 4 2) { heap = allocated.heap; next = 2 }) 1 new_file path_a

tight-IsValid : IsValid tight
unfolding fu_alloc_file_data
tight-IsValid =
    with_file-IsValid 1 path_a
      (alloc-IsPending (empty_storage-IsValid 2 4 2 (omega arith) (omega arith) (omega arith)))
      (omega arith)

fu_writefile_full_example :
    fu_writefile tight 1 0 (some some_bytes) (length some_bytes)
    ≡ ret (minus_one, store tight 1 (touched file_a))
fu_writefile_full_example =
    fu_writefile_full 1 0 some_bytes tight-IsValid refl (omega arith) (omega arith) (omega arith)
      (omega arith)

fu_evict_files_lem_example :
    ((filled.curr_bytes < 2) × (fu_evict_files filled 2 ≡ ret no_arr))
    ⊎ ((2 ≤ filled.curr_bytes)
        × (a : Arr ℕ) × (fu_evict_files filled 2 ≡ ret a)
        × (a.len ≡ filled.curr_files)
        × ((p : ℕ) → sum_by (here_at p) a.elements ≡ live (filled.heap p)))
fu_evict_files_lem_example = fu_evict_files_lem filled 2 filled-IsValid (omega arith)
