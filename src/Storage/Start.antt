-- ===== src/Storage/Start.antt =====
-- `fu_init_file_storage` (libs/LSO_LIB/file_utils.c): the storage that a server starts with.
use lso_baldini.Common.{
  ℕ, zero, suc, ◌+◌, ◌*◌, ◌/◌, ◌^◌, ◌≤◌, ◌<◌, ◌≡◌, refl, [], none, some, false, arith, replicate,
  flatten, length-replicate,
}
use lso_baldini.CString.{Bytes}
use lso_baldini.HashTable.{Chain, hu_init, hu_foreach}
use lso_baldini.Memory.{max_request, mu_calloc}
use lso_baldini.Run.{ret}
use lso_baldini.Storage.Invariant.{IsValid}
use lso_baldini.Storage.{Storage, fu_init_file_storage}

flatten-replicate : (n : ℕ) → flatten (replicate {A = Chain Bytes ℕ} n []) ≡ []
unfolding replicate flatten
flatten-replicate zero = refl
flatten-replicate (suc n) = flatten-replicate n

-- The storage with a table of `n` empty buckets.
abbrev pub empty_storage : ℕ → ℕ → ℕ → Storage
empty_storage n max_files max_bytes = record {
  table = record { n_entries = n; buckets = replicate n [] };
  max_files = max_files;
  curr_files = 0;
  max_bytes = max_bytes;
  curr_bytes = 0;
  locked = false;
  heap = λ _. none;
  next = 1;
}

pub empty_storage-IsValid :
    (n max_files max_bytes : ℕ)
    → 0 < n
    → max_files < 2 ^ 32
    → max_bytes < 2 ^ 32
    → IsValid (empty_storage n max_files max_bytes)
unfolding hu_foreach
empty_storage-IsValid n max_files max_bytes some_entry files bytes =
    let e = flatten-replicate n in
    record {
      table_IsValid = record { some_entry = some_entry; allocated = length-replicate n [] };
      counted = rw e refl;
      summed = rw e refl;
      owned = λ p. rw e refl;
      files_bound = omega arith;
      bytes_bound = omega arith;
      files_small = files;
      bytes_small = bytes;
      sound = λ p f h. cc;
      fresh = λ p h. refl;
    }

-- With limits other than 0 that are `unsigned int` values, the first small enough for the table to be
-- allocated, the server starts with a valid storage that holds no file, with its mutex free.
pub fu_init_file_storage-IsValid :
    (max_files max_bytes : ℕ)
    → 0 < max_files
    → 8 * (max_files / 4 + 1) ≤ max_request
    → 0 < max_bytes
    → max_bytes < 2 ^ 32
    → (s : Storage) × (fu_init_file_storage max_files max_bytes ≡ ret (some s))
      × IsValid s
      × (s.curr_files ≡ 0)
      × (s.curr_bytes ≡ 0)
      × (s.max_files ≡ max_files)
      × (s.max_bytes ≡ max_bytes)
      × (s.locked ≡ false)
unfolding fu_init_file_storage hu_init mu_calloc
fu_init_file_storage-IsValid max_files max_bytes files table bytes small = (
  empty_storage (max_files / 4 + 1) max_files max_bytes,
  ground (arith, files, table, bytes),
  empty_storage-IsValid (max_files / 4 + 1) max_files max_bytes (omega arith) (omega (arith, table))
      small,
  refl,
  refl,
  refl,
  refl,
  refl,
)
