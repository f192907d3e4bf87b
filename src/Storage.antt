-- ===== src/Storage.antt =====
-- The file storage (libs/LSO_LIB/file_utils.c): its data and the operations that the server calls.
-- Files live at addresses; `heap` says what is allocated. `content` is the buffer `data`, the empty
-- list standing for the null pointer. Logging is left out, and so are the tests of a pointer to a
-- storage or a file against `NULL`, which no call in the repository passes.
pub mod PathKey
pub mod Invariant
pub mod Lookup
pub mod Removal
pub mod Addition
pub mod Writing
pub mod Reading
pub mod Start
pub mod Eviction
use lso_baldini.Common.{
  ℕ, zero, suc, ◌+◌, ◌-◌, ◌*◌, ◌/◌, ◌%◌, ◌^◌, List, [], ◌∷◌, ◌++◌, Bool, true, false, Option, none,
  some, ◌==◌, ltb, leb, if◌then◌else◌, length, take, ℤ, pos, minus_one, map,
}
use lso_baldini.CString.{Bytes}
use lso_baldini.HashTable.{Table, hu_init, hu_insert, hu_get, hu_remove, hu_foreach}
use lso_baldini.Memory.{mu_realloc, exits}
use lso_baldini.Run.{Run, ret, exited, fault, ◌>>=◌, deref}
use PathKey.{path_key}

-- `size_t` and `unsigned int` arithmetic.
abbrev pub size_add : ℕ → ℕ → ℕ
size_add a b = (a + b) % 2 ^ 64

abbrev pub size_sub : ℕ → ℕ → ℕ
size_sub a b = (a + 2 ^ 64 - b) % 2 ^ 64

abbrev pub uint_add : ℕ → ℕ → ℕ
uint_add a b = (a + b) % 2 ^ 32

pub record FileData : Type 0 where
  pub content : Bytes
  pub data_len : ℕ
  pub client : ℤ
  pub data_info : ℕ
  pub locked : Bool
  pub path : Option Bytes

abbrev pub Heap : Type 0
Heap = ℕ → Option FileData

abbrev pub update : Heap → ℕ → Option FileData → Heap
update h p v q = if p == q then v else h q

pub record Storage : Type 0 where
  pub table : Table Bytes ℕ
  pub max_files : ℕ
  pub curr_files : ℕ
  pub max_bytes : ℕ
  pub curr_bytes : ℕ
  pub locked : Bool
  pub heap : Heap
  pub next : ℕ

abbrev pub store : Storage → ℕ → FileData → Storage
store s p f = record s { heap = update s.heap p (some f) }

-- `none` stands for `(u_file_storage){ 0 }`.
unfoldable pub fu_init_file_storage : ℕ → ℕ → Run (Option Storage)
unfolding hu_init
fu_init_file_storage max_files max_bytes =
    if max_files == 0
    then ret none
    else if max_bytes == 0
    then ret none
    else elim (hu_init {K = Bytes} {V = ℕ} (max_files / 4 + 1)) [
      | none ↦ exited
      | some t ↦ ret (
          some (record {
            table = t;
            max_files = max_files;
            curr_files = 0;
            max_bytes = max_bytes;
            curr_bytes = 0;
            locked = false;
            heap = λ _. none;
            next = 1;
          }))
    ]

-- `fu_alloc_file_data(NULL, 0)`: the address of a new file, which is in no table yet.
unfoldable pub fu_alloc_file_data : Storage → ℕ × Storage
fu_alloc_file_data s =
    let file : FileData = record {
      content = [];
      data_len = 0;
      client = minus_one;
      data_info = 0;
      locked = false;
      path = none;
    } in
    (s.next, record s { heap = update s.heap s.next (some file); next = s.next + 1 })

unfoldable pub fu_storage_files_available : Storage → ℕ
fu_storage_files_available s = size_sub s.max_files s.curr_files

unfoldable pub fu_storage_bytes_available : Storage → ℕ
fu_storage_bytes_available s =
    if ltb s.max_bytes s.curr_bytes then 0 else size_sub s.max_bytes s.curr_bytes

-- Freeing what is not allocated is a fault.
unfoldable pub fu_free_file_data : Storage → ℕ → Run Storage
fu_free_file_data s p = do _ ← deref (s.heap p); ret (record s { heap = update s.heap p none })

unfoldable pub fu_getfile : Storage → Bytes → Run (Option ℕ × Storage)
fu_getfile s path = elim (hu_get s.table path) [
  | none ↦ ret (none, s)
  | some p ↦ do
    f ← deref (s.heap p)
    ret (some p, store s p (record f { data_info = uint_add f.data_info 1 }))
]

-- `hu_insert` cannot fail here, its arguments not being null. On an error the file is freed.
unfoldable pub fu_add_file : Storage → ℕ → Bytes → Run (ℤ × Storage)
unfolding fu_storage_files_available fu_storage_bytes_available fu_free_file_data
fu_add_file s p path =
    if fu_storage_files_available s == 0
    then (do s' ← fu_free_file_data s p; ret (minus_one, s'))
    else do
      f ← deref (s.heap p)
      if ltb (fu_storage_bytes_available s) f.data_len
          then (do s' ← fu_free_file_data s p; ret (minus_one, s'))
          else ret (
            pos 0,
            record s {
              heap = update s.heap p (some (record f { path = some path }));
              table = hu_insert s.table path p;
              curr_files = size_add s.curr_files 1;
              curr_bytes = size_add s.curr_bytes f.data_len;
            },
          )

unfoldable pub fu_remove_file : Storage → Bytes → Run (ℤ × Storage)
unfolding fu_getfile fu_free_file_data
fu_remove_file s path = elim (hu_get s.table path) [
  | none ↦ ret (minus_one, s)
  | some _ ↦ do
    (found, s₁) ← fu_getfile s path
    p ← deref found
    f ← deref (s₁.heap p)
    elim (hu_remove s₁.table path) [
      | none ↦ ret (minus_one, s₁)
      | some (e, t) ↦ do
        s₂ ← fu_free_file_data (record s₁ { table = t }) e.1
        ret (
          pos 0,
          record s₂ {
            curr_files = size_sub s₂.curr_files 1;
            curr_bytes = size_sub s₂.curr_bytes f.data_len;
          },
        )
    ]
]

-- The write itself, after the guards: `content` is cut or grown to `i + data_len` bytes.
unfoldable pub resize_and_copy : Storage → ℕ → FileData → ℕ → Bytes → ℕ → Run (ℤ × Storage)
unfolding mu_realloc
resize_and_copy s p f i bytes data_len =
    let new_size = size_add i data_len in
    let delta = size_sub new_size f.data_len in
    if ltb s.max_bytes (size_add s.curr_bytes delta)
    then ret (minus_one, store s p f)
    else elim (mu_realloc new_size) [
      | exits ↦ exited
      | _ ↦ ret (
        pos 0,
        record s {
          curr_bytes = size_add s.curr_bytes delta;
          heap = update s.heap p (
              some (record f {
                content = take i f.content ++ take data_len bytes;
                data_len = new_size;
              }));
        },
      )
    ]

-- `bytes` is the caller's buffer, `none` the null pointer.
unfoldable pub fu_writefile : Storage → ℕ → ℕ → Option Bytes → ℕ → Run (ℤ × Storage)
unfolding resize_and_copy
fu_writefile s p i none data_len = ret (minus_one, s)
fu_writefile s p i (some bytes) data_len = if data_len == 0 then ret (minus_one, s) else do
  f ← deref (s.heap p)
  if ltb f.data_len i
      then ret (minus_one, s)
      else resize_and_copy s p (record f { data_info = uint_add f.data_info 1 }) i bytes data_len
