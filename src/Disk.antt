-- ===== src/Disk.antt =====
-- Files on the disk (libs/LSO_LIB/file_utils.c), read and written by the client. The system's part is
-- the record `Disk`: what files hold, and which of its calls fail. `fu_ensure_path`, which makes
-- directories, is left out.
pub mod Laws
use lso_baldini.CString.{Bytes}
use lso_baldini.Common.{
  ℕ, zero, suc, ◌+◌, List, [], ◌∷◌, ◌++◌, Bool, true, false, Option, none, some, ◌==◌,
  if◌then◌else◌, not, ◌&&◌, ◌||◌, length, take, drop, ℤ, pos, minus_one, eq_ℤ,
}
use lso_baldini.Memory.{mu_malloc, mu_realloc, Allocation, exits, null, block}
use lso_baldini.Run.{Run, ret, blocked, exited, ◌>>=◌}

-- `read_fails k` is `ferror` after the read of the chunk `k`.
pub record DiskFile : Type 0 where
  pub content : Bytes
  pub read_fails : ℕ → Bool

-- `spoiled` is what a write that fails leaves.
pub record Disk : Type 0 where
  pub files : Bytes → Option DiskFile
  pub opens : Bytes → Bool
  pub write_fails : Bytes → Bool
  pub close_fails : Bytes → Bool
  pub spoiled : Bytes → Bytes

abbrev pub datachunk : ℕ
datachunk = 1024

abbrev pub unless_exited : {A : Type 0} → Allocation → Run A → Run A
unless_exited exits r = exited
unless_exited null r = r
unless_exited block r = r

-- The loop of `fu_file_read`: `none` if a read fails. A chunk that is not full sets `feof`. Without
-- fuel the loop goes on for ever.
unfoldable pub read_chunks : ℕ → (ℕ → Bool) → ℕ → Bytes → Bytes → Run (Option Bytes)
unfolding mu_realloc
read_chunks zero fails k rest bytes = blocked
read_chunks (suc fuel) fails k rest bytes =
    let read = take datachunk rest in
    let next = read_chunks fuel fails (k + 1) (drop datachunk rest) (bytes ++ read) in
    if fails k
    then ret none
    else if length read == datachunk
    then unless_exited (mu_realloc (length (bytes ++ read) + datachunk)) next
    else ret (some (bytes ++ read))

-- A buffer, null exactly when it is empty, and the length that is recorded of it.
abbrev pub Buffer : Type 0
Buffer = Bytes × ℕ

unfoldable pub fu_file_read : Disk → Bytes → Buffer → Run (ℤ × Buffer)
unfolding mu_malloc mu_realloc read_chunks
fu_file_read disk path (old, old_len) =
    if not (length old == 0) && not (old_len == 0)
    then ret (minus_one, (old, old_len))
    else elim (disk.files path) [
      | none ↦ ret (minus_one, (old, if length old == 0 then 0 else old_len))
      | some f ↦ unless_exited (mu_malloc datachunk) (do
        bytes ← read_chunks (length f.content + 1) f.read_fails 0 f.content []
        elim bytes [
          | none ↦ ret (minus_one, (old, if length old == 0 then 0 else old_len))
          | some bs ↦
              unless_exited (mu_realloc (length bs))
                (ret (if disk.close_fails path then minus_one else pos 0, (bs, length bs)))
        ])
    ]

-- On an error the caller's buffer is left as it was.
unfoldable pub fu_read_from_path : Disk → Bytes → Buffer → Run (ℤ × Buffer)
unfolding fu_file_read
fu_read_from_path disk path old = do
  (result, new) ← fu_file_read disk path old
  if eq_ℤ result minus_one then ret (minus_one, old) else ret (pos 0, new)

-- The same path, byte by byte.
abbrev pub same_path : Bytes → Bytes → Bool
same_path [] [] = true
same_path [] (y ∷ ys) = false
same_path (x ∷ xs) [] = false
same_path (x ∷ xs) (y ∷ ys) = x == y && same_path xs ys

abbrev pub put_file : Disk → Bytes → Bytes → Disk
put_file disk path bytes = record disk {
  files = λ q.
      if same_path q path
      then some (record { content = bytes; read_fails = λ k. false })
      else disk.files q;
}

unfoldable pub fu_file_write : Disk → Bytes → Buffer → ℤ × Disk
fu_file_write disk path (bytes, data_len) =
    if (length bytes == 0 && not (data_len == 0)) || (data_len == 0 && not (length bytes == 0))
    then (minus_one, disk)
    else if not (disk.opens path)
    then (minus_one, disk)
    else if disk.write_fails path
    then (minus_one, put_file disk path (disk.spoiled path))
    else (
      if disk.close_fails path then minus_one else pos 0,
      put_file disk path (take data_len bytes),
    )

unfoldable pub fu_write_to_path : Disk → Bytes → Buffer → ℤ × Disk
unfolding fu_file_write
fu_write_to_path disk path (bytes, data_len) =
    if (length bytes == 0 && not (data_len == 0)) || (not (length bytes == 0) && data_len == 0)
    then (minus_one, disk)
    else if length bytes == 0 && data_len == 0
    then (pos 0, disk)
    else fu_file_write disk path (bytes, data_len)
