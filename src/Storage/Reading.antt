-- ===== src/Storage/Reading.antt =====
-- `fu_nreadfile` and `fu_readfile` (libs/LSO_LIB/file_utils.c), which no handler calls, and what they
-- read of a file that was written.
use lso_baldini.CString.{Bytes}
use lso_baldini.Common.{
  ℕ, ◌-◌, ◌≤◌, ◌<◌, ◌≡◌, [], if◌then◌else◌, leb, ltb, ◌==◌, arith, length, take, drop, drop-append,
  length-take, take-length,
}
use lso_baldini.Memory.{mu_realloc, exits, max_request}
use lso_baldini.Run.{Run, ret, exited}
use lso_baldini.Storage.Lookup.{touched}
use lso_baldini.Storage.Writing.{written}
use lso_baldini.Storage.{FileData, uint_add}

-- The count that is returned and the bytes that are copied to `dest`, which is not null.
unfoldable pub fu_nreadfile : FileData → ℕ → ℕ → ℕ × Bytes
fu_nreadfile f i dest_len =
    if dest_len == 0
    then (0, [])
    else if leb f.data_len i
    then (0, [])
    else let remaining = f.data_len - i in
      let count = if ltb remaining dest_len then remaining else dest_len in
      (count, take count (drop i f.content))

-- The file after the call, the count and the bytes.
unfoldable pub fu_readfile : FileData → ℕ → Run (FileData × (ℕ × Bytes))
unfolding fu_nreadfile mu_realloc
fu_readfile f i =
    if leb f.data_len i
    then ret (f, (0, []))
    else let f' : FileData = record f { data_info = uint_add f.data_info 1 } in
      elim (mu_realloc (f.data_len - i)) [
        | exits ↦ exited
        | _ ↦ ret (f', fu_nreadfile f' i (f.data_len - i))
      ]

drop-written :
    (f : FileData) (i : ℕ) (bytes : Bytes)
    → i ≤ length f.content
    → drop i (written f i bytes).content ≡ bytes
drop-written f i bytes inside =
    drop-append i (take i f.content) bytes (length-take i f.content inside)

-- What was written to a file at an offset inside it is what is read from that offset on, by
-- `fu_nreadfile` with a buffer of at least its size and, if it is not empty and small enough to be
-- allocated, by `fu_readfile`.
pub fu_readfile-written :
    (f : FileData) (i n : ℕ) (bytes : Bytes)
    → i ≤ length f.content
    → 0 < length bytes
    → length bytes ≤ n
    → length bytes ≤ max_request
    → (fu_nreadfile (written f i bytes) i n ≡ (length bytes, bytes))
      × (fu_readfile (written f i bytes) i
          ≡ ret (touched (written f i bytes), (length bytes, bytes)))
unfolding fu_nreadfile fu_readfile mu_realloc
fu_readfile-written f i n bytes inside filled room small =
    let e = drop-written f i bytes inside in
    (
      ground (arith, e, filled, room, take-length bytes),
      ground (arith, e, filled, small, take-length bytes),
    )
