-- ===== src/Server/Write.antt =====
-- `server_writeFile` and `server_appendToFile` (src/server.c), which differ in the offset that they
-- write at.
pub mod Answers
pub mod Success
use lso_baldini.Common.{
  ℕ, ◌-◌, ◌++◌, Bool, true, false, Option, none, some, ◌==◌, ltb, if◌then◌else◌, length, ℤ, pos,
  minus_one, eq_ℤ, is_zero, not, ◌||◌, replicate,
}
use lso_baldini.CString.{Bytes}
use lso_baldini.Message.{sapi_success, sapi_failure, sapi_fnf, sapi_locked}
use lso_baldini.Run.{exited}
use lso_baldini.Storage.{size_sub, fu_storage_bytes_available, fu_getfile, fu_writefile}
use lso_baldini.Server.World.{
  M, pure, ◌>>=◌, ◌>>◌, on_storage, ask, lock_storage, unlock_storage, load, lock_file, unlock_file,
  read, server_respond, sapi_respond, server_get_path, le_decode, uninit_size,
}
use lso_baldini.Memory.{mu_calloc, exits, null, block}
use lso_baldini.Server.Evict.{server_evict}

-- The macro `CHECK_READ_RESPONSE` (include/server.h) on a `size_t`: `none` if it returns. A `read`
-- that fails gives -1, which the comparison with `sizeof` takes as a large number, so that the
-- size is used as it is.
unfoldable pub check_read_response : ℕ → M (Option ℕ)
unfolding le_decode server_respond
check_read_response client = do
  old ← uninit_size
  bytes ← read 8
  elim bytes [
    | none ↦ pure (some old)
    | some bs ↦
        if ltb (length bs) 8
        then (do _ ← server_respond sapi_failure client; pure none)
        else pure (some (le_decode bs))
  ]

pub data Room : Type 0 where
  roomy evict_failed answer_failed : Room

-- The eviction if too few bytes are free, else the answer that there is room.
unfoldable pub make_room : ℕ → ℕ → M Room
unfolding fu_storage_bytes_available server_evict server_respond
make_room client data_len = do
  available ← ask fu_storage_bytes_available
  if ltb available data_len
      then (do
        result ← server_evict client (size_sub data_len available)
        if is_zero result then pure roomy else pure evict_failed)
      else do
        failed ← server_respond sapi_success client
        if failed then pure answer_failed else pure roomy

-- The write to the file and the last answer.
unfoldable pub store_bytes : Bool → ℕ → ℕ → ℕ → Option Bytes → M ℤ
unfolding server_respond fu_writefile
store_bytes append client p data_len buffer = do
  f ← load p
  result ← on_storage (λ s. fu_writefile s p (if append then f.data_len else 0) buffer data_len)
  if not (is_zero result)
      then (do unlock_file p; _ ← server_respond sapi_failure client; pure (pos 1))
      else do
        failed ← server_respond sapi_success client
        unlock_file p
        if failed then pure (pos 1) else pure (pos 0)

-- The data is read into a zeroed buffer.
unfoldable pub receive : Bool → ℕ → ℕ → ℕ → M ℤ
unfolding mu_calloc server_respond replicate store_bytes
receive append client p data_len = elim (mu_calloc data_len) [
  | exits ↦ λ _. exited
  | null ↦ do
    bytes ← read data_len
    elim bytes [
      | none ↦ do unlock_file p; _ ← server_respond sapi_failure client; pure (pos 1)
      | some bs ↦ store_bytes append client p data_len none
    ]
  | block ↦ do
    bytes ← read data_len
    elim bytes [
      | none ↦ do unlock_file p; _ ← server_respond sapi_failure client; pure (pos 1)
      | some bs ↦
          store_bytes append client p data_len (some (bs ++ replicate (data_len - length bs) 0))
    ]
]

-- The branch for a stored file. The storage's mutex stays held where the client does not own the
-- file, and both mutexes where the size does not arrive.
unfoldable pub write_stored : Bool → ℕ → ℕ → M ℤ
unfolding sapi_respond check_read_response make_room receive
write_stored append client p = do
  lock_file p
  f ← load p
  if not (eq_ℤ f.client (pos client))
      then (do unlock_file p; sapi_respond sapi_locked client (pos 3))
      else do
        data_len ← check_read_response client
        elim data_len [
          | none ↦ pure (pos 1)
          | some n ↦ do
            room ← make_room client n
            elim room [
              | roomy ↦ do unlock_storage; receive append client p n
              | evict_failed ↦ do
                unlock_file p
                unlock_storage
                sapi_respond sapi_failure client (pos 1)
              | answer_failed ↦ do unlock_file p; unlock_storage; pure (pos 1)
            ]
        ]

unfoldable pub write_request : Bool → ℕ → ℕ → M ℤ
unfolding server_get_path sapi_respond write_stored
write_request append message client = if message == 0 || client == 0 then pure minus_one else do
  path ← server_get_path message client
  elim path [
    | none ↦ sapi_respond sapi_failure client (pos 1)
    | some name ↦ do
      lock_storage
      file ← on_storage (λ s. fu_getfile s name)
      elim file [
        | none ↦ do unlock_storage; sapi_respond sapi_fnf client (pos 1)
        | some p ↦ write_stored append client p
      ]
  ]

unfoldable pub server_write_file : ℕ → ℕ → M ℤ
unfolding write_request
server_write_file = write_request false

unfoldable pub server_append_to_file : ℕ → ℕ → M ℤ
unfolding write_request
server_append_to_file = write_request true
