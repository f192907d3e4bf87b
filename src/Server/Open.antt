-- ===== src/Server/Open.antt =====
-- `server_openFile` (src/server.c).
pub mod Creation
pub mod Answers
use lso_baldini.Common.{
  ℕ, zero, suc, ◌+◌, ◌-◌, ◌*◌, ◌/◌, ◌%◌, List, [], ◌∷◌, ◌++◌, Bool, true, false, Option, none, some,
  ◌==◌, ltb, if◌then◌else◌, length, ℤ, pos, negsuc, minus_one, eq_ℤ, is_zero, not, ◌||◌, ◌&&◌,
  replicate,
}
use lso_baldini.CString.{Bytes}
use lso_baldini.Message.{
  sapi_success, sapi_failure, sapi_evict, sapi_fnf, sapi_locked, sapi_already, len_of, op_of,
  creates, locks, sapi_openfile, sapi_readfile, sapi_readnfiles, sapi_writefile, sapi_appendfile,
  sapi_lockfile, sapi_unlockfile, sapi_closefile, sapi_removefile,
}
use lso_baldini.Run.{Run, ret, blocked, exited, fault}
use lso_baldini.Storage.{
  FileData, Storage, store, size_sub, uint_add, fu_alloc_file_data, fu_storage_files_available,
  fu_storage_bytes_available, fu_free_file_data, fu_getfile, fu_add_file, fu_remove_file,
  fu_writefile,
}
use lso_baldini.Server.World.{
  World, M, pure, ◌>>=◌, ◌>>◌, on_storage, ask, lock_storage, unlock_storage, load, save, lock_file,
  unlock_file, read, write, Frame, server_respond, sapi_respond, server_get_path, le_decode,
  overwrite, uninit_size, server_get_len, server_send_path, server_send_data,
}

-- `x & O_LOCK`
abbrev pub lock_bit : ℕ → ℕ
lock_bit x = x / 2 % 2 * 2

-- What the handler makes of a file that it opens for `client`.
abbrev pub opened : ℕ → ℕ → FileData → FileData
opened message client f =
    if locks message
    then record f { client = pos client; data_info = lock_bit f.data_info }
    else record f { client = pos client }

-- The branch for a stored file.
unfoldable pub open_stored : ℕ → ℕ → ℕ → M ℤ
unfolding sapi_respond
open_stored message client p = do
  lock_file p
  f ← load p
  if not (eq_ℤ f.client minus_one)
      then (do unlock_file p; sapi_respond sapi_already client minus_one)
      else do
        save p (opened message client f)
        unlock_file p
        sapi_respond sapi_success client (pos 0)

abbrev pub new_address : M ℕ
new_address = on_storage (λ s. ret (fu_alloc_file_data s))

abbrev pub free_file : ℕ → M (Unit {0})
free_file p w = elim (fu_free_file_data w.storage p) [
  | ret s ↦ ret (tt, record w { storage = s })
  | blocked ↦ blocked
  | exited ↦ exited
  | fault ↦ fault
]

-- The branch that creates a file. `fu_add_file` has freed it when it fails.
unfoldable pub open_new : ℕ → ℕ → Bytes → M ℤ
unfolding sapi_respond fu_alloc_file_data fu_free_file_data fu_storage_bytes_available
    fu_storage_files_available
open_new message client path = do
  p ← new_address
  f ← load p
  save p (opened message client f)
  lock_storage
  bytes ← ask fu_storage_bytes_available
  files ← ask fu_storage_files_available
  if bytes == 0 || files == 0
      then (do unlock_storage; free_file p; sapi_respond sapi_failure client minus_one)
      else do
        result ← on_storage (λ s. fu_add_file s p path)
        if not (is_zero result)
            then (do unlock_storage; free_file p; sapi_respond sapi_failure client minus_one)
            else do unlock_storage; sapi_respond sapi_success client (pos 0)

unfoldable pub server_open_file : ℕ → ℕ → M ℤ
unfolding server_get_path sapi_respond open_stored open_new
server_open_file message client = if message == 0 || client == 0 then pure minus_one else do
  path ← server_get_path message client
  elim path [
    | none ↦ sapi_respond sapi_failure client minus_one
    | some name ↦ do
      file ← on_storage (λ s. fu_getfile s name)
      elim file [
        | some p ↦ open_stored message client p
        | none ↦
            if not (creates message)
            then sapi_respond sapi_fnf client minus_one
            else open_new message client name
      ]
  ]
