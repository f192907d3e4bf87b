-- ===== src/Server/Close.antt =====
-- `server_closeFile`, `server_lockFile` and `server_unlockFile` (src/server.c).
pub mod Answers
use lso_baldini.Common.{
  ℕ, zero, suc, ◌+◌, ◌-◌, ◌*◌, ◌/◌, ◌%◌, List, [], ◌∷◌, ◌++◌, Bool, true, false, Option, none, some,
  ◌==◌, ltb, if◌then◌else◌, length, ℤ, pos, negsuc, minus_one, eq_ℤ, is_zero, not, ◌||◌, ◌&&◌,
  replicate,
}
use lso_baldini.CString.{Bytes}
use lso_baldini.Message.{
  sapi_success, sapi_failure, sapi_evict, sapi_fnf, sapi_locked, sapi_already, len_of, op_of,
  creates, locks, sapi_openfile, sapi_readfile, sapi_readnfiles, sapi_writefile, sapi_appendfile,
  sapi_lockfile, sapi_unlockfile, sapi_closefile, sapi_removefile,
}
use lso_baldini.Run.{Run, ret, blocked, exited, fault}
use lso_baldini.Storage.{
  FileData, Storage, store, size_sub, uint_add, fu_alloc_file_data, fu_storage_files_available,
  fu_storage_bytes_available, fu_free_file_data, fu_getfile, fu_add_file, fu_remove_file,
  fu_writefile,
}
use lso_baldini.Server.World.{
  World, M, pure, ◌>>=◌, ◌>>◌, on_storage, ask, lock_storage, unlock_storage, load, save, lock_file,
  unlock_file, read, write, Frame, server_respond, sapi_respond, server_get_path, le_decode,
  overwrite, uninit_size, server_get_len, server_send_path, server_send_data,
}

unfoldable pub close_stored : ℕ → ℕ → M ℤ
unfolding sapi_respond
close_stored client p = do
  lock_file p
  f ← load p
  if not (eq_ℤ f.client (pos client))
      then (do unlock_file p; sapi_respond sapi_locked client (pos 1))
      else do
        save p (record f { client = minus_one })
        unlock_file p
        sapi_respond sapi_success client (pos 0)

unfoldable pub server_close_file : ℕ → ℕ → M ℤ
unfolding server_get_path sapi_respond close_stored
server_close_file message client = if message == 0 || client == 0 then pure minus_one else do
  path ← server_get_path message client
  elim path [
    | none ↦ sapi_respond sapi_failure client (pos 1)
    | some name ↦ do
      file ← on_storage (λ s. fu_getfile s name)
      elim file [ none ↦ sapi_respond sapi_fnf client (pos 1) | some p ↦ close_stored client p ]
  ]

-- These two read no path and send no answer.
unfoldable pub server_lock_file : ℕ → ℕ → M ℤ
server_lock_file message client =
    if message == 0 || client == 0 then pure minus_one else pure (pos 0)

unfoldable pub server_unlock_file : ℕ → ℕ → M ℤ
server_unlock_file message client =
    if message == 0 || client == 0 then pure minus_one else pure (pos 0)
