-- ===== src/Server/Remove.antt =====
-- `server_removeFile` (src/server.c).
use lso_baldini.Common.{ℕ, none, some, ◌==◌, if◌then◌else◌, ℤ, pos, minus_one, eq_ℤ, not, ◌||◌}
use lso_baldini.CString.{Bytes}
use lso_baldini.Message.{sapi_success, sapi_failure, sapi_fnf, sapi_locked}
use lso_baldini.Run.{ret}
use lso_baldini.Storage.{fu_getfile, fu_remove_file}
use lso_baldini.Server.World.{
  M, pure, ◌>>=◌, ◌>>◌, on_storage, lock_storage, unlock_storage, load, lock_file, unlock_file,
  sapi_respond, server_get_path,
}

abbrev pub reread : Bytes → M Bytes
reread path w = ret (w.stale path, w)

-- The path's buffer was freed before `fu_remove_file` reads it.
unfoldable pub remove_stored : ℕ → Bytes → ℕ → M ℤ
unfolding sapi_respond
remove_stored client path p = do
  lock_file p
  f ← load p
  unlock_file p
  if not (eq_ℤ f.client (pos client))
      then (do unlock_storage; sapi_respond sapi_locked client (pos 1))
      else do
        stale ← reread path
        _ ← on_storage (λ s. fu_remove_file s stale)
        unlock_storage
        sapi_respond sapi_success client (pos 0)

unfoldable pub server_remove_file : ℕ → ℕ → M ℤ
unfolding server_get_path sapi_respond remove_stored
server_remove_file message client = if message == 0 || client == 0 then pure minus_one else do
  path ← server_get_path message client
  elim path [
    | none ↦ sapi_respond sapi_failure client (pos 1)
    | some name ↦ do
      lock_storage
      file ← on_storage (λ s. fu_getfile s name)
      elim file [
        | none ↦ do unlock_storage; sapi_respond sapi_fnf client (pos 0)
        | some p ↦ remove_stored client name p
      ]
  ]
