-- ===== src/Server/Read.antt =====
-- `server_readFile` (src/server.c).
pub mod Answers
use lso_baldini.Common.{
  ℕ, ◌/◌, ◌%◌, none, some, ◌==◌, if◌then◌else◌, ℤ, pos, minus_one, eq_ℤ, not, ◌||◌, ◌&&◌,
}
use lso_baldini.Message.{sapi_success, sapi_failure, sapi_fnf, sapi_locked}
use lso_baldini.Storage.{fu_getfile}
use lso_baldini.Server.World.{
  M, pure, ◌>>=◌, ◌>>◌, on_storage, load, lock_file, unlock_file, server_respond, sapi_respond,
  server_get_path, server_send_data,
}

-- A failing first answer leaves the file's mutex held.
unfoldable pub read_stored : ℕ → ℕ → M ℤ
unfolding sapi_respond server_respond server_send_data
read_stored client p = do
  lock_file p
  f ← load p
  if (not (eq_ℤ f.client (pos 0)) && not (eq_ℤ f.client (pos client)))
        || (f.data_info / 2 % 2 == 1 && not (eq_ℤ f.client (pos client)))
      then (do unlock_file p; sapi_respond sapi_locked client (pos 3))
      else do
        failed ← server_respond sapi_success client
        if failed
            then pure minus_one
            else do _ ← server_send_data client f.content f.data_len; unlock_file p; pure (pos 0)

unfoldable pub server_read_file : ℕ → ℕ → M ℤ
unfolding server_get_path sapi_respond read_stored
server_read_file message client = if message == 0 || client == 0 then pure minus_one else do
  path ← server_get_path message client
  elim path [
    | none ↦ sapi_respond sapi_failure client (pos 1)
    | some name ↦ do
      file ← on_storage (λ s. fu_getfile s name)
      elim file [ none ↦ sapi_respond sapi_fnf client (pos 1) | some p ↦ read_stored client p ]
  ]
