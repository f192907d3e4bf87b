-- ===== src/Server/ReadMany.antt =====
-- `server_readNFiles` (src/server.c).
use lso_baldini.Common.{
  ℕ, ◌-◌, List, [], ◌∷◌, Option, none, some, ◌==◌, ltb, if◌then◌else◌, ℤ, pos, minus_one, ◌||◌,
}
use lso_baldini.CString.{Bytes}
use lso_baldini.Message.{sapi_failure, len_of}
use lso_baldini.Storage.{uint_add}
use lso_baldini.Server.World.{
  M, pure, ◌>>=◌, ◌>>◌, ask, lock_storage, unlock_storage, load, save, lock_file, unlock_file,
  write, Frame, sapi_respond, server_send_path, server_send_data,
}
use lso_baldini.HashTable.{hu_foreach}

-- `write(client, &bad_res, sizeof(size_t))`, after the loop or where it is left early
unfoldable pub read_many_end : M ℤ
read_many_end = do
  unlock_storage
  failed ← write (Frame.size 0)
  if failed then pure minus_one else pure (pos 0)

-- The file at `p` under its mutex: `none` if a `write` failed, else how many files were sent.
unfoldable pub send_file : ℕ → Bytes → ℕ → M (Option ℕ)
unfolding server_send_path server_send_data
send_file client name p = do
  f ← load p
  if ltb 0 f.data_len
      then (do
        save p (record f { data_info = uint_add f.data_info 1 })
        no_path ← server_send_path client (some name)
        if no_path then pure none else do
          no_data ← server_send_data client f.content f.data_len
          if no_data then pure none else pure (some 1))
      else pure (some 0)

-- The body of `hu_foreach` on the items that are left, with `n` files still to send.
unfoldable pub read_many : ℕ → ℕ → List (Bytes × ℕ) → M ℤ
unfolding read_many_end send_file sapi_respond
read_many client n [] = read_many_end
read_many client n (e ∷ items) =
    let next = λ (m : ℕ). read_many client m items in
    if n == 0 then read_many_end else do
      f ← load e.1
      if f.locked then next n else do
        lock_file e.1
        done ← send_file client e.0 e.1
        unlock_file e.1
        elim done [
          | none ↦ do unlock_storage; sapi_respond sapi_failure client minus_one
          | some k ↦ next (n - k)
        ]

unfoldable pub server_read_n_files : ℕ → ℕ → M ℤ
unfolding read_many hu_foreach
server_read_n_files message client = if message == 0 || client == 0 then pure minus_one else do
  lock_storage
  items ← ask (λ s. hu_foreach s.table)
  read_many client (len_of message) items
