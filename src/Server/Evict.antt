-- ===== src/Server/Evict.antt =====
-- `server_evict` (src/server.c).
use lso_baldini.Common.{
  ℕ, ◌-◌, List, [], ◌∷◌, Bool, true, false, Option, none, some, ◌==◌, ltb, if◌then◌else◌, ℤ, pos,
  negsuc, minus_one, eq_ℤ, not, ◌&&◌,
}
use lso_baldini.CString.{Bytes}
use lso_baldini.Message.{sapi_success, sapi_failure, sapi_evict}
use lso_baldini.Run.{ret, blocked, exited, fault}
use lso_baldini.Storage.{FileData, fu_remove_file}
use lso_baldini.Server.World.{
  M, pure, ◌>>=◌, ◌>>◌, on_storage, load, save, lock_file, unlock_file, server_respond,
  sapi_respond, server_get_len, server_send_path, server_send_data,
}
use lso_baldini.Arr.{Arr, au_slots}
use lso_baldini.Storage.Eviction.{fu_evict_files}

-- `true` is the error return of the first `server_respond`; the later calls' results are ignored.
unfoldable pub send_back : ℕ → FileData → M Bool
unfolding server_respond server_send_path server_send_data
send_back client f = do
  failed ← server_respond sapi_evict client
  if failed then pure true else do
    _ ← server_send_path client f.path
    _ ← server_send_data client f.content f.data_len
    pure false

-- `fu_remove_file(storage, curr_file->path)`
unfoldable pub remove_path : Option Bytes → M ℤ
remove_path none = pure minus_one
remove_path (some path) = on_storage (λ s. fu_remove_file s path)

-- The loop over the slots of the array that are left: `none` if it returns -1 itself, else what is
-- left of `bytes_to_free`.
unfoldable pub evict_loop : ℕ → Bool → ℕ → List ℕ → M (Option ℕ)
unfolding send_back remove_path
evict_loop client back bytes [] = pure (some bytes)
evict_loop client back bytes (p ∷ ps) =
    let next = λ (n : ℕ). evict_loop client back n ps in
    if bytes == 0 then pure (some 0) else do
      f ← load p
      if f.locked then next bytes else do
        lock_file p
        if not (eq_ℤ f.client minus_one) && not (eq_ℤ f.client (pos client))
            then (do unlock_file p; next bytes)
            else do
              failed ← if back then send_back client f else pure false
              if failed then pure none else do
                save p (record f { client = negsuc 1; locked = false })
                _ ← remove_path f.path
                next (if ltb bytes f.data_len then 0 else bytes - f.data_len)

abbrev pub evict_files : ℕ → M (Arr ℕ)
evict_files bytes w = elim (fu_evict_files w.storage bytes) [
  | ret a ↦ ret (a, w)
  | blocked ↦ blocked
  | exited ↦ exited
  | fault ↦ fault
]

unfoldable pub server_evict : ℕ → ℕ → M ℤ
unfolding fu_evict_files server_respond sapi_respond server_get_len evict_loop
server_evict client bytes_to_free = do
  a ← evict_files bytes_to_free
  if a.len == 0 then pure minus_one else do
    failed ← server_respond sapi_evict client
    if failed then pure minus_one else do
      answer ← server_get_len client
      left ← evict_loop client (not (answer == 0)) bytes_to_free (au_slots 0 a)
      elim left [
        | none ↦ pure minus_one
        | some n ↦
            if n == 0
            then sapi_respond sapi_success client (pos 0)
            else sapi_respond sapi_failure client minus_one
      ]
