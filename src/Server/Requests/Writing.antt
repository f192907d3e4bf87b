-- ===== src/Server/Requests/Writing.antt =====
-- `server_writeFile`, `server_appendToFile`, `server_removeFile` and `serve` (src/server.c), for any
-- relation between storages that their steps keep.
use lso_baldini.CString.{Bytes}
use lso_baldini.Common.{
  ℕ, Bool, true, false, none, some, pos, minus_one, ◌==◌, ◌||◌, not, eq_ℤ, ltb, is_zero, length,
}
use lso_baldini.Message.{
  op_of, sapi_success, sapi_failure, sapi_fnf, sapi_locked, sapi_openfile, sapi_readfile,
  sapi_readnfiles, sapi_writefile, sapi_appendfile, sapi_lockfile, sapi_unlockfile, sapi_closefile,
  sapi_removefile,
}
use lso_baldini.Run.{ret}
use lso_baldini.Server.Close.{server_lock_file, server_unlock_file}
use lso_baldini.Server.Keeps.Mutexes.{
  Stable, stable_order, keep_lock_storage, keep_unlock_storage, keep_lock_file, keep_unlock_file,
}
use lso_baldini.Server.Keeps.Connection.{
  keep_read, keep_uninit, keep_respond, keep_sapi_respond, keep_get_path,
}
use lso_baldini.Server.Keeps.{
  Keeps, keep_bind, keep_pure, keep_if, keep_ask, keep_load, keep_on_storage, at_of, at_unless,
  at_bind,
}
use lso_baldini.Server.Remove.{remove_stored, server_remove_file}
use lso_baldini.Server.Requests.Eviction.{keep_server_evict}
use lso_baldini.Server.Requests.{
  Serves, keep_getfile, keep_server_open_file, keep_server_close_file, keep_server_read_file,
  keep_server_read_n_files,
}
use lso_baldini.Server.Serve.{serve}
use lso_baldini.Server.World.{le_decode}
use lso_baldini.Server.Write.{
  check_read_response, roomy, evict_failed, answer_failed, make_room, write_stored, write_request,
  server_write_file, server_append_to_file,
}
use lso_baldini.Storage.{Storage, size_sub}

module _ {R : Storage → Storage → Type 0} ⦃stable : Stable R⦄ (client : ℕ)
    (h : Serves R client) where
  keep_check_read_response : Keeps R (check_read_response client)
  unfolding check_read_response
  keep_check_read_response = keep_bind keep_uninit λ old. keep_bind (keep_read 8) (elim [
    | none ↦ keep_pure (some old)
    | some bs ↦
        keep_if (ltb (length bs) 8)
          (keep_bind (keep_respond sapi_failure client) λ _. keep_pure none)
          (keep_pure (some (le_decode bs)))
  ])

  keep_make_room : (n : ℕ) → Keeps R (make_room client n)
  unfolding make_room
  keep_make_room n = keep_bind (keep_ask _) λ available.
      keep_if (ltb available n)
        (keep_bind (keep_server_evict client h (size_sub n available))
          λ result. keep_if (is_zero result) (keep_pure roomy) (keep_pure evict_failed))
        (keep_bind (keep_respond sapi_success client)
          λ failed. keep_if failed (keep_pure answer_failed) (keep_pure roomy))

  keep_write_stored : (append : Bool) (p : ℕ) → Keeps R (write_stored append client p)
  unfolding write_stored
  keep_write_stored append p = keep_bind (keep_lock_file p) λ _. keep_load p λ f w e.
      at_unless (eq_ℤ f.client (pos client))
        (keep_bind (keep_unlock_file p) λ _. keep_sapi_respond sapi_locked client (pos 3))
        λ own. at_bind keep_check_read_response (elim [
          | none ↦ λ w' r. at_of (keep_pure (pos 1)) w'
          | some n ↦ λ w' r. at_bind (keep_make_room n) (elim [
            | roomy ↦ λ w₂ r₂. at_bind keep_unlock_storage λ _ w₃ r₃.
                h.put w.storage w₃ p f append n e own
                  (stable.order.transitive _ _ _ r (stable.order.transitive _ _ _ r₂ r₃))
            | evict_failed ↦ λ w₂ r₂.
                at_of
                  (keep_bind (keep_unlock_file p) λ _.
                    keep_bind keep_unlock_storage
                      λ _. keep_sapi_respond sapi_failure client (pos 1))
                  w₂
            | answer_failed ↦ λ w₂ r₂.
                at_of
                  (keep_bind (keep_unlock_file p)
                    λ _. keep_bind keep_unlock_storage λ _. keep_pure (pos 1))
                  w₂
          ])
        ])

  keep_write_request : (append : Bool) (message : ℕ) → Keeps R (write_request append message client)
  unfolding write_request
  keep_write_request append message = keep_if (message == 0 || client == 0) (keep_pure minus_one) (
      keep_bind (keep_get_path message client) (elim [
        | none ↦ keep_sapi_respond sapi_failure client (pos 1)
        | some name ↦ keep_bind keep_lock_storage λ _. keep_bind (keep_getfile name) (elim [
          | none ↦ keep_bind keep_unlock_storage λ _. keep_sapi_respond sapi_fnf client (pos 1)
          | some p ↦ keep_write_stored append p
        ])
      ]))

  keep_remove_stored : (path : Bytes) (p : ℕ) → Keeps R (remove_stored client path p)
  unfolding remove_stored
  keep_remove_stored path p = keep_bind (keep_lock_file p) λ _. keep_load p λ f w e.
      at_of
        (keep_bind (keep_unlock_file p) λ _.
          keep_if (not (eq_ℤ f.client (pos client)))
            (keep_bind keep_unlock_storage λ _. keep_sapi_respond sapi_locked client (pos 1))
            (keep_bind {m = λ w. ret (w.stale path, w)} keep_reread λ stale.
              keep_bind (keep_on_storage _ (λ s. h.remove s stale)) λ _.
                keep_bind keep_unlock_storage λ _. keep_sapi_respond sapi_success client (pos 0)))
        w
    where
      keep_reread : Keeps R {A = Bytes} (λ w. ret (w.stale path, w))
      keep_reread = record { run = λ w. stable.order.reflexive w.storage }

  keep_server_remove_file : (message : ℕ) → Keeps R (server_remove_file message client)
  unfolding server_remove_file
  keep_server_remove_file message = keep_if (message == 0 || client == 0) (keep_pure minus_one) (
      keep_bind (keep_get_path message client) (elim [
        | none ↦ keep_sapi_respond sapi_failure client (pos 1)
        | some name ↦ keep_bind keep_lock_storage λ _. keep_bind (keep_getfile name) (elim [
          | none ↦ keep_bind keep_unlock_storage λ _. keep_sapi_respond sapi_fnf client (pos 0)
          | some p ↦ keep_remove_stored name p
        ])
      ]))

  -- Every request keeps the relation.
  pub keep_serve : (request : ℕ) → Keeps R (serve request client)
  unfolding serve server_lock_file server_unlock_file server_write_file server_append_to_file
  keep_serve request =
      let op = op_of request in
      keep_if (op == sapi_openfile) (keep_server_open_file client h request) (
        keep_if (op == sapi_closefile) (keep_server_close_file client h request) (
          keep_if (op == sapi_readfile) (keep_server_read_file request client) (
            keep_if (op == sapi_readnfiles) (keep_server_read_n_files request client) (
              keep_if (op == sapi_writefile) (keep_write_request false request) (
                keep_if (op == sapi_appendfile) (keep_write_request true request) (
                  keep_if (op == sapi_lockfile)
                    (keep_if (request == 0 || client == 0) (keep_pure minus_one)
                      (keep_pure (pos 0)))
                    (keep_if (op == sapi_unlockfile)
                      (keep_if (request == 0 || client == 0) (keep_pure minus_one)
                        (keep_pure (pos 0)))
                      (keep_if (op == sapi_removefile) (keep_server_remove_file request) (
                        keep_bind (keep_respond sapi_failure client) λ failed.
                          keep_if failed (keep_pure (pos 1)) (keep_pure minus_one))))))))))
