-- ===== src/Server/Isolation/Requests.antt =====
-- A request to the server (src/server.c) and the files that other clients own after it.
use lso_baldini.CString.{Bytes}
use lso_baldini.Common.{
  ℕ, ◌-◌, ◌≡◌, refl, Bool, Bool-cases, Option, none, some, if◌then◌else◌, ◌||◌, ◌==◌, ==_iff, not,
  pos, minus_one, ℤ, eq_ℤ_sound, arith, inl, inr, length, ◌++◌, replicate, is_zero,
}
use lso_baldini.Memory.{mu_calloc, allocation-cases}
use lso_baldini.Message.{sapi_success, sapi_failure, locks}
use lso_baldini.Run.{Run, ret, blocked, exited, fault, Ensures}
use lso_baldini.Server.Isolation.Calls.{
  Unshared, fu_remove_file-Isolates, fu_writefile-Isolates, fu_add_file-Isolates,
  fu_free_file_data-Isolates,
}
use lso_baldini.Server.Isolation.{Isolates, isolates_put, isolates_stable}
use lso_baldini.Server.Keeps.Mutexes.{
  stable_order, keep_unlock_file, keep_lock_storage, keep_unlock_storage,
}
use lso_baldini.Server.Keeps.Connection.{keep_respond, keep_sapi_respond, keep_read}
use lso_baldini.Server.Keeps.{
  Keeps, KeepsAt, keep_bind, keep_pure, keep_if, keep_ask, keep_load_alone, keep_on_storage, at_of,
  at_bind, at_then, at_on_storage, keep_exit,
}
use lso_baldini.Server.Open.{opened, new_address, free_file, open_new}
use lso_baldini.Server.Requests.Writing.{keep_serve}
use lso_baldini.Server.Requests.{Serves}
use lso_baldini.Server.Serve.{serve}
use lso_baldini.Server.World.{
  World, pure, sapi_respond, unlock_file, unlock_storage, save, server_respond, ◌>>◌, ◌>>=◌,
}
use lso_baldini.Server.Write.{receive, store_bytes}
use lso_baldini.Storage.Addition.{new_file}
use lso_baldini.Storage.{
  FileData, Storage, fu_alloc_file_data, fu_add_file, fu_free_file_data, fu_writefile,
  fu_storage_bytes_available, fu_storage_files_available,
}

module _ (client : ℕ) where
  opened-client : (message : ℕ) (f : FileData) → (opened message client f).client ≡ pos client
  opened-client message f = elim (Bool-cases (locks message)) [
    | inl e ↦ rw e refl
    | inr e ↦ rw e refl
  ]

  free_outcome :
      (w : World) (x : Run Storage)
      → Ensures (Isolates client w.storage) x
      → Ensures
          (λ (r : Unit {0} × World). Isolates client w.storage r.1.storage)
          (elim x [
            | ret s ↦ ret (tt, record w { storage = s })
            | blocked ↦ blocked
            | exited ↦ exited
            | fault ↦ fault
          ])
  free_outcome w (ret s) h = h
  free_outcome w blocked h = tt
  free_outcome w exited h = tt
  free_outcome w fault h = tt

  free_file-Isolates : (p : ℕ) → Keeps (Isolates client) (free_file p)
  free_file-Isolates p = record {
    run = λ w.
        free_outcome w (fu_free_file_data w.storage p)
          (fu_free_file_data-Isolates client w.storage p);
  }

  new_address-Isolates : Keeps (Isolates client) new_address
  unfolding fu_alloc_file_data
  new_address-Isolates =
      keep_on_storage (λ s. ret (fu_alloc_file_data s))
        (λ s. isolates_put client s s.next new_file (inr (0, refl)))

  save-Isolates :
      (p : ℕ) (f : FileData) → f.client ≡ pos client → Keeps (Isolates client) (save p f)
  save-Isolates p f own = record { run = λ w. isolates_put client w.storage p f (inl own) }

  give_up :
      (p : ℕ)
      → Keeps
          (Isolates client)
          (unlock_storage >> (free_file p >> sapi_respond sapi_failure client minus_one))
  give_up p =
      keep_bind keep_unlock_storage
        λ _. keep_bind (free_file-Isolates p) λ _. keep_sapi_respond sapi_failure client minus_one

  open_new-Isolates :
      (message : ℕ) (path : Bytes) → Keeps (Isolates client) (open_new message client path)
  unfolding open_new
  open_new-Isolates message path = keep_bind new_address-Isolates λ p.
      keep_bind (keep_load_alone p) λ f.
        keep_bind (save-Isolates p (opened message client f) (opened-client message f)) λ _.
          keep_bind keep_lock_storage λ _. keep_bind (keep_ask fu_storage_bytes_available) λ bytes.
            keep_bind (keep_ask fu_storage_files_available) λ files.
              keep_if (bytes == 0 || files == 0) (give_up p) (
                keep_bind
                  (keep_on_storage (λ s. fu_add_file s p path)
                    (λ s. fu_add_file-Isolates client s p path))
                  λ result. keep_if (not (is_zero result)) (give_up p) (
                    keep_bind keep_unlock_storage
                      λ _. keep_sapi_respond sapi_success client (pos 0)))

  Unshared-trans :
      (s t : Storage) (p : ℕ) → Unshared client s p → Isolates client s t → Unshared client t p
  Unshared-trans s t p own i f d e owner = elim (Bool-cases (d == client)) [
    | inl same ↦ (==_iff d client).0 same
    | inr other ↦
        let (g, e', owner', content) = i p d f (λ h. cc ((==_iff d client).1 h)) e owner in
        own g d e' owner'
  ]

  -- A file that was the client's is no other client's later.
  Unshared-later :
      (s t : Storage) (p : ℕ) (f : FileData)
      → s.heap p ≡ some f
      → f.client ≡ pos client
      → Isolates client s t
      → Unshared client t p
  Unshared-later s t p f e own i =
      Unshared-trans s t p (λ g d e' own'. ground (arith, e, own, e', own')) i

  store_bytes-Isolates :
      (append : Bool) (p n : ℕ) (buffer : Option Bytes) (w : World)
      → Unshared client w.storage p
      → KeepsAt (Isolates client) w (store_bytes append client p n buffer)
  unfolding store_bytes
  store_bytes-Isolates append p n buffer w own = at_bind (keep_load_alone p) λ f w' i.
      at_then
        (at_on_storage (λ s. fu_writefile s p (if append then f.data_len else 0) buffer n)
          (fu_writefile-Isolates client w'.storage p (if append then f.data_len else 0) buffer n
            (Unshared-trans w.storage w'.storage p own i)))
        λ result.
          keep_if (not (is_zero result))
            (keep_bind (keep_unlock_file p)
              λ _. keep_bind (keep_respond sapi_failure client) λ _. keep_pure (pos 1))
            (keep_bind (keep_respond sapi_success client) λ failed.
              keep_bind (keep_unlock_file p)
                λ _. keep_if failed (keep_pure (pos 1)) (keep_pure (pos 0)))

  refuse-Isolates :
      (p : ℕ)
      → Keeps
          (Isolates client)
          (unlock_file p >> (server_respond sapi_failure client >>= λ _. pure (pos 1)))
  refuse-Isolates p =
      keep_bind (keep_unlock_file p)
        λ _. keep_bind (keep_respond sapi_failure client) λ _. keep_pure (pos 1)

  receive-Isolates :
      (append : Bool) (p n : ℕ) (w : World)
      → Unshared client w.storage p
      → KeepsAt (Isolates client) w (receive append client p n)
  unfolding receive
  receive-Isolates append p n w own = elim (allocation-cases (mu_calloc n)) [
    | inl e ↦ rw (receive, e) (at_of keep_exit w)
    | inr (inl e) ↦
        rw (receive, e)
          (at_bind (keep_read n) (elim [
            | none ↦ λ w' i. at_of (refuse-Isolates p) w'
            | some bs ↦ λ w' i.
                store_bytes-Isolates append p n none w'
                  (Unshared-trans w.storage w'.storage p own i)
          ]))
    | inr (inr e) ↦
        rw (receive, e)
          (at_bind (keep_read n) (elim [
            | none ↦ λ w' i. at_of (refuse-Isolates p) w'
            | some bs ↦ λ w' i.
                store_bytes-Isolates append p n (some (bs ++ replicate (n - length bs) 0)) w'
                  (Unshared-trans w.storage w'.storage p own i)
          ]))
  ]

  Serves-Isolates : Serves (Isolates client) client
  Serves-Isolates = record {
    edit = λ s p f f' e own len same owner. isolates_put client s p f' owner;
    create = open_new-Isolates;
    remove = λ s path. fu_remove_file-Isolates client s path;
    put = λ s w p f append n e own i.
        receive-Isolates append p n w
          (Unshared-later s w.storage p f e (eq_ℤ_sound f.client (pos client) own) i);
  }

-- Whatever a client requests and sends, where the handler returns, every file that another client
-- owns then was owned by that client before, with the same content: no request changes the content of
-- a file that stays another client's, and none makes another client the owner of a file.
pub serve-Isolates :
    (request client : ℕ) (w : World)
    → Ensures (λ (r : ℤ × World). Isolates client w.storage r.1.storage) (serve request client w)
serve-Isolates request client w = (keep_serve client (Serves-Isolates client) request).run w
