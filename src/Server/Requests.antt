-- ===== src/Server/Requests.antt =====
-- The handlers of src/server.c that neither evict nor remove, for any relation between storages that
-- their steps keep.
pub mod Eviction
pub mod Writing
use lso_baldini.CString.{Bytes}
use lso_baldini.Common.{
  ℕ, negsuc, List, [], ◌∷◌, Bool, true, false, Option, none, some, if◌then◌else◌, ℤ, pos, minus_one,
  ◌≡◌, refl, ◌==◌, ◌||◌, ◌&&◌, not, arith, eq_ℤ, ◌⊎◌, inl, inr, ltb, ◌-◌, ◌/◌, ◌%◌, ap, sym, ◌∙◌,
  Option-cases,
}
use lso_baldini.HashTable.{hu_get, hu_foreach}
use lso_baldini.Message.{
  creates, len_of, sapi_success, sapi_failure, sapi_fnf, sapi_locked, sapi_already, locks,
}
use lso_baldini.Run.{Run, ret, Ensures, deref, ◌>>=◌ as bind_run}
use lso_baldini.Server.Close.{close_stored, server_close_file, server_lock_file, server_unlock_file}
use lso_baldini.Server.Keeps.Connection.{
  keep_respond, keep_sapi_respond, keep_get_path, keep_send_path, keep_send_data, keep_write,
}
use lso_baldini.Server.Keeps.{
  Keeps, keep_bind, keep_pure, keep_if, keep_ask, keep_load, keep_on_storage, KeepsAt, at_of, at_if,
  at_unless, at_save,
}
use lso_baldini.Server.Keeps.Mutexes.{
  Stable, stable_order, keep_lock_storage, keep_unlock_storage, keep_lock_file, keep_unlock_file,
}
use lso_baldini.Server.Open.{opened, open_stored, open_new, server_open_file}
use lso_baldini.Server.Read.{read_stored, server_read_file}
use lso_baldini.Server.ReadMany.{read_many_end, send_file, read_many, server_read_n_files}
use lso_baldini.Server.World.{
  World, M, Frame, on_storage, unlock_storage, sapi_respond, ◌>>◌, ◌>>=◌,
}
use lso_baldini.Server.Write.{receive}
use lso_baldini.Storage.PathKey.{path_key}
use lso_baldini.Storage.{FileData, Storage, store, uint_add, fu_getfile, fu_remove_file}

-- What a relation must allow so that every request of the client keeps it: a change of the owner of a
-- file that nobody else owns, a new file, a removal, and the write to a file that the client owned
-- when its request was checked.
pub record Serves (R : Storage → Storage → Type 0) (client : ℕ) : Type 0 where
  pub edit :
      (s : Storage) (p : ℕ) (f f' : FileData)
      → s.heap p ≡ some f
      → (eq_ℤ f.client minus_one ≡ true) ⊎ (eq_ℤ f.client (pos client) ≡ true)
      → f'.data_len ≡ f.data_len
      → f'.content ≡ f.content
      → (f'.client ≡ pos client) ⊎ ((n : ℕ) × (f'.client ≡ negsuc n))
      → R s (store s p f')
  pub create : (message : ℕ) (path : Bytes) → Keeps R (open_new message client path)
  pub remove : (s : Storage) (path : Bytes) → Ensures (λ r. R s r.1) (fu_remove_file s path)
  pub put :
      (s : Storage) (w : World) (p : ℕ) (f : FileData) (append : Bool) (n : ℕ)
      → s.heap p ≡ some f
      → eq_ℤ f.client (pos client) ≡ true
      → R s w.storage
      → KeepsAt R w (receive append client p n)

module _ (R : Storage → Storage → Type 0) ⦃ord : Stable R⦄ where
  touch_outcome :
      (s : Storage) (p : ℕ) (o : Option FileData)
      → s.heap p ≡ o
      → Ensures
          (λ (r : Option ℕ × Storage). R s r.1)
          (bind_run
            (deref o)
            (λ f. ret (some p, store s p (record f { data_info = uint_add f.data_info 1 }))))
  touch_outcome s p none e = tt
  touch_outcome s p (some f) e = ord.info s p f (uint_add f.data_info 1) e

  pub getfile_outcome :
      (s : Storage) (o : Option ℕ)
      → Ensures
          (λ (r : Option ℕ × Storage). R s r.1)
          (elim o [
            | none ↦ ret (none, s)
            | some p ↦
                bind_run
                  (deref (s.heap p))
                  (λ f. ret (some p, store s p (record f { data_info = uint_add f.data_info 1 })))
          ])
  getfile_outcome s none = ord.order.reflexive s
  getfile_outcome s (some p) = touch_outcome s p (s.heap p) refl

module _ {R : Storage → Storage → Type 0} ⦃ord : Stable R⦄ where
  pub keep_getfile : (path : Bytes) → Keeps R (on_storage (λ s. fu_getfile s path))
  unfolding fu_getfile
  keep_getfile path =
      keep_on_storage (λ s. fu_getfile s path) (λ s. getfile_outcome R s (hu_get s.table path))

  pub keep_read_stored : (client p : ℕ) → Keeps R (read_stored client p)
  unfolding read_stored
  keep_read_stored client p = keep_bind (keep_lock_file p) λ _. keep_load p λ f w e.
      at_if _
        (at_of (keep_bind (keep_unlock_file p) λ _. keep_sapi_respond sapi_locked client (pos 3)) w)
        (at_of
          (keep_bind (keep_respond sapi_success client) λ failed.
            keep_if failed (keep_pure minus_one) (
              keep_bind (keep_send_data client f.content f.data_len)
                λ _. keep_bind (keep_unlock_file p) λ _. keep_pure (pos 0)))
          w)

  pub keep_server_read_file : (message client : ℕ) → Keeps R (server_read_file message client)
  unfolding server_read_file
  keep_server_read_file message client =
      keep_if (message == 0 || client == 0) (keep_pure minus_one) (
        keep_bind (keep_get_path message client) (elim [
          | none ↦ keep_sapi_respond sapi_failure client (pos 1)
          | some name ↦ keep_bind (keep_getfile name) (elim [
            | none ↦ keep_sapi_respond sapi_fnf client (pos 1)
            | some p ↦ keep_read_stored client p
          ])
        ]))

  keep_send_file : (client : ℕ) (name : Bytes) (p : ℕ) → Keeps R (send_file client name p)
  unfolding send_file
  keep_send_file client name p = keep_load p λ f w e.
      at_if _
        (at_save p _ (ord.info _ p f _ e) (
          keep_bind (keep_send_path client (some name)) λ no_path.
            keep_if no_path (keep_pure none) (
              keep_bind (keep_send_data client f.content f.data_len)
                λ no_data. keep_if no_data (keep_pure none) (keep_pure (some 1)))))
        (at_of (keep_pure (some 0)) w)

  keep_read_many_end : Keeps R read_many_end
  unfolding read_many_end
  keep_read_many_end = keep_bind keep_unlock_storage λ _.
      keep_bind (keep_write (Frame.size 0))
        λ failed. keep_if failed (keep_pure minus_one) (keep_pure (pos 0))

  keep_read_many : (client n : ℕ) (items : List (Bytes × ℕ)) → Keeps R (read_many client n items)
  unfolding read_many
  keep_read_many client n [] = keep_read_many_end
  keep_read_many client n (e ∷ items) = keep_if (n == 0) keep_read_many_end (
      keep_load e.1 λ f w h. at_if f.locked (at_of (keep_read_many client n items) w) (
        at_of
          (keep_bind (keep_lock_file e.1) λ _. keep_bind (keep_send_file client e.0 e.1) λ done.
            keep_bind (keep_unlock_file e.1)
              λ _. after_send client n e items done (λ m. keep_read_many client m items))
          w))
    where
      after_send :
          (client n : ℕ) (e : Bytes × ℕ) (items : List (Bytes × ℕ)) (done : Option ℕ)
          → ((m : ℕ) → Keeps R (read_many client m items))
          → Keeps R (elim done [
            | none ↦ unlock_storage >> sapi_respond sapi_failure client minus_one
            | some k ↦ read_many client (n - k) items
          ])
      after_send client n e items none h =
          keep_bind keep_unlock_storage λ _. keep_sapi_respond sapi_failure client minus_one
      after_send client n e items (some k) h = h (n - k)

  pub keep_server_read_n_files : (message client : ℕ) → Keeps R (server_read_n_files message client)
  unfolding server_read_n_files
  keep_server_read_n_files message client =
      keep_if (message == 0 || client == 0) (keep_pure minus_one) (
        keep_bind keep_lock_storage
          λ _. keep_bind (keep_ask _) λ items. keep_read_many client (len_of message) items)

opened-client : (message client : ℕ) (f : FileData) → (opened message client f).client ≡ pos client
opened-client message client f = ground arith

opened-rest :
    (message client : ℕ) (f : FileData)
    → ((opened message client f).data_len ≡ f.data_len)
      × ((opened message client f).content ≡ f.content)
opened-rest message client f = ground arith

module _ {R : Storage → Storage → Type 0} ⦃stable : Stable R⦄ (client : ℕ)
    (h : Serves R client) where
  keep_close_stored : (p : ℕ) → Keeps R (close_stored client p)
  unfolding close_stored
  keep_close_stored p = keep_bind (keep_lock_file p) λ _. keep_load p λ f w e.
      at_unless (eq_ℤ f.client (pos client))
        (keep_bind (keep_unlock_file p) λ _. keep_sapi_respond sapi_locked client (pos 1))
        λ own.
          at_save p _ (h.edit _ p f _ e (inr own) refl refl (inr (0, refl)))
            (keep_bind (keep_unlock_file p) λ _. keep_sapi_respond sapi_success client (pos 0))

  pub keep_server_close_file : (message : ℕ) → Keeps R (server_close_file message client)
  unfolding server_close_file
  keep_server_close_file message = keep_if (message == 0 || client == 0) (keep_pure minus_one) (
      keep_bind (keep_get_path message client) (elim [
        | none ↦ keep_sapi_respond sapi_failure client (pos 1)
        | some name ↦ keep_bind (keep_getfile name) (elim [
          | none ↦ keep_sapi_respond sapi_fnf client (pos 1)
          | some p ↦ keep_close_stored p
        ])
      ]))

  keep_open_stored : (message p : ℕ) → Keeps R (open_stored message client p)
  unfolding open_stored
  keep_open_stored message p = keep_bind (keep_lock_file p) λ _. keep_load p λ f w e.
      at_unless (eq_ℤ f.client minus_one)
        (keep_bind (keep_unlock_file p) λ _. keep_sapi_respond sapi_already client minus_one)
        λ unowned.
          let rest = opened-rest message client f in
          at_save p _
            (h.edit _ p f _ e (inl unowned) rest.0 rest.1 (inl (opened-client message client f)))
            (keep_bind (keep_unlock_file p) λ _. keep_sapi_respond sapi_success client (pos 0))

  pub keep_server_open_file : (message : ℕ) → Keeps R (server_open_file message client)
  unfolding server_open_file
  keep_server_open_file message = keep_if (message == 0 || client == 0) (keep_pure minus_one) (
      keep_bind (keep_get_path message client) (elim [
        | none ↦ keep_sapi_respond sapi_failure client minus_one
        | some name ↦ keep_bind (keep_getfile name) (elim [
          | none ↦
              keep_if (not (creates message)) (keep_sapi_respond sapi_fnf client minus_one)
                (h.create message name)
          | some p ↦ keep_open_stored message p
        ])
      ]))
