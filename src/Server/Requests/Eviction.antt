-- ===== src/Server/Requests/Eviction.antt =====
-- `server_evict` (src/server.c), for any relation between storages that its steps keep.
use lso_baldini.Arr.{Arr, au_slots}
use lso_baldini.CString.{Bytes}
use lso_baldini.Common.{
  ℕ, List, [], ◌∷◌, Bool, true, false, Option, none, some, if◌then◌else◌, pos, minus_one, ◌≡◌, refl,
  ◌==◌, ◌&&◌, not, eq_ℤ, ◌⊎◌, inl, inr, ltb, ◌-◌, ap, ◌∙◌, arith,
}
use lso_baldini.Message.{sapi_success, sapi_failure, sapi_evict}
use lso_baldini.Run.{Run, ret, blocked, exited, fault, Ensures}
use lso_baldini.Server.Evict.{send_back, remove_path, evict_loop, evict_files, server_evict}
use lso_baldini.Server.Keeps.Mutexes.{Stable, stable_order, keep_lock_file, keep_unlock_file}
use lso_baldini.Server.Keeps.Connection.{
  keep_respond, keep_sapi_respond, keep_get_len, keep_send_path, keep_send_data,
}
use lso_baldini.Server.Keeps.{
  Order, Keeps, KeepsAt, keep_bind, keep_pure, keep_if, keep_load, keep_on_storage, at_of, at_if,
  at_save, ensures_bind,
}
use lso_baldini.Server.Requests.{Serves}
use lso_baldini.Server.World.{World, M, ◌>>=◌, ◌>>◌, lock_file}
use lso_baldini.Storage.Eviction.{fu_evict_files}
use lso_baldini.Storage.{FileData, Storage, fu_remove_file}

-- Sending changes nothing in the storage.
abbrev pub IsSame : Storage → Storage → Type 0
IsSame s t = t ≡ s

instance pub same_order : Order IsSame
same_order = record { reflexive = λ s. refl; transitive = λ s t u e d. d ∙ e }

pub keep_send_back : (client : ℕ) (f : FileData) → Keeps IsSame (send_back client f)
unfolding send_back
keep_send_back client f = keep_bind (keep_respond sapi_evict client) λ failed.
    keep_if failed (keep_pure true) (
      keep_bind (keep_send_path client f.path)
        λ _. keep_bind (keep_send_data client f.content f.data_len) λ _. keep_pure false)

module _ {R : Storage → Storage → Type 0} ⦃ord : Order R⦄ where
  -- What follows a call that does not touch the storage finds it as it was.
  pub at_io :
      {A B : Type 0} {w : World} {m : M A} {k : A → M B}
      → Keeps IsSame m
      → ((a : A) (w' : World) → w'.storage ≡ w.storage → KeepsAt R w' (k a))
      → KeepsAt R w (m >>= k)
  at_io {A} {B} {w = w} {m = m} {k = k} h next = record { run = go (m w) (h.run w) }
    where
      onward :
          (w' : World) (x : Run (B × World))
          → w'.storage ≡ w.storage
          → Ensures (λ r. R w'.storage r.1.storage) x
          → Ensures (λ r. R w.storage r.1.storage) x
      onward w' x e h = rw e at h

      go :
          (x : Run (A × World))
          → Ensures (λ r. IsSame w.storage r.1.storage) x
          → Ensures
              (λ r. R w.storage r.1.storage)
              (elim x [
                | ret (a, w') ↦ k a w'
                | blocked ↦ blocked
                | exited ↦ exited
                | fault ↦ fault
              ])
      go (ret (a, w')) e = onward w' (k a w') e (next a w' e).run
      go blocked e = tt
      go exited e = tt
      go fault e = tt

  -- The branch of `if (file->client != a && file->client != b)` that is not left early.
  pub at_owned :
      {A : Type 0} {w : World} (a b : Bool) {m n : M A}
      → KeepsAt R w m
      → ((a ≡ true) ⊎ (b ≡ true) → KeepsAt R w n)
      → KeepsAt R w (if not a && not b then m else n)
  at_owned true b h k = k (inl refl)
  at_owned false true h k = k (inr refl)
  at_owned false false h k = h

pub lock_file_lem :
    (w : World) (p : ℕ) {f : FileData} {a : Unit {0}} {w' : World}
    → w.storage.heap p ≡ some f
    → lock_file p w ≡ ret (a, w')
    → w'.storage.heap p ≡ some (record f { locked = true })
lock_file_lem w p e e' = ground arith

module _ {R : Storage → Storage → Type 0} ⦃stable : Stable R⦄ where
  -- What follows a lock knows the file, now locked.
  pub at_lock :
      {A : Type 0} {w : World} (p : ℕ) {k : M A} {f : FileData}
      → w.storage.heap p ≡ some f
      → ((w' : World) → w'.storage.heap p ≡ some (record f { locked = true }) → KeepsAt R w' k)
      → KeepsAt R w (lock_file p >> k)
  at_lock {w = w} p {k = k} {f = f} e next = record {
    run =
        ensures_bind R (lock_file p) (λ _. k) w ((keep_lock_file {R = R} p).run w)
          λ a w' e'. (next w' (lock_file_lem w p e e')).run;
  }

module _ {R : Storage → Storage → Type 0} ⦃stable : Stable R⦄ (client : ℕ)
    (h : Serves R client) where
  keep_remove_path : (path : Option Bytes) → Keeps R (remove_path path)
  unfolding remove_path
  keep_remove_path none = keep_pure minus_one
  keep_remove_path (some path) = keep_on_storage (λ s. fu_remove_file s path) (λ s. h.remove s path)

  keep_evict_loop :
      (back : Bool) (bytes : ℕ) (ps : List ℕ) → Keeps R (evict_loop client back bytes ps)
  unfolding evict_loop
  keep_evict_loop back bytes [] = keep_pure (some bytes)
  keep_evict_loop back bytes (p ∷ ps) = keep_if (bytes == 0) (keep_pure (some 0)) (
      keep_load p λ f w e. at_if f.locked (at_of (keep_evict_loop back bytes ps) w) (
        at_lock p e λ w' e'.
          at_owned (eq_ℤ f.client minus_one) (eq_ℤ f.client (pos client))
            (at_of (keep_bind (keep_unlock_file p) λ _. keep_evict_loop back bytes ps) w')
            λ own.
              at_io (keep_if back (keep_send_back client f) (keep_pure false)) λ failed w'' same.
                at_if failed (at_of (keep_pure none) w'') (
                  at_save p _
                    (h.edit _ p (record f { locked = true }) _
                      (ap (λ (s : Storage). s.heap p) same ∙ e') own refl refl (inr (1, refl)))
                    (keep_bind (keep_remove_path f.path) λ _.
                      keep_evict_loop back (if ltb bytes f.data_len then 0 else bytes - f.data_len)
                        ps))))

  evict_files_outcome :
      (w : World) (x : Run (Arr ℕ))
      → Ensures
          (λ (r : Arr ℕ × World). R w.storage r.1.storage)
          (elim x [ ret a ↦ ret (a, w) | blocked ↦ blocked | exited ↦ exited | fault ↦ fault ])
  evict_files_outcome w (ret a) = stable.order.reflexive w.storage
  evict_files_outcome w blocked = tt
  evict_files_outcome w exited = tt
  evict_files_outcome w fault = tt

  pub keep_server_evict : (bytes : ℕ) → Keeps R (server_evict client bytes)
  unfolding server_evict
  keep_server_evict bytes =
      keep_bind {m = evict_files bytes}
        (record { run = λ w. evict_files_outcome w (fu_evict_files w.storage bytes) })
        λ a. keep_if (a.len == 0) (keep_pure minus_one) (
          keep_bind (keep_respond sapi_evict client) λ failed.
            keep_if failed (keep_pure minus_one) (
              keep_bind (keep_get_len client) λ answer.
                keep_bind (keep_evict_loop (not (answer == 0)) bytes (au_slots 0 a)) (elim [
                  | none ↦ keep_pure minus_one
                  | some n ↦
                      keep_if (n == 0) (keep_sapi_respond sapi_success client (pos 0))
                        (keep_sapi_respond sapi_failure client minus_one)
                ])))
