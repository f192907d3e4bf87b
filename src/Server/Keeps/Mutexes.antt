-- ===== src/Server/Keeps/Mutexes.antt =====
-- The rules of `Keeps` for the mutexes of src/server.c.
use lso_baldini.Common.{ℕ, Bool, true, false, Option, none, some, if◌then◌else◌, ◌≡◌, refl}
use lso_baldini.Run.{ret, blocked, fault, Ensures}
use lso_baldini.Storage.{FileData, Storage, store}
use lso_baldini.Server.World.{World, lock_storage, unlock_storage, lock_file, unlock_file}
use lso_baldini.Server.Keeps.{Order, Keeps}

-- A relation that is kept by the changes that every handler makes: of a mutex and of `data_info`.
pub record Stable (R : Storage → Storage → Type 0) : Type 0 where
  pub order : Order R
  pub flag : (s : Storage) (b : Bool) → R s (record s { locked = b })
  pub mark :
      (s : Storage) (p : ℕ) (f : FileData) (b : Bool)
      → s.heap p ≡ some f
      → R s (store s p (record f { locked = b }))
  pub info :
      (s : Storage) (p : ℕ) (f : FileData) (n : ℕ)
      → s.heap p ≡ some f
      → R s (store s p (record f { data_info = n }))

instance abbrev pub stable_order : {R : Storage → Storage → Type 0} ⦃stable : Stable R⦄ → Order R
stable_order ⦃stable⦄ = stable.order

module _ (R : Storage → Storage → Type 0) ⦃ord : Stable R⦄ where
  lock_outcome :
      (w : World) (held : Bool)
      → Ensures
          (λ (r : Unit {0} × World). R w.storage r.1.storage)
          (if held
            then blocked
            else ret (tt, record w { storage = record (w.storage) { locked = true } }))
  lock_outcome w true = tt
  lock_outcome w false = ord.flag w.storage true

  lock_file_outcome :
      (w : World) (p : ℕ) (o : Option FileData)
      → w.storage.heap p ≡ o
      → Ensures
          (λ (r : Unit {0} × World). R w.storage r.1.storage)
          (elim o [
            | none ↦ fault
            | some f ↦
                if f.locked
                then blocked
                else ret (tt, record w { storage = store w.storage p (record f { locked = true }) })
          ])
  lock_file_outcome w p none e = tt
  lock_file_outcome w p (some f) e =
      elim (f.locked)
        as (λ b.
          Ensures (λ (r : Unit {0} × World). R w.storage r.1.storage)
            (if b
              then blocked
              else ret
                  (tt, record w { storage = store w.storage p (record f { locked = true }) }))) [
                    | true ↦ tt
                    | false ↦ ord.mark w.storage p f true e
                  ]

  unlock_file_outcome :
      (w : World) (p : ℕ) (o : Option FileData)
      → w.storage.heap p ≡ o
      → Ensures
          (λ (r : Unit {0} × World). R w.storage r.1.storage)
          (elim o [
            | none ↦ fault
            | some f ↦
                ret (tt, record w { storage = store w.storage p (record f { locked = false }) })
          ])
  unlock_file_outcome w p none e = tt
  unlock_file_outcome w p (some f) e = ord.mark w.storage p f false e

module _ {R : Storage → Storage → Type 0} ⦃ord : Stable R⦄ where
  pub keep_lock_storage : Keeps R lock_storage
  keep_lock_storage = record { run = λ w. lock_outcome R w w.storage.locked }

  pub keep_unlock_storage : Keeps R unlock_storage
  keep_unlock_storage = record { run = λ w. ord.flag w.storage false }

  pub keep_lock_file : (p : ℕ) → Keeps R (lock_file p)
  keep_lock_file p = record { run = λ w. lock_file_outcome R w p (w.storage.heap p) refl }

  pub keep_unlock_file : (p : ℕ) → Keeps R (unlock_file p)
  keep_unlock_file p = record { run = λ w. unlock_file_outcome R w p (w.storage.heap p) refl }
