-- ===== src/Server/Keeps.antt =====
-- Rules for what the handlers of src/server.c do to the storage: a relation between the storage before
-- and after that is kept by the parts of a `do` block is kept by the block.
pub mod Connection
pub mod Mutexes
use lso_baldini.Common.{
  ℕ, List, [], ◌∷◌, Bool, true, false, Option, none, some, if◌then◌else◌, take, ◌++◌, ◌+◌, length,
  ℤ, pos, minus_one, ◌≡◌, refl, ◌==◌, ◌||◌, not, ◌≤◌, take-le, arith,
}
use lso_baldini.CString.{Bytes, c_string}
use lso_baldini.Memory.{mu_calloc, exits, null, block, Allocation}
use lso_baldini.Message.{len_of}
use lso_baldini.Run.{Run, ret, blocked, exited, fault, Ensures}
use lso_baldini.Storage.{FileData, Storage, store}
use lso_baldini.Server.World.{
  World, M, pure, ◌>>=◌, ◌>>◌, on_storage, ask, lock_storage, unlock_storage, load, save, lock_file,
  unlock_file, read, write, Frame, server_respond, sapi_respond, server_get_path, uninit_size,
  server_get_len, exit_process, unless_exit, overwrite, le_decode, server_send_path,
  server_send_data,
}

-- What the rules for sequences need of a relation.
pub record Order (R : Storage → Storage → Type 0) : Type 0 where
  pub reflexive : (s : Storage) → R s s
  pub transitive : (s t u : Storage) → R s t → R t u → R s u

-- Wherever `m` returns, the storage is related to the one before.
pub record Keeps (R : Storage → Storage → Type 0) {A : Type 0} (m : M A) : Type 0 where
  pub run : (w : World) → Ensures (λ r. R w.storage r.1.storage) (m w)

-- The same in one world.
pub record KeepsAt (R : Storage → Storage → Type 0) (w : World) {A : Type 0} (m : M A)
    : Type 0 where
  pub run : Ensures (λ r. R w.storage r.1.storage) (m w)

module _ (R : Storage → Storage → Type 0) ⦃ord : Order R⦄ where
  pub ensures_bind :
      {A B : Type 0} (m : M A) (k : A → M B) (w : World)
      → Ensures (λ r. R w.storage r.1.storage) (m w)
      → ((a : A) (w' : World)
          → m w ≡ ret (a, w')
          → Ensures (λ r. R w'.storage r.1.storage) (k a w'))
      → Ensures (λ r. R w.storage r.1.storage) ((m >>= k) w)
  ensures_bind {A} {B} m k w h next = go (m w) refl h
    where
      weaken :
          (w' : World) (x : Run (B × World))
          → R w.storage w'.storage
          → Ensures (λ r. R w'.storage r.1.storage) x
          → Ensures (λ r. R w.storage r.1.storage) x
      weaken w' (ret r) a b = ord.transitive _ _ _ a b
      weaken w' blocked a b = tt
      weaken w' exited a b = tt
      weaken w' fault a b = tt

      go :
          (x : Run (A × World))
          → m w ≡ x
          → Ensures (λ r. R w.storage r.1.storage) x
          → Ensures
              (λ r. R w.storage r.1.storage)
              (elim x [
                | ret (a, w') ↦ k a w'
                | blocked ↦ blocked
                | exited ↦ exited
                | fault ↦ fault
              ])
      go (ret (a, w')) e b = weaken w' (k a w') b (next a w' e)
      go blocked e b = tt
      go exited e b = tt
      go fault e b = tt

  load_alone :
      (w : World) (o : Option FileData)
      → Ensures
          (λ (r : FileData × World). R w.storage r.1.storage)
          (elim o [ none ↦ fault | some f ↦ ret (f, w) ])
  load_alone w none = tt
  load_alone w (some f) = ord.reflexive w.storage

  load_outcome :
      {A : Type 0} (w : World) (p : ℕ) (k : FileData → M A)
      → ((f : FileData) (w : World)
          → w.storage.heap p ≡ some f
          → Ensures (λ r. R w.storage r.1.storage) (k f w))
      → (o : Option FileData) → w.storage.heap p ≡ o
      → Ensures
          (λ r. R w.storage r.1.storage)
          (elim (let x : Run (FileData × World) = elim o [ none ↦ fault | some f ↦ ret (f, w) ] in
            x) [ ret (a, w') ↦ k a w' | blocked ↦ blocked | exited ↦ exited | fault ↦ fault ])
  load_outcome w p k h none e = tt
  load_outcome w p k h (some f) e = h f w e

  storage_outcome :
      {A : Type 0} (w : World) (x : Run (A × Storage))
      → Ensures (λ r. R w.storage r.1) x
      → Ensures
          (λ (r : A × World). R w.storage r.1.storage)
          (elim x [
            | ret (a, s) ↦ ret (a, record w { storage = s })
            | blocked ↦ blocked
            | exited ↦ exited
            | fault ↦ fault
          ])
  storage_outcome w (ret (a, s)) h = h
  storage_outcome w blocked h = tt
  storage_outcome w exited h = tt
  storage_outcome w fault h = tt

module _ {R : Storage → Storage → Type 0} ⦃ord : Order R⦄ where
  pub keep_bind :
      {A B : Type 0} {m : M A} {k : A → M B}
      → Keeps R m
      → ((a : A) → Keeps R (k a))
      → Keeps R (m >>= k)
  keep_bind {m = m} {k = k} h next = record {
    run = λ w. ensures_bind R m k w (h.run w) (λ a w' _. (next a).run w');
  }

  pub keep_pure : {A : Type 0} (a : A) → Keeps R (pure a)
  keep_pure a = record { run = λ w. ord.reflexive w.storage }

  pub keep_if :
      {A : Type 0} (b : Bool) {m n : M A} → Keeps R m → Keeps R n → Keeps R (if b then m else n)
  keep_if true h k = h
  keep_if false h k = k

  pub keep_ask : {A : Type 0} (f : Storage → A) → Keeps R (ask f)
  keep_ask f = record { run = λ w. ord.reflexive w.storage }

  pub keep_exit : {A : Type 0} → Keeps R {A = A} exit_process
  keep_exit = record { run = λ w. tt }

  pub keep_unless_exit :
      {A : Type 0} (a : Allocation) {m : M A} → Keeps R m → Keeps R (unless_exit a m)
  keep_unless_exit exits h = keep_exit
  keep_unless_exit null h = h
  keep_unless_exit block h = h

  -- A call that works on the storage.
  pub keep_on_storage :
      {A : Type 0} (op : Storage → Run (A × Storage))
      → ((s : Storage) → Ensures (λ r. R s r.1) (op s))
      → Keeps R (on_storage op)
  keep_on_storage op h = record { run = λ w. storage_outcome R w (op w.storage) (h w.storage) }

  pub at_of : {A : Type 0} {m : M A} → Keeps R m → (w : World) → KeepsAt R w m
  at_of h w = record { run = h.run w }

  pub at_if :
      {A : Type 0} {w : World} (b : Bool) {m n : M A}
      → KeepsAt R w m
      → KeepsAt R w n
      → KeepsAt R w (if b then m else n)
  at_if true h k = h
  at_if false h k = k

  -- A branch that is taken where a test holds.
  pub at_unless :
      {A : Type 0} {w : World} (b : Bool) {m n : M A}
      → Keeps R m
      → (b ≡ true → KeepsAt R w n)
      → KeepsAt R w (if not b then m else n)
  at_unless {w = w} true h k = k refl
  at_unless {w = w} false h k = at_of h w

  pub at_save :
      {A : Type 0} {w : World} (p : ℕ) (f : FileData) {k : M A}
      → R w.storage (store w.storage p f)
      → Keeps R k
      → KeepsAt R w (save p f >> k)
  at_save {w = w} p f {k = k} h next = record {
    run = ensures_bind R (save p f) (λ _. k) w h (λ a w' _. next.run w');
  }

  -- What follows a load knows the file.
  pub keep_load :
      {A : Type 0} (p : ℕ) {k : FileData → M A}
      → ((f : FileData) (w : World) → w.storage.heap p ≡ some f → KeepsAt R w (k f))
      → Keeps R (load p >>= k)
  keep_load p {k = k} h = record {
    run = λ w. load_outcome R w p k (λ f w' e. (h f w' e).run) (w.storage.heap p) refl;
  }

  -- What follows a call knows how the storages before and after it are related.
  pub at_bind :
      {A B : Type 0} {w : World} {m : M A} {k : A → M B}
      → Keeps R m
      → ((a : A) (w' : World) → R w.storage w'.storage → KeepsAt R w' (k a))
      → KeepsAt R w (m >>= k)
  at_bind {A} {w = w} {m = m} {k = k} h next = record {
    run =
        ensures_bind R m k w (h.run w)
          λ a w' e. (next a w' (related (m w) (a, w') e (h.run w))).run;
  }
    where
      related :
          (x : Run (A × World)) (r : A × World)
          → x ≡ ret r
          → Ensures (λ y. R w.storage y.1.storage) x
          → R w.storage r.1.storage
      related x r e h = rw e at h

  pub at_on_storage :
      {A : Type 0} {w : World} (op : Storage → Run (A × Storage))
      → Ensures (λ r. R w.storage r.1) (op w.storage)
      → KeepsAt R w (on_storage op)
  at_on_storage {w = w} op h = record { run = storage_outcome R w (op w.storage) h }

  pub at_then :
      {A B : Type 0} {w : World} {m : M A} {k : A → M B}
      → KeepsAt R w m
      → ((a : A) → Keeps R (k a))
      → KeepsAt R w (m >>= k)
  at_then {w = w} {m = m} {k = k} h next = record {
    run = ensures_bind R m k w h.run (λ a w' _. (next a).run w');
  }

  pub keep_load_alone : (p : ℕ) → Keeps R (load p)
  keep_load_alone p = record { run = λ w. load_alone R w (w.storage.heap p) }
