-- ===== src/Client/Ends.antt =====
-- Rules for what the client library (src/serverapi.c) reads: a computation that goes on for ever is
-- `blocked`, and one that does not ends with at most as many `read`s left as before.
pub mod Calls
pub mod Saving
use mathlib.Core.Path.{subst}
use lso_baldini.Common.{
  ℕ, suc, ◌+◌, ◌≤◌, ◌≡◌, refl, ap, sym, List, [], ◌∷◌, Bool, true, false, Option, none, some, ◌==◌,
  if◌then◌else◌, length, take, ℤ, pos, minus_one, arith, ◌≢◌, ◌++◌, not, ◌-◌, ◌%◌, ◌^◌, ◌||◌,
  replicate,
}
use lso_baldini.CString.{Bytes}
use lso_baldini.Disk.{Buffer}
use lso_baldini.Memory.{mu_realloc, Allocation, exits, null, block}
use lso_baldini.Run.{Settles, Run, ret, blocked, exited, fault}
use lso_baldini.UString.{resize, copy_at}
use lso_baldini.Message.{sapi_message_len}
use lso_baldini.Server.World.{Frame, overwrite, le_decode}
use lso_baldini.Client.{
  uninit_word, Session, C, pure, ◌>>=◌, lift, read, write, is_connected, write_disk, sapi_sendop,
  sapi_senddatalen, sapi_senddata, sapi_get_response, grow_path, sapi_get_path, get_block,
  sapi_get_data,
}

-- The computation does not go on for ever, and leaves at most `n` reads.
abbrev pub Within : {A : Type 0} → ℕ → Run (A × Session) → Type 0
Within n (ret (a, c)) = length c.reads ≤ n
Within n blocked = ⊥
Within n exited = Unit
Within n fault = Unit

pub limit_le : {A : Type 0} (m n : ℕ) (x : Run (A × Session)) → m ≤ n → Within m x → Within n x
limit_le m n (ret (a, c)) h k = omega (arith, h, k)
limit_le m n blocked h k = k
limit_le m n exited h k = tt
limit_le m n fault h k = tt

pub settled : {A : Type 0} (n : ℕ) (x : Run (A × Session)) → Within n x → x ≢ blocked
settled n (ret (a, c)) h = λ e. cc
settled n blocked h = absurd h
settled n exited h = λ e. cc
settled n fault h = λ e. cc

pub limit_bind :
    {A B : Type 0} (n : ℕ) (x : Run (A × Session)) (k : A → C B)
    → Within n x
    → ((a : A) (c : Session) → length c.reads ≤ n → Within n (k a c))
    → Within n (elim x [ ret (a, c) ↦ k a c | blocked ↦ blocked | exited ↦ exited | fault ↦ fault ])
limit_bind n (ret (a, c)) k h g = g a c h
limit_bind n blocked k h g = h
limit_bind n exited k h g = tt
limit_bind n fault k h g = tt

-- Wherever at most `n` reads are left, a computation ends, with at most as many left.
pub record Ends (n : ℕ) {A : Type 0} (m : C A) : Type 0 where
  pub run : (c : Session) → length c.reads ≤ n → Within n (m c)

pub end_pure : {n : ℕ} {A : Type 0} (a : A) → Ends n (pure a)
end_pure a = record { run = λ c h. h }

pub end_bind :
    {n : ℕ} {A B : Type 0} {m : C A} {k : A → C B}
    → Ends n m
    → ((a : A) → Ends n (k a))
    → Ends n (m >>= k)
end_bind {n} {A} {B} {m} {k} h g = record {
  run = λ c e. limit_bind n (m c) k (h.run c e) (λ a. (g a).run);
}

pub end_if :
    {n : ℕ} {A : Type 0} (b : Bool) {x y : C A} → Ends n x → Ends n y → Ends n (if b then x else y)
end_if true h k = h
end_if false h k = k

pub end_exited : {bound : ℕ} {A : Type 0} → Ends bound {A = A} (λ c. exited)
end_exited = record { run = λ c h. tt }

pub end_lift :
    {bound : ℕ} {A : Type 0} (r : Session → Run A)
    → ((c : Session) → Settles (r c))
    → Ends bound (lift r)
end_lift {bound} {A} r h = record { run = λ c e. go bound c (r c) (h c) e }
  where
    go :
        (n : ℕ) (c : Session) (x : Run A)
        → Settles x
        → length c.reads ≤ n
        → Within n
            (elim x [ ret a ↦ ret (a, c) | blocked ↦ blocked | exited ↦ exited | fault ↦ fault ])
    go n c (ret a) h e = e
    go n c blocked h e = h
    go n c exited h e = tt
    go n c fault h e = tt

read_outcome :
    (k n : ℕ) (c : Session) (rs : List (Option Bytes))
    → length c.reads ≤ n
    → length rs ≤ n
    → Within n (elim rs [
      | [] ↦ ret (some [], c)
      | r ∷ rs ↦ ret (elim r [ none ↦ none | some bs ↦ some (take k bs) ], record c { reads = rs })
    ])
read_outcome k n c [] h e = h
read_outcome k n c (r ∷ rs) h e = omega (arith, e)

pub end_read : {bound : ℕ} (k : ℕ) → Ends bound (read k)
end_read {bound} k = record { run = λ c h. read_outcome k bound c c.reads h h }

pub read_end : (k : ℕ) (c : Session) → c.reads ≡ [] → read k c ≡ ret (some [], c)
read_end k c e = rw e refl

write_outcome :
    (m : Frame) (n : ℕ) (c : Session) (ws : List Bool)
    → length c.reads ≤ n
    → Within n (elim ws [
      | [] ↦ ret (false, record c { sent = c.sent ++ (m ∷ []) })
      | sends ∷ rest ↦
          if sends
          then ret (false, record c { sent = c.sent ++ (m ∷ []); writes = rest })
          else ret (true, record c { writes = rest })
    ])
write_outcome m n c [] h = h
write_outcome m n c (true ∷ rest) h = h
write_outcome m n c (false ∷ rest) h = h

pub end_write : {bound : ℕ} (m : Frame) → Ends bound (write m)
end_write {bound} m = record { run = λ c h. write_outcome m bound c c.writes h }

pub end_is_connected : {bound : ℕ} → Ends bound is_connected
end_is_connected = record { run = λ c h. h }

pub end_write_disk :
    {bound : ℕ} (path : Bytes) (buffer : Buffer) → Ends bound (write_disk path buffer)
end_write_disk path buffer = record { run = λ c h. h }
