-- ===== src/Server/Keeps/Connection.antt =====
-- The rules of `Keeps` for the calls of src/server.c that read from and write to a connection.
use lso_baldini.Common.{
  ℕ, List, [], ◌∷◌, Bool, true, false, Option, none, some, if◌then◌else◌, take, ◌++◌, ◌+◌, length,
  ℤ, minus_one, ◌==◌, ◌||◌, ◌≤◌, take-le, arith,
}
use lso_baldini.CString.{Bytes, c_string}
use lso_baldini.Memory.{mu_calloc}
use lso_baldini.Message.{len_of}
use lso_baldini.Run.{Run, ret, blocked, exited, fault, Ensures}
use lso_baldini.Storage.{Storage}
use lso_baldini.Server.World.{
  World, M, ◌>>=◌, read, write, Frame, server_respond, sapi_respond, server_get_path, uninit_size,
  server_get_len, overwrite, server_send_path, server_send_data,
}
use lso_baldini.Server.Keeps.{Order, Keeps, keep_bind, keep_pure, keep_if, keep_unless_exit}

module _ (R : Storage → Storage → Type 0) ⦃ord : Order R⦄ where
  write_outcome :
      (m : Frame) (w : World) (outcomes : List Bool)
      → Ensures
          (λ (r : Bool × World). R w.storage r.1.storage)
          (elim outcomes [
            | [] ↦ ret (false, record w { sent = w.sent ++ (m ∷ []) })
            | sends ∷ rest ↦
                if sends
                then ret (false, record w { sent = w.sent ++ (m ∷ []); writes = rest })
                else ret (true, record w { writes = rest })
          ])
  write_outcome m w [] = ord.reflexive w.storage
  write_outcome m w (true ∷ rest) = ord.reflexive w.storage
  write_outcome m w (false ∷ rest) = ord.reflexive w.storage

  read_outcome :
      {A : Type 0} (w : World) (n : ℕ) (k : Option Bytes → M A)
      → Keeps R (k none)
      → ((bs : Bytes) → length bs ≤ n → Keeps R (k (some bs)))
      → (reads : List (Option Bytes))
      → Ensures
          (λ r. R w.storage r.1.storage)
          (elim (let x : Run (Option Bytes × World) = elim reads [
            | [] ↦ ret (some [], w)
            | r ∷ rs ↦
                ret (elim r [ none ↦ none | some bs ↦ some (take n bs) ], record w { reads = rs })
          ] in
            x) [ ret (a, w') ↦ k a w' | blocked ↦ blocked | exited ↦ exited | fault ↦ fault ])
  read_outcome w n k h h' [] = (h' [] (omega arith)).run w
  read_outcome w n k h h' (none ∷ rs) = h.run (record w { reads = rs })
  read_outcome w n k h h' (some bs ∷ rs) =
      (h' (take n bs) (take-le n bs)).run (record w { reads = rs })

module _ {R : Storage → Storage → Type 0} ⦃ord : Order R⦄ where
  pub keep_uninit : Keeps R uninit_size
  keep_uninit = record { run = λ w. ord.reflexive w.storage }

  pub keep_read : (n : ℕ) → Keeps R (read n)
  keep_read n = record {
    run = λ w.
        elim (w.reads)
          as (λ x.
            Ensures (λ (r : Option Bytes × World). R w.storage r.1.storage)
              (elim x [
                | [] ↦ ret (some [], w)
                | r ∷ rs ↦
                    ret
                      (elim r [ none ↦ none | some bs ↦ some (take n bs) ], record w { reads = rs })
              ])) [ [] ↦ ord.reflexive w.storage | r ∷ rs ↦ ord.reflexive w.storage ];
  }

  -- What follows a read knows that no more bytes came than were asked for.
  pub keep_read_then :
      {A : Type 0} (n : ℕ) (k : Option Bytes → M A)
      → Keeps R (k none)
      → ((bs : Bytes) → length bs ≤ n → Keeps R (k (some bs)))
      → Keeps R (read n >>= k)
  keep_read_then n k h h' = record { run = λ w. read_outcome R w n k h h' w.reads }

  pub keep_write : (m : Frame) → Keeps R (write m)
  keep_write m = record { run = λ w. write_outcome R m w w.writes }

  pub keep_respond : (message client : ℕ) → Keeps R (server_respond message client)
  unfolding server_respond
  keep_respond message client =
      keep_if (client == 0) (keep_pure true) (keep_write (Frame.status message))

  pub keep_sapi_respond :
      (message client : ℕ) (result : ℤ) → Keeps R (sapi_respond message client result)
  unfolding sapi_respond
  keep_sapi_respond message client result =
      keep_bind (keep_respond message client)
        (λ failed. keep_if failed (keep_pure minus_one) (keep_pure result))

  pub keep_get_path : (message client : ℕ) → Keeps R (server_get_path message client)
  unfolding server_get_path
  keep_get_path message client = keep_if (message == 0 || client == 0) (keep_pure none) (
      keep_unless_exit (mu_calloc (len_of message + 1)) (
        keep_bind (keep_read (len_of message))
          (elim [ none ↦ keep_pure none | some bs ↦ keep_pure (some (c_string bs)) ])))

  pub keep_get_len : (client : ℕ) → Keeps R (server_get_len client)
  unfolding server_get_len
  keep_get_len client = keep_if (client == 0) (keep_pure 0) (
      keep_bind keep_uninit λ old.
        keep_bind (keep_read 8)
          (elim [ none ↦ keep_pure 0 | some bs ↦ keep_pure (overwrite old bs) ]))

  pub keep_send_path : (client : ℕ) (path : Option Bytes) → Keeps R (server_send_path client path)
  unfolding server_send_path
  keep_send_path client none = keep_pure true
  keep_send_path client (some path) = keep_if (client == 0) (keep_pure true) (
      keep_bind (keep_write (Frame.size (length path)))
        λ failed. keep_if failed (keep_pure true) (keep_write (Frame.payload path)))

  pub keep_send_data :
      (client : ℕ) (bytes : Bytes) (data_len : ℕ) → Keeps R (server_send_data client bytes data_len)
  unfolding server_send_data
  keep_send_data client bytes data_len =
      keep_if (client == 0 || (length bytes == 0 || data_len == 0)) (keep_pure true) (
        keep_bind (keep_write (Frame.size data_len))
          λ failed. keep_if failed (keep_pure true) (keep_write (Frame.payload bytes)))
