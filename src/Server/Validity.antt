-- ===== src/Server/Validity.antt =====
-- Every request to the server (src/server.c) keeps the file storage valid.
use lso_baldini.CString.{Bytes}
use lso_baldini.Common.{
  ℕ, ◌-◌, ◌<◌, ◌≤◌, ◌≡◌, refl, List, [], ◌∷◌, ◌++◌, Bool, true, false, Bool-cases, Option, none,
  some, if◌then◌else◌, ◌||◌, ◌==◌, not, pos, minus_one, ℤ, arith, inl, inr, ◌⊎◌, length, replicate,
  length-append, length-replicate, is_zero,
}
use lso_baldini.Memory.{block, mu_calloc, max_request, allocation-cases}
use lso_baldini.Message.{sapi_success, sapi_failure}
use lso_baldini.Run.{Run, ret, blocked, exited, fault, Ensures, Ensures_given}
use lso_baldini.Server.Keeps.Mutexes.{Stable, stable_order, keep_unlock_file}
use lso_baldini.Server.Keeps.Connection.{keep_respond, keep_sapi_respond, keep_read, keep_read_then}
use lso_baldini.Server.Keeps.{
  Keeps, keep_bind, keep_pure, keep_if, keep_load, keep_on_storage, at_of, keep_exit,
}
use lso_baldini.Server.Open.Creation.{
  open_new-stored, open_new_refused, open_new_held, stored, discarded, pending-IsPending,
}
use lso_baldini.Server.Open.{open_new}
use lso_baldini.Server.Requests.Writing.{keep_serve}
use lso_baldini.Server.Requests.{Serves}
use lso_baldini.Server.Serve.{serve}
use lso_baldini.Server.Worker.{worker_round}
use lso_baldini.Server.World.{overwrite}
use lso_baldini.Server.World.{
  World, M, pure, sapi_respond, unlock_file, server_respond, ◌>>◌, ◌>>=◌,
}
use lso_baldini.Server.Write.{receive, store_bytes}
use lso_baldini.Storage.Addition.{discard-IsValid, with_file-IsValid}
use lso_baldini.Storage.Invariant.{IsValid, store-IsValid, flag-IsValid}
use lso_baldini.Storage.Removal.{fu_remove_file-IsValid}
use lso_baldini.Storage.Writing.{fu_writefile-IsValid}
use lso_baldini.Storage.{
  Storage, fu_writefile, fu_storage_bytes_available, fu_storage_files_available,
}

abbrev pub Preserves : Storage → Storage → Type 0
Preserves s t = IsValid s → IsValid t

instance abbrev preserves_stable : Stable Preserves
preserves_stable = record {
  order = record { reflexive = λ s v. v; transitive = λ s t u f g v. g (f v) };
  flag = λ s b v. flag-IsValid b v;
  mark = λ s p f b e v. store-IsValid p f (record f { locked = b }) v e refl refl;
  info = λ s p f n e v. store-IsValid p f (record f { data_info = n }) v e refl refl;
}

after :
    {A : Type 0} (x : Run (A × World)) (s : Storage)
    → Ensures (λ r. Preserves s r.1.storage) x
    → IsValid s
    → Ensures (λ r. IsValid r.1.storage) x
after (ret r) s h v = h v
after blocked s h v = tt
after exited s h v = tt
after fault s h v = tt

-- What an answer leaves of the storage.
respond-Preserves :
    (status client : ℕ) (result : ℤ) (w : World)
    → IsValid w.storage
    → Ensures (λ (r : ℤ × World). IsValid r.1.storage) (sapi_respond status client result w)
respond-Preserves status client result w v =
    after (sapi_respond status client result w) w.storage
      ((keep_sapi_respond {R = Preserves} status client result).run w) v

full_or_room :
    {s : Storage}
    → IsValid s
    → (((fu_storage_bytes_available s == 0) || (fu_storage_files_available s == 0)) ≡ true)
      ⊎ ((s.curr_bytes < s.max_bytes) × (s.curr_files < s.max_files))
unfolding fu_storage_bytes_available fu_storage_files_available
full_or_room v = ground (arith, v.bytes_bound, v.files_bound, v.bytes_small, v.files_small)

open_new-Preserves :
    (message client : ℕ) (path : Bytes) → Keeps Preserves (open_new message client path)
open_new-Preserves message client path = record {
  run = λ w.
      Ensures_given (λ (r : ℤ × World). IsValid r.1.storage) (open_new message client path w)
        λ v.
          let pending = pending-IsPending message client v in
          elim (Bool-cases w.storage.locked) [
            | inl held ↦ rw (open_new_held message client path w held) tt
            | inr free ↦ elim (full_or_room v) [
              | inl full ↦ rw (open_new_refused message client path w free full) (
                  respond-Preserves sapi_failure client minus_one (discarded message client w)
                    (flag-IsValid false (discard-IsValid w.storage.next pending)))
              | inr (bytes, files) ↦ rw (open_new-stored message client path w v free bytes files) (
                  respond-Preserves sapi_success client (pos 0) (stored message client path w)
                    (flag-IsValid false (with_file-IsValid w.storage.next path pending files)))
            ]
          ];
}

-- A write of the whole buffer, which an allocation wrapper has given.
write-Preserves :
    (s : Storage) (p i n : ℕ) (bytes : Bytes)
    → length bytes ≡ n
    → n ≤ max_request
    → Ensures (λ (r : ℤ × Storage). Preserves s r.1) (fu_writefile s p i (some bytes) n)
write-Preserves s p i n bytes e small =
    let h = fu_writefile-IsValid s p i bytes (omega (arith, e, small)) in rw e at h

store_bytes-Preserves :
    (append : Bool) (client p n : ℕ) (buffer : Option Bytes)
    → ((s : Storage) (i : ℕ)
        → Ensures (λ (r : ℤ × Storage). Preserves s r.1) (fu_writefile s p i buffer n))
    → Keeps Preserves (store_bytes append client p n buffer)
unfolding store_bytes
store_bytes-Preserves append client p n buffer h = keep_load p λ f w e.
    at_of
      (keep_bind (keep_on_storage _ (λ s. h s (if append then f.data_len else 0))) λ result.
        keep_if (not (is_zero result))
          (keep_bind (keep_unlock_file p)
            λ _. keep_bind (keep_respond sapi_failure client) λ _. keep_pure (pos 1))
          (keep_bind (keep_respond sapi_success client) λ failed.
            keep_bind (keep_unlock_file p)
              λ _. keep_if failed (keep_pure (pos 1)) (keep_pure (pos 0))))
      w

block-small : (n : ℕ) → mu_calloc n ≡ block → n ≤ max_request
unfolding mu_calloc
block-small n e = ground (arith, e)

refuse-Preserves :
    (client p : ℕ)
    → Keeps Preserves (unlock_file p >> (server_respond sapi_failure client >>= λ _. pure (pos 1)))
refuse-Preserves client p =
    keep_bind (keep_unlock_file p)
      λ _. keep_bind (keep_respond sapi_failure client) λ _. keep_pure (pos 1)

receive-Preserves : (append : Bool) (client p n : ℕ) → Keeps Preserves (receive append client p n)
unfolding receive
receive-Preserves append client p n = elim (allocation-cases (mu_calloc n)) [
  | inl e ↦ rw (receive, e) keep_exit
  | inr (inl e) ↦
      rw (receive, e)
        (keep_read_then n _ (refuse-Preserves client p)
          λ bs _. store_bytes-Preserves append client p n none (λ s i v. v))
  | inr (inr e) ↦
      rw (receive, e)
        (keep_read_then n _ (refuse-Preserves client p) λ bs short.
          store_bytes-Preserves append client p n (some (bs ++ replicate (n - length bs) 0)) λ s i.
            write-Preserves s p i n (bs ++ replicate (n - length bs) 0)
              (omega (
                arith,
                length-append bs (replicate (n - length bs) 0),
                length-replicate {A = ℕ} (n - length bs) 0,
                short,
              ))
              (block-small n e))
]

Serves-Preserves : (client : ℕ) → Serves Preserves client
Serves-Preserves client = record {
  edit = λ s p f f' e own len same new v. store-IsValid p f f' v e len same;
  create = λ message path. open_new-Preserves message client path;
  remove = λ s path. fu_remove_file-IsValid s path;
  put = λ s w p f append n e own v. at_of (receive-Preserves append client p n) w;
}

-- The requests that are served one after the other, each a message with its client.
abbrev pub serve_all : List (ℕ × ℕ) → M (List ℤ)
serve_all [] = pure []
serve_all ((request, client) ∷ rest) = do
  result ← serve request client
  results ← serve_all rest
  pure (result ∷ results)

keep_serve_all : (requests : List (ℕ × ℕ)) → Keeps Preserves (serve_all requests)
keep_serve_all [] = keep_pure []
keep_serve_all ((request, client) ∷ rest) =
    keep_bind (keep_serve client (Serves-Preserves client) request)
      λ result. keep_bind (keep_serve_all rest) λ results. keep_pure (result ∷ results)

-- If a server's storage is valid, it is valid whenever the handlers of any number of requests, of any
-- clients in any order, have returned, whatever arrived on the connections and whichever answers
-- failed: the counters are the numbers of the files and bytes stored and are within the limits, and
-- the table leads to the allocated files and to no others.
pub serve_all-IsValid :
    (requests : List (ℕ × ℕ)) (w : World)
    → IsValid w.storage
    → Ensures (λ (r : List ℤ × World). IsValid r.1.storage) (serve_all requests w)
serve_all-IsValid requests w v =
    after (serve_all requests w) w.storage ((keep_serve_all requests).run w) v

keep_worker_round : (client : ℕ) → Keeps Preserves (worker_round client)
unfolding worker_round
keep_worker_round client = keep_bind (keep_read 4) (elim [
  | none ↦ keep_pure false
  | some bs ↦
      keep_if (overwrite 0 bs == 0) (keep_pure false) (
        keep_bind (keep_serve client (Serves-Preserves client) (overwrite 0 bs))
          λ _. keep_pure true)
])

pub worker_round-IsValid :
    (client : ℕ) (w : World)
    → IsValid w.storage
    → Ensures (λ (r : Bool × World). IsValid r.1.storage) (worker_round client w)
worker_round-IsValid client w v =
    after (worker_round client w) w.storage ((keep_worker_round client).run w) v
