-- ===== src/Exchange/Storing.antt =====
-- What `server_writeFile` and `server_appendToFile` (src/server.c) make of the requests of `writeFile`
-- and `appendToFile` (src/serverapi.c).
use lso_baldini.Common.{
  Bool, ℕ, ◌+◌, ◌-◌, ◌≤◌, ◌<◌, ◌≡◌, ◌≢◌, refl, List, [], ◌∷◌, ◌++◌, Option, some, false, true, pos,
  length, arith, ==_refl,
}
use lso_baldini.CString.{Bytes}
use lso_baldini.Exchange.Serving.{IsPath, message, message_lem, get_path_lem, getfile_lem}
use lso_baldini.HashTable.{hu_get}
use lso_baldini.Memory.{max_request}
use lso_baldini.Message.{sapi_success}
use lso_baldini.Run.{ret}
use lso_baldini.Server.Close.Answers.{update-update}
use lso_baldini.Server.Serve.{serve}
use lso_baldini.Server.World.{World, Frame, le_decode}
use lso_baldini.Server.Write.Success.{write_stored-room, offset}
use lso_baldini.Server.Write.{server_write_file, server_append_to_file, write_request}
use lso_baldini.Storage.Invariant.{IsValid, store-IsValid, flag-IsValid}
use lso_baldini.Storage.Lookup.{touched}
use lso_baldini.Storage.PathKey.{path_key}
use lso_baldini.Storage.Writing.{written}
use lso_baldini.Storage.{FileData, Storage, store, update, fu_storage_bytes_available}

-- The storage after the new bytes were written or appended.
abbrev pub rewritten_by : Bool → Storage → ℕ → FileData → Bytes → Storage
rewritten_by append s p f bytes = record s {
  locked = false;
  curr_bytes = s.curr_bytes + (offset append f + length bytes) - f.data_len;
  heap =
      update s.heap p
        (some (record (written (touched f) (offset append f) bytes) { locked = false }));
}

module _ (w : World) (client p : ℕ) (path bytes size_bytes : Bytes) (f : FileData)
    (rest : List (Option Bytes)) (ok : IsPath path) (some_client : client ≢ 0)
    (v : IsValid w.storage) (found : hu_get w.storage.table path ≡ some p)
    (here : w.storage.heap p ≡ some f) (unlocked : w.storage.locked ≡ false)
    (free : f.locked ≡ false) (own : f.client ≡ pos client) (filled : 0 < length bytes)
    (room : length bytes ≤ fu_storage_bytes_available w.storage) (whole : length size_bytes ≡ 8)
    (decoded : le_decode size_bytes ≡ length bytes)
    (next : w.reads ≡ some path ∷ some size_bytes ∷ some bytes ∷ rest)
    (answer : w.writes ≡ []) where
  -- The world after the bytes were stored.
  abbrev pub stored_by : Bool → World
  stored_by append = record w {
    storage = rewritten_by append w.storage p f bytes;
    sent = (w.sent ++ (Frame.status sapi_success ∷ [])) ++ (Frame.status sapi_success ∷ []);
    reads = rest;
  }

  write_request_lem :
      (append : Bool) (op : ℕ)
      → op < 64
      → offset append f + length bytes ≤ max_request
      → write_request append (message op path) client w ≡ ret (pos 0, stored_by append)
  unfolding write_request
  write_request_lem append op known small =
      let (_, _, some_message) = message_lem op path known ok in
      let more = some size_bytes ∷ some bytes ∷ rest in
      let s₁ = record (w.storage) { locked = true } in
      let s₂ = store s₁ p (touched f) in
      let w₂ = record w { storage = s₂; reads = more } in
      let there : s₂.heap p ≡ some (touched f) = rw (==_refl p) refl in
      let v₂ : IsValid s₂ = store-IsValid p f (touched f) (flag-IsValid true v) here refl refl in
      let stored =
        write_stored-room append client p bytes some_client filled w₂ (touched f) size_bytes rest v₂
          there free own small room whole decoded refl answer in
      let once =
        update-update w.storage.heap p (some (touched f))
          (some (record (written (touched f) (offset append f) bytes) { locked = false })) in
      ground (
        arith,
        some_message,
        some_client,
        get_path_lem w op client path more known ok some_client next,
        unlocked,
        getfile_lem s₁ path p f found here,
        stored,
        once,
      )

  pub serve_write :
      length bytes ≤ max_request → serve (message 6 path) client w ≡ ret (pos 0, stored_by false)
  unfolding serve server_write_file
  serve_write small =
      let (same_op, _, _) = message_lem 6 path (omega arith) ok in
      ground (arith, same_op, write_request_lem false 6 (omega arith) (omega (arith, small)))

  pub serve_append :
      f.data_len + length bytes ≤ max_request
      → serve (message 7 path) client w ≡ ret (pos 0, stored_by true)
  unfolding serve server_append_to_file
  serve_append small =
      let (same_op, _, _) = message_lem 7 path (omega arith) ok in
      ground (arith, same_op, write_request_lem true 7 (omega arith) small)
