-- ===== src/Exchange/Files.antt =====
-- The client library (src/serverapi.c) and the handlers (src/server.c) together.
use lso_baldini.Client.Requests.{close_file, read_file}
use lso_baldini.Client.Transfer.{write_file, append_to_file}
use lso_baldini.Client.{Session}
use lso_baldini.Common.{
  ◌+◌, true, List, ℕ, ◌^◌, ◌≤◌, ◌<◌, ◌≡◌, ◌≢◌, refl, ap, ◌∙◌, sym, [], ◌∷◌, ◌++◌, Option, some,
  false, pos, minus_one, length, arith, append_assoc,
}
use lso_baldini.CString.{Bytes}
use lso_baldini.Disk.{fu_read_from_path}
use lso_baldini.Exchange.Asking.{IsUp, path_request_answered, read_file_answered}
use lso_baldini.Exchange.Sending.{write_file_answered, append_to_file_answered}
use lso_baldini.Exchange.Serving.{IsPath, message, worker_round_lem, serve_close, serve_read}
use lso_baldini.Exchange.Storing.{rewritten_by, serve_write, serve_append}
use lso_baldini.Exchange.Wire.{length-le_encode, le_decode-encode}
use lso_baldini.Exchange.{Converses, delivered, wire, le_encode}
use lso_baldini.HashTable.{hu_get}
use lso_baldini.Memory.{max_request}
use lso_baldini.Message.{sapi_success, sapi_closefile}
use lso_baldini.Run.{ret}
use lso_baldini.Server.World.{World, Frame}
use lso_baldini.Storage.Invariant.{IsValid}
use lso_baldini.Storage.Lookup.{touched}
use lso_baldini.Storage.PathKey.{path_key}
use lso_baldini.Storage.{FileData, store, fu_storage_bytes_available}

module _ (c : Session) (w : World) (client p : ℕ) (path : Bytes) (f : FileData) (up : IsUp c)
    (answer : w.writes ≡ []) (ok : IsPath path) (some_client : client ≢ 0)
    (found : hu_get w.storage.table path ≡ some p) (here : w.storage.heap p ≡ some f)
    (free : f.locked ≡ false) (own : f.client ≡ pos client) where
  -- The owner of a file closes it with `closeFile`: the call returns 0, and the file belongs to nobody.
  pub close_file_exchange :
      Converses
        (close_file (some path))
        client
        c
        w
        (pos 0)
        (record c { sent = c.sent ++ (Frame.status (message 10 path) ∷ Frame.payload path ∷ []) })
        (record w {
          storage = store w.storage p (record (touched f) { client = minus_one; locked = false });
          sent = w.sent ++ (Frame.status sapi_success ∷ []);
        })
  unfolding close_file delivered wire
  close_file_exchange =
      let answered = Frame.status sapi_success ∷ [] in
      let asked = Frame.payload path ∷ [] in
      let said = Frame.status (message 10 path) ∷ asked in
      let c₀ = record c { reads = delivered answered ++ c.reads } in
      record {
        said = said;
        answered = answered;
        asks =
            path_request_answered c₀ sapi_closefile 0 0 path c.reads
              (record { set = up.set; sends = up.sends; word_small = up.word_small }) ok.filled refl
              (omega arith);
        says = refl;
        hears = refl;
        serves =
            worker_round_lem (record w { reads = delivered said ++ w.reads }) 10 client path
              (delivered asked ++ w.reads) (omega arith) ok refl
              (serve_close (record w { reads = delivered asked ++ w.reads }) client p path f w.reads
                ok some_client found here refl free own answer);
        answers = refl;
        all_read = refl;
      }

  -- The owner of a file that is not empty reads it with `readFile`, in a valid storage: the call
  -- returns 0 and the content of the file, and nothing in the storage changes but the count of the
  -- file's lookups.
  pub read_file_exchange :
      (old : Bytes) (old_len : ℕ)
      → IsValid w.storage
      → 0 < length f.content
      → length f.content ≤ max_request
      → old_len < 2 ^ 64
      → (said : List Frame) × (sent : List Frame) × Converses
          (read_file (some path) (old, old_len))
          client
          c
          w
          (pos 0, (f.content, length f.content))
          (record c { sent = said })
          (record w {
            storage = store w.storage p (record (touched f) { locked = false });
            sent = sent;
          })
  unfolding delivered wire
  read_file_exchange old old_len v filled small old_small =
      let sound = v.sound p f here in
      let answered =
        Frame.status sapi_success ∷ Frame.size (length f.content) ∷ Frame.payload f.content ∷ [] in
      let asked = Frame.payload path ∷ [] in
      let said = Frame.status (message 4 path) ∷ asked in
      let c₀ = record c { reads = delivered answered ++ c.reads } in
      (
        c.sent ++ said,
        _,
        record {
          said = said;
          answered = answered;
          asks =
              read_file_answered c₀ path old f.content old_len c.reads
                (record { set = up.set; sends = up.sends; word_small = up.word_small }) ok.filled
                refl filled small old_small;
          says = refl;
          hears = refl;
          serves =
              worker_round_lem (record w { reads = delivered said ++ w.reads }) 4 client path
                (delivered asked ++ w.reads) (omega arith) ok refl
                (serve_read (record w { reads = delivered asked ++ w.reads }) client p path f
                  w.reads ok some_client found here refl free own (omega (arith, sound, filled))
                  sound answer);
          answers =
              ap
                (λ n.
                  ((w.sent ++ (Frame.status sapi_success ∷ [])) ++ (Frame.size n ∷ []))
                  ++ (Frame.payload f.content ∷ []))
                (sym sound)
              ∙ append_assoc (w.sent ++ (Frame.status sapi_success ∷ []))
                  (Frame.size (length f.content) ∷ []) (Frame.payload f.content ∷ [])
              ∙ append_assoc w.sent (Frame.status sapi_success ∷ [])
                  (Frame.size (length f.content) ∷ Frame.payload f.content ∷ []);
          all_read = refl;
        },
      )

  -- The owner of a file writes a file of its disk to it with `writeFile`, in a valid storage with room
  -- for it: the call returns 0, the content of the file is the one on the disk, and its bytes are
  -- counted.
  pub write_file_exchange :
      (bytes : Bytes) (dirname : Option Bytes)
      → IsValid w.storage
      → w.storage.locked ≡ false
      → fu_read_from_path c.disk path ([], 0) ≡ ret (pos 0, (bytes, length bytes))
      → 0 < length bytes
      → length bytes ≤ max_request
      → length bytes ≤ fu_storage_bytes_available w.storage
      → (said : List Frame) × (sent : List Frame) × Converses
          (write_file (some path) dirname)
          client
          c
          w
          (pos 0)
          (record c { sent = said })
          (record w { storage = rewritten_by false w.storage p f bytes; sent = sent })
  unfolding delivered wire
  write_file_exchange bytes dirname v unlocked on_disk filled small room =
      let answered = Frame.status sapi_success ∷ Frame.status sapi_success ∷ [] in
      let asked = Frame.payload path ∷ Frame.size (length bytes) ∷ Frame.payload bytes ∷ [] in
      let said = Frame.status (message 6 path) ∷ asked in
      let c₀ = record c { reads = delivered answered ++ c.reads } in
      (
        c.sent ++ said,
        _,
        record {
          said = said;
          answered = answered;
          asks =
              write_file_answered c₀ path bytes dirname 0 c.reads
                (record { set = up.set; sends = up.sends; word_small = up.word_small }) ok.filled
                filled on_disk refl (omega arith);
          says = refl;
          hears = refl;
          serves =
              worker_round_lem (record w { reads = delivered said ++ w.reads }) 6 client path
                (delivered asked ++ w.reads) (omega arith) ok refl
                (serve_write (record w { reads = delivered asked ++ w.reads }) client p path bytes
                  (le_encode 8 (length bytes)) f w.reads ok some_client v found here unlocked free
                  own filled room (length-le_encode 8 (length bytes))
                  (le_decode-encode 8 (length bytes) (omega (arith, small))) refl answer small);
          answers =
              append_assoc w.sent (Frame.status sapi_success ∷ []) (Frame.status sapi_success ∷ []);
          all_read = refl;
        },
      )

  -- The owner of a file appends bytes to it with `appendToFile`, in a valid storage with room for them:
  -- the call returns 0, the bytes stand behind the old content of the file, and they are counted.
  pub append_to_file_exchange :
      (bytes : Bytes) (dirname : Option Bytes)
      → IsValid w.storage
      → w.storage.locked ≡ false
      → 0 < length bytes
      → f.data_len + length bytes ≤ max_request
      → length bytes ≤ fu_storage_bytes_available w.storage
      → (said : List Frame) × (sent : List Frame) × Converses
          (append_to_file (some path) (bytes, length bytes) dirname)
          client
          c
          w
          (pos 0)
          (record c { sent = said })
          (record w { storage = rewritten_by true w.storage p f bytes; sent = sent })
  unfolding delivered wire
  append_to_file_exchange bytes dirname v unlocked filled small room =
      let answered = Frame.status sapi_success ∷ Frame.status sapi_success ∷ [] in
      let asked = Frame.payload path ∷ Frame.size (length bytes) ∷ Frame.payload bytes ∷ [] in
      let said = Frame.status (message 7 path) ∷ asked in
      let c₀ = record c { reads = delivered answered ++ c.reads } in
      (
        c.sent ++ said,
        _,
        record {
          said = said;
          answered = answered;
          asks =
              append_to_file_answered c₀ path bytes dirname 0 c.reads
                (record { set = up.set; sends = up.sends; word_small = up.word_small }) ok.filled
                filled refl (omega arith);
          says = refl;
          hears = refl;
          serves =
              worker_round_lem (record w { reads = delivered said ++ w.reads }) 7 client path
                (delivered asked ++ w.reads) (omega arith) ok refl
                (serve_append (record w { reads = delivered asked ++ w.reads }) client p path bytes
                  (le_encode 8 (length bytes)) f w.reads ok some_client v found here unlocked free
                  own filled room (length-le_encode 8 (length bytes))
                  (le_decode-encode 8 (length bytes) (omega (arith, small))) refl answer small);
          answers =
              append_assoc w.sent (Frame.status sapi_success ∷ []) (Frame.status sapi_success ∷ []);
          all_read = refl;
        },
      )
