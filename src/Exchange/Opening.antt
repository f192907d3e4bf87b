-- ===== src/Exchange/Opening.antt =====
-- `openFile` (src/serverapi.c) and `server_openFile` (src/server.c) together.
use lso_baldini.Client.Requests.{open_file}
use lso_baldini.Client.{Session}
use lso_baldini.Common.{
  ℕ, ◌^◌, ◌<◌, ◌≡◌, ◌≢◌, refl, List, [], ◌∷◌, ◌++◌, Option, none, some, true, false, pos, length,
  arith,
}
use lso_baldini.CString.{Bytes}
use lso_baldini.Exchange.Asking.{IsUp, path_request_answered}
use lso_baldini.Exchange.Serving.{IsPath, get_path_word, worker_round_word}
use lso_baldini.Exchange.{Converses, delivered, wire}
use lso_baldini.HashTable.{hu_get}
use lso_baldini.HashTable.Laws as Laws
use lso_baldini.Message.{
  sapi_message_len, message_parts, op_of, len_of, creates, locks, sapi_openfile, sapi_success,
}
use lso_baldini.Run.{ret}
use lso_baldini.Server.Open.Creation.{stored, open_new-stored, opened-content, pending-IsPending}
use lso_baldini.Server.Open.{server_open_file, opened}
use lso_baldini.Server.Serve.{serve}
use lso_baldini.Server.World.{World, Frame}
use lso_baldini.Storage.Addition.{new_file}
use lso_baldini.Storage.Invariant.{IsValid}
use lso_baldini.Storage.PathKey.{path_key}
use lso_baldini.Storage.{FileData, fu_getfile}

-- The message of `openFile` with the flag `O_CREATE`.
abbrev pub create_message : Bytes → ℕ
create_message path = sapi_message_len 1 sapi_openfile (length path)

create_message_lem :
    (path : Bytes)
    → IsPath path
    → (op_of (create_message path) ≡ sapi_openfile)
      × (len_of (create_message path) ≡ length path)
      × (creates (create_message path) ≡ true)
      × (0 < create_message path)
      × (create_message path < 2 ^ 32)
      × (locks (create_message path) ≡ false)
unfolding sapi_message_len
create_message_lem path ok =
    let (same_op, same_len, creating, locking) =
      message_parts 1 0 3 (length path) (omega arith) (omega arith) (omega arith)
        (omega (arith, ok.small)) in
    (same_op, same_len, creating, omega arith, omega (arith, ok.small), locking)

module _ (w : World) (client : ℕ) (path : Bytes) (rest : List (Option Bytes)) (ok : IsPath path)
    (some_client : client ≢ 0) (missing : hu_get w.storage.table path ≡ none)
    (next : w.reads ≡ some path ∷ rest) (answer : w.writes ≡ []) (v : IsValid w.storage)
    (unlocked : w.storage.locked ≡ false) (a_byte : w.storage.curr_bytes < w.storage.max_bytes)
    (a_slot : w.storage.curr_files < w.storage.max_files) where
  no_file : fu_getfile w.storage path ≡ ret (none, w.storage)
  unfolding fu_getfile
  no_file = ground (arith, missing)

  serve_create :
      serve (create_message path) client w
      ≡ ret (
        pos 0,
        record (stored (create_message path) client path (record w { reads = rest })) {
          sent = w.sent ++ (Frame.status sapi_success ∷ []);
        },
      )
  unfolding serve server_open_file
  serve_create =
      let (same_op, same_len, creating, some_message, _, _) = create_message_lem path ok in
      let w₁ = record w { reads = rest } in
      ground (
        arith,
        same_op,
        some_message,
        some_client,
        creating,
        get_path_word w (create_message path) client path rest same_len some_message ok some_client
            next,
        no_file,
        open_new-stored (create_message path) client path w₁ v unlocked a_byte a_slot,
        answer,
      )

-- A client opens a path that the server has no file for with `O_CREATE`.
module _ (c : Session) (w : World) (client : ℕ) (path : Bytes) (up : IsUp c)
    (answer : w.writes ≡ []) (ok : IsPath path) (some_client : client ≢ 0)
    (missing : hu_get w.storage.table path ≡ none) (v : IsValid w.storage)
    (unlocked : w.storage.locked ≡ false) (a_byte : w.storage.curr_bytes < w.storage.max_bytes)
    (a_slot : w.storage.curr_files < w.storage.max_files) where
  -- The world afterwards.
  abbrev pub created : World
  created = record (stored (create_message path) client path w) {
    sent = w.sent ++ (Frame.status sapi_success ∷ []);
  }

  -- The call returns 0, and the file is stored.
  pub open_file_exchange :
      Converses
        (open_file (some path) 1)
        client
        c
        w
        (pos 0)
        (record c {
          sent = c.sent ++ (Frame.status (create_message path) ∷ Frame.payload path ∷ []);
        })
        created
  unfolding open_file delivered wire
  open_file_exchange =
      let answered = Frame.status sapi_success ∷ [] in
      let asked = Frame.payload path ∷ [] in
      let said = Frame.status (create_message path) ∷ asked in
      let c₀ = record c { reads = delivered answered ++ c.reads } in
      let (_, _, _, some_message, small, _) = create_message_lem path ok in
      record {
        said = said;
        answered = answered;
        asks =
            path_request_answered c₀ sapi_openfile 1 0 path c.reads
              (record { set = up.set; sends = up.sends; word_small = up.word_small }) ok.filled refl
              (omega arith);
        says = refl;
        hears = refl;
        serves =
            worker_round_word (record w { reads = delivered said ++ w.reads }) (create_message path)
              client (delivered asked ++ w.reads) some_message small refl
              (serve_create (record w { reads = delivered asked ++ w.reads }) client path w.reads ok
                some_client missing refl answer v unlocked a_byte a_slot);
        answers = refl;
        all_read = refl;
      }

  -- The path leads to the new file, which is empty and belongs to the client.
  pub created_file :
      (g : FileData) × (hu_get created.storage.table path ≡ some w.storage.next)
      × (created.storage.heap w.storage.next ≡ some g)
      × (g.client ≡ pos client)
      × (g.content ≡ [])
      × (g.locked ≡ false)
      × (created.storage.locked ≡ false)
      × (created.storage.curr_bytes ≡ w.storage.curr_bytes)
      × ((q : ℕ) → q ≢ w.storage.next → created.storage.heap q ≡ w.storage.heap q)
  created_file =
      let f = opened (create_message path) client new_file in
      let v' = pending-IsPending (create_message path) client v in
      let (_, _, _, _, _, not_locked) = create_message_lem path ok in
      (
        record f { path = some path },
        Laws.hu_get-insert_self path w.storage.next v.table_IsValid,
        ground arith,
        rw not_locked refl,
        opened-content (create_message path) client new_file,
        rw not_locked refl,
        refl,
        omega (arith, v'.empty, v.bytes_bound, v.bytes_small),
        λ q n. ground arith,
      )
