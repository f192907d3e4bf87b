-- ===== src/Exchange/Serving.antt =====
-- What the handlers (src/server.c) make of the requests that the client library (src/serverapi.c)
-- sends.
use lso_baldini.Common.{
  take, take-all, ℤ, true, ◌^◌, ℕ, ◌*◌, ◌<◌, ◌≡◌, ◌≢◌, refl, ap, List, [], ◌∷◌, ◌++◌, Option, some,
  false, pos, minus_one, length, take-length, arith, ==_refl, ==_refl,
}
use lso_baldini.CString.{Bytes, c_string}
use lso_baldini.HashTable.{hu_get}
use lso_baldini.Memory.{mu_calloc, max_request}
use lso_baldini.Message.{sapi_message_len, message_parts, op_of, len_of, sapi_success}
use lso_baldini.Run.{ret}
use lso_baldini.Server.Close.Answers.{close_stored_owner, update-update}
use lso_baldini.Server.Close.{server_close_file}
use lso_baldini.Server.Read.Answers.{read_stored-owner}
use lso_baldini.Server.Read.{server_read_file}
use lso_baldini.Server.Serve.{serve}
use lso_baldini.Server.Worker.{worker_round}
use lso_baldini.Exchange.{wire, le_encode}
use lso_baldini.Exchange.Wire.{length-le_encode, overwrite-response}
use lso_baldini.Server.World.{overwrite, World, Frame, server_get_path}
use lso_baldini.Storage.Lookup.{touched}
use lso_baldini.Storage.PathKey.{path_key}
use lso_baldini.Storage.{FileData, Storage, store, fu_getfile}
use lso_baldini.UString.Laws.{HasNoNul}

-- A path that the server can take: not empty, with no NUL in it, and with room for one behind it.
pub record IsPath (path : Bytes) : Type 0 where
  pub no_nul : HasNoNul path
  pub filled : 0 < length path
  pub small : length path < max_request

pub c_string_id : (text : Bytes) → HasNoNul text → c_string text ≡ text
unfolding c_string
c_string_id [] h = refl
c_string_id (b ∷ text) h = rw (h.0) (ap (λ bs. b ∷ bs) (c_string_id text h.1))

-- The message of a request without flags.
abbrev pub message : ℕ → Bytes → ℕ
message op path = sapi_message_len 0 (op * 4) (length path)

pub message_lem :
    (op : ℕ) (path : Bytes)
    → op < 64
    → IsPath path
    → (op_of (message op path) ≡ op * 4)
      × (len_of (message op path) ≡ length path)
      × (0 < message op path)
unfolding sapi_message_len
message_lem op path known ok =
    let (same_op, same_len, _, _) =
      message_parts 0 0 op (length path) (omega arith) (omega arith) known
        (omega (arith, ok.small)) in
    (same_op, same_len, omega (arith, same_len, ok.filled))

message-small : (op : ℕ) (path : Bytes) → op < 64 → IsPath path → message op path < 2 ^ 32
unfolding sapi_message_len
message-small op path known ok = omega (arith, known, ok.small)

-- The server reads the path that the client sent behind the message `m`.
pub get_path_word :
    (w : World) (m client : ℕ) (path : Bytes) (rest : List (Option Bytes))
    → len_of m ≡ length path
    → 0 < m
    → IsPath path
    → client ≢ 0
    → w.reads ≡ some path ∷ rest
    → server_get_path m client w ≡ ret (some path, record w { reads = rest })
unfolding server_get_path mu_calloc
get_path_word w m client path rest same_len some_message ok some_client next = ground (
  arith,
  same_len,
  some_message,
  some_client,
  next,
  ok.small,
  take-length path,
  c_string_id path ok.no_nul,
)

pub get_path_lem :
    (w : World) (op client : ℕ) (path : Bytes) (rest : List (Option Bytes))
    → op < 64
    → IsPath path
    → client ≢ 0
    → w.reads ≡ some path ∷ rest
    → server_get_path (message op path) client w ≡ ret (some path, record w { reads = rest })
get_path_lem w op client path rest known ok some_client next =
    let (_, same_len, some_message) = message_lem op path known ok in
    get_path_word w (message op path) client path rest same_len some_message ok some_client next

-- A worker takes the message `m` that the client sent, and serves it.
pub worker_round_word :
    (w : World) (m client : ℕ) (rest : List (Option Bytes)) {result : ℤ} {w' : World}
    → 0 < m
    → m < 2 ^ 32
    → w.reads ≡ some (wire (Frame.status m)) ∷ rest
    → serve m client (record w { reads = rest }) ≡ ret (result, w')
    → worker_round client w ≡ ret (true, w')
unfolding worker_round wire
worker_round_word w m client rest some_message small next served =
    let whole : take 4 (le_encode 4 m) ≡ le_encode 4 m =
      take-all 4 (le_encode 4 m) (omega (arith, length-le_encode 4 m)) in
    let arrived : overwrite 0 (le_encode 4 m) ≡ m = overwrite-response m 0 small (omega arith) in
    ground (arith, next, whole, arrived, some_message, served)

pub worker_round_lem :
    (w : World) (op client : ℕ) (path : Bytes) (rest : List (Option Bytes)) {result : ℤ}
    {w' : World}
    → op < 64
    → IsPath path
    → w.reads ≡ some (wire (Frame.status (message op path))) ∷ rest
    → serve (message op path) client (record w { reads = rest }) ≡ ret (result, w')
    → worker_round client w ≡ ret (true, w')
worker_round_lem w op client path rest known ok next served =
    let (_, _, some_message) = message_lem op path known ok in
    worker_round_word w (message op path) client rest some_message (message-small op path known ok)
      next served

pub getfile_lem :
    (s : Storage) (path : Bytes) (p : ℕ) (f : FileData)
    → hu_get s.table path ≡ some p
    → s.heap p ≡ some f
    → fu_getfile s path ≡ ret (some p, store s p (touched f))
unfolding fu_getfile
getfile_lem s path p f found here = ground (arith, found, here)

module _ (w : World) (client p : ℕ) (path : Bytes) (f : FileData) (rest : List (Option Bytes))
    (ok : IsPath path) (some_client : client ≢ 0) (found : hu_get w.storage.table path ≡ some p)
    (here : w.storage.heap p ≡ some f) (next : w.reads ≡ some path ∷ rest) where
  -- The world after the lookup.
  abbrev looked_up : World
  looked_up = record w { storage = store w.storage p (touched f); reads = rest }

  there : looked_up.storage.heap p ≡ some (touched f)
  there = rw (==_refl p) refl

  again : (g : FileData) → store (store w.storage p (touched f)) p g ≡ store w.storage p g
  again g =
      ap (λ h. record (w.storage) { heap = h })
        (update-update w.storage.heap p (some (touched f)) (some g))

  pub serve_close :
      f.locked ≡ false
      → f.client ≡ pos client
      → w.writes ≡ []
      → serve (message 10 path) client w
        ≡ ret (
          pos 0,
          record looked_up {
            storage = store w.storage p (record (touched f) { client = minus_one; locked = false });
            sent = w.sent ++ (Frame.status sapi_success ∷ []);
          },
        )
  unfolding serve server_close_file
  serve_close free own answer =
      let (same_op, _, some_message) = message_lem 10 path (omega arith) ok in
      let closed = close_stored_owner looked_up client p there free own some_client answer in
      ground (
        arith,
        same_op,
        some_message,
        some_client,
        get_path_lem w 10 client path rest (omega arith) ok some_client next,
        getfile_lem w.storage path p f found here,
        closed,
        again (record (touched f) { client = minus_one; locked = false }),
      )

  pub serve_read :
      f.locked ≡ false
      → f.client ≡ pos client
      → 0 < f.data_len
      → length f.content ≡ f.data_len
      → w.writes ≡ []
      → serve (message 4 path) client w
        ≡ ret (
          pos 0,
          record looked_up {
            storage = store w.storage p (record (touched f) { locked = false });
            sent =
                ((w.sent ++ (Frame.status sapi_success ∷ [])) ++ (Frame.size f.data_len ∷ []))
                ++ (Frame.payload f.content ∷ []);
          },
        )
  unfolding serve server_read_file
  serve_read free own filled sound answer =
      let (same_op, _, some_message) = message_lem 4 path (omega arith) ok in
      let sent =
        read_stored-owner looked_up client p there free own some_client filled sound answer in
      ground (
        arith,
        same_op,
        some_message,
        some_client,
        get_path_lem w 4 client path rest (omega arith) ok some_client next,
        getfile_lem w.storage path p f found here,
        sent,
        again (record (touched f) { locked = false }),
      )
