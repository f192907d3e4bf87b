-- ===== src/Exchange/Asking.antt =====
-- What the client library (src/serverapi.c) sends while its connection works, and what it makes of the
-- answers.
use lso_baldini.Common.{
  ℕ, ◌^◌, ◌≤◌, ◌<◌, ◌≡◌, refl, List, [], ◌∷◌, ◌++◌, Option, some, true, false, ◌==◌, if◌then◌else◌,
  pos, minus_one, length, take-length, take-all, append_assoc, append_nil, ◌-◌, arith, replicate,
}
use lso_baldini.CString.{Bytes}
use lso_baldini.Memory.{mu_realloc, max_request}
use lso_baldini.Message.{sapi_message_len, sapi_readfile}
use lso_baldini.Run.{ret}
use lso_baldini.Server.World.{Frame}
use lso_baldini.Client.{
  Session, sapi_sendop, sapi_senddata, sapi_get_response, get_block, sapi_get_data,
}
use lso_baldini.Client.Requests.{send_request, path_request, read_file}
use lso_baldini.Exchange.{le_encode, wire}
use lso_baldini.Exchange.Wire.{length-le_encode, overwrite-response, overwrite-size}

-- The connection works: the client has one, and no `write` will fail.
pub record IsUp (c : Session) : Type 0 where
  pub set : c.connected ≡ true
  pub sends : c.writes ≡ []
  pub word_small : c.word < 2 ^ 32

-- The message and the path that start a request.
abbrev pub request : ℕ → ℕ → Bytes → List Frame
request op flags path =
    Frame.status (sapi_message_len flags op (length path)) ∷ Frame.payload path ∷ []

-- The client after it has sent `frames` and read what came before `rest`.
abbrev pub after : Session → List Frame → List (Option Bytes) → Session
after c frames rest = record c { sent = c.sent ++ frames; reads = rest }

pub send_request_lem :
    (c : Session) (op flags : ℕ) (path : Bytes)
    → IsUp c
    → 0 < length path
    → send_request op flags path c ≡ ret (false, after c (request op flags path) c.reads)
unfolding send_request sapi_sendop sapi_senddata
send_request_lem c op flags path up some_path = ground (
  arith,
  up.set,
  up.sends,
  take-length path,
  some_path,
  append_assoc c.sent (Frame.status (sapi_message_len flags op (length path)) ∷ [])
      (Frame.payload path ∷ []),
)

pub get_response_lem :
    (c : Session) (m : ℕ) (rest : List (Option Bytes))
    → c.reads ≡ some (wire (Frame.status m)) ∷ rest
    → m < 2 ^ 32
    → c.word < 2 ^ 32
    → sapi_get_response c ≡ ret (m, record c { reads = rest })
unfolding sapi_get_response wire
get_response_lem c m rest next small word_small = ground (
  arith,
  next,
  take-all 4 (le_encode 4 m) (omega (arith, length-le_encode 4 m)),
  overwrite-response m c.word small word_small,
)

-- A request on one path is answered by the status that the server sends.
pub path_request_answered :
    (c : Session) (op flags m : ℕ) (path : Bytes) (rest : List (Option Bytes))
    → IsUp c
    → 0 < length path
    → c.reads ≡ some (wire (Frame.status m)) ∷ rest
    → m < 2 ^ 32
    → path_request op flags (some path) c
      ≡ ret (if m == 0 then pos 0 else minus_one, after c (request op flags path) rest)
unfolding path_request
path_request_answered c op flags m path rest up some_path next small =
    let answered =
      get_response_lem (after c (request op flags path) c.reads) m rest next small up.word_small in
    ground (arith, up.set, send_request_lem c op flags path up some_path, answered)

pub get_data_lem :
    (c : Session) (old bytes : Bytes) (old_len : ℕ) (rest : List (Option Bytes))
    → c.reads ≡ some (wire (Frame.size (length bytes))) ∷ some (wire (Frame.payload bytes)) ∷ rest
    → 0 < length bytes
    → length bytes ≤ max_request
    → old_len < 2 ^ 64
    → sapi_get_data (old, old_len) c
      ≡ ret ((pos 0, (bytes, length bytes)), record c { reads = rest })
unfolding sapi_get_data get_block wire mu_realloc replicate
get_data_lem c old bytes old_len rest next filled small old_small =
    let all_set : length bytes - length bytes ≡ 0 = omega arith in
    ground (
      arith,
      next,
      filled,
      small,
      take-all 8 (le_encode 8 (length bytes)) (omega (arith, length-le_encode 8 (length bytes))),
      overwrite-size (length bytes) old_len (omega (arith, small)) old_small,
      take-length bytes,
      append_nil bytes,
      all_set,
    )

-- A file that the server sends is received as it was sent, if it is not empty and can be allocated.
pub read_file_answered :
    (c : Session) (path old bytes : Bytes) (old_len : ℕ) (rest : List (Option Bytes))
    → IsUp c
    → 0 < length path
    → c.reads
      ≡ some (wire (Frame.status 0))
        ∷ some (wire (Frame.size (length bytes)))
        ∷ some (wire (Frame.payload bytes))
        ∷ rest
    → 0 < length bytes
    → length bytes ≤ max_request
    → old_len < 2 ^ 64
    → read_file (some path) (old, old_len) c
      ≡ ret ((pos 0, (bytes, length bytes)), after c (request sapi_readfile 0 path) rest)
unfolding read_file
read_file_answered c path old bytes old_len rest up some_path next filled small old_small =
    let more = some (wire (Frame.size (length bytes))) ∷ some (wire (Frame.payload bytes)) ∷ rest in
    let c₁ = after c (request sapi_readfile 0 path) c.reads in
    let answered = get_response_lem c₁ 0 more next (omega arith) up.word_small in
    let received =
      get_data_lem (record c₁ { reads = more }) old bytes old_len rest refl filled small
        old_small in
    ground (arith, up.set, send_request_lem c sapi_readfile 0 path up some_path, answered, received)
