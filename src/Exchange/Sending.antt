-- ===== src/Exchange/Sending.antt =====
-- What `writeFile` and `appendToFile` (src/serverapi.c) send while the connection works.
use lso_baldini.Common.{
  ℕ, ◌^◌, ◌<◌, ◌≡◌, refl, ap, ◌∙◌, List, [], ◌∷◌, ◌++◌, Option, some, ◌==◌, if◌then◌else◌, pos,
  minus_one, length, take-length, append_assoc, arith,
}
use lso_baldini.CString.{Bytes}
use lso_baldini.Disk.{fu_read_from_path}
use lso_baldini.Message.{sapi_writefile, sapi_appendfile}
use lso_baldini.Run.{ret}
use lso_baldini.Server.World.{Frame}
use lso_baldini.Client.{Session, sapi_senddata, sapi_senddatalen}
use lso_baldini.Client.Transfer.{
  send_content, write_answered, write_file, append_answered, append_to_file,
}
use lso_baldini.Exchange.{wire}
use lso_baldini.Exchange.Asking.{IsUp, request, after, send_request_lem, get_response_lem}

-- The data that follows a request, and the last answer.
send_content_lem :
    (c : Session) (bytes : Bytes) (m : ℕ) (rest : List (Option Bytes))
    → IsUp c
    → 0 < length bytes
    → c.reads ≡ some (wire (Frame.status m)) ∷ rest
    → m < 2 ^ 32
    → send_content (bytes, length bytes) c
      ≡ ret (if m == 0 then pos 0 else minus_one, after c (Frame.payload bytes ∷ []) rest)
unfolding send_content sapi_senddata
send_content_lem c bytes m rest up filled next small =
    let answered =
      get_response_lem (after c (Frame.payload bytes ∷ []) c.reads) m rest next small
        up.word_small in
    ground (arith, up.set, up.sends, filled, take-length bytes, answered)

-- What `writeFile` sends before the first answer.
abbrev pub write_asking : Bytes → Bytes → List Frame
write_asking path bytes = request sapi_writefile 0 path ++ (Frame.size (length bytes) ∷ [])

-- `writeFile` up to the first answer.
pub write_file_asked :
    (c : Session) (path bytes : Bytes) (dirname : Option Bytes) (m : ℕ) (rest : List (Option Bytes))
    → IsUp c
    → 0 < length path
    → fu_read_from_path c.disk path ([], 0) ≡ ret (pos 0, (bytes, length bytes))
    → c.reads ≡ some (wire (Frame.status m)) ∷ rest
    → m < 2 ^ 32
    → write_file (some path) dirname c
      ≡ write_answered m dirname (bytes, length bytes) (after c (write_asking path bytes) rest)
unfolding write_file sapi_senddatalen
write_file_asked c path bytes dirname m rest up some_path on_disk next small =
    let len_sent : (c.sent ++ request sapi_writefile 0 path) ++ (Frame.size (length bytes) ∷ [])
        ≡ c.sent ++ write_asking path bytes =
      append_assoc c.sent (request sapi_writefile 0 path) (Frame.size (length bytes) ∷ []) in
    let answered =
      get_response_lem (after c (write_asking path bytes) c.reads) m rest next small
        up.word_small in
    ground (
      arith,
      up.set,
      up.sends,
      on_disk,
      send_request_lem c sapi_writefile 0 path up some_path,
      len_sent,
      answered,
    )

-- `writeFile` sends the file of the disk, if the server has room for it, and returns as the server
-- answers last.
pub write_file_answered :
    (c : Session) (path bytes : Bytes) (dirname : Option Bytes) (m : ℕ) (rest : List (Option Bytes))
    → IsUp c
    → 0 < length path
    → 0 < length bytes
    → fu_read_from_path c.disk path ([], 0) ≡ ret (pos 0, (bytes, length bytes))
    → c.reads ≡ some (wire (Frame.status 0)) ∷ some (wire (Frame.status m)) ∷ rest
    → m < 2 ^ 32
    → write_file (some path) dirname c
      ≡ ret (
        if m == 0 then pos 0 else minus_one,
        after c
            (request sapi_writefile 0 path
              ++ (Frame.size (length bytes) ∷ Frame.payload bytes ∷ []))
            rest,
      )
unfolding write_answered
write_file_answered c path bytes dirname m rest up some_path filled on_disk next small =
    let more = some (wire (Frame.status m)) ∷ rest in
    let asked =
      write_file_asked c path bytes dirname 0 more up some_path on_disk next (omega arith) in
    let c₁ = after c (write_asking path bytes) more in
    let stored =
      send_content_lem c₁ bytes m rest
        (record { set = up.set; sends = up.sends; word_small = up.word_small }) filled refl small in
    let all_sent : c₁.sent ++ (Frame.payload bytes ∷ [])
        ≡ c.sent
          ++ (request sapi_writefile 0 path
              ++ (Frame.size (length bytes) ∷ Frame.payload bytes ∷ [])) =
      append_assoc c.sent (write_asking path bytes) (Frame.payload bytes ∷ []) in
    asked
    ∙ stored
    ∙ ap
        (λ frames.
          ret (if m == 0 then pos 0 else minus_one, record c { sent = frames; reads = rest }))
        all_sent

-- `appendToFile` sends its data, if the server has room for it, and returns as the server answers last.
pub append_to_file_answered :
    (c : Session) (path bytes : Bytes) (dirname : Option Bytes) (m : ℕ) (rest : List (Option Bytes))
    → IsUp c
    → 0 < length path
    → 0 < length bytes
    → c.reads ≡ some (wire (Frame.status 0)) ∷ some (wire (Frame.status m)) ∷ rest
    → m < 2 ^ 32
    → append_to_file (some path) (bytes, length bytes) dirname c
      ≡ ret (
        if m == 0 then pos 0 else minus_one,
        after c
            (request sapi_appendfile 0 path
              ++ (Frame.size (length bytes) ∷ Frame.payload bytes ∷ []))
            rest,
      )
unfolding append_to_file sapi_senddatalen append_answered
append_to_file_answered c path bytes dirname m rest up some_path filled next small =
    let more = some (wire (Frame.status m)) ∷ rest in
    let asked = request sapi_appendfile 0 path ++ (Frame.size (length bytes) ∷ []) in
    let len_sent : (c.sent ++ request sapi_appendfile 0 path) ++ (Frame.size (length bytes) ∷ [])
        ≡ c.sent ++ asked =
      append_assoc c.sent (request sapi_appendfile 0 path) (Frame.size (length bytes) ∷ []) in
    let answered =
      get_response_lem (after c asked c.reads) 0 more next (omega arith) up.word_small in
    let stored =
      send_content_lem (after c asked more) bytes m rest
        (record { set = up.set; sends = up.sends; word_small = up.word_small }) filled refl small in
    let all_sent : (c.sent ++ asked) ++ (Frame.payload bytes ∷ [])
        ≡ c.sent
          ++ (request sapi_appendfile 0 path
              ++ (Frame.size (length bytes) ∷ Frame.payload bytes ∷ [])) =
      append_assoc c.sent asked (Frame.payload bytes ∷ []) in
    ground (
      arith,
      filled,
      up.set,
      up.sends,
      send_request_lem c sapi_appendfile 0 path up some_path,
      len_sent,
      answered,
      stored,
      all_sent,
    )
