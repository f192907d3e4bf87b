-- ===== src/Server/Write/Success.antt =====
-- What `server_writeFile` and `server_appendToFile` (src/server.c) do with a file of the client, if
-- there is room for the data.
use lso_baldini.Common.{
  ℕ, ◌+◌, ◌-◌, ◌≤◌, ◌<◌, ◌≡◌, ◌≢◌, refl, List, [], ◌∷◌, ◌++◌, Bool, true, false, Option, some, pos,
  if◌then◌else◌, length, take-all, take-length, append_nil, replicate, arith, eq_ℤ_refl, ==_refl,
}
use lso_baldini.CString.{Bytes}
use lso_baldini.Memory.{mu_calloc, max_request}
use lso_baldini.Message.{sapi_success}
use lso_baldini.Run.{ret}
use lso_baldini.Server.Close.Answers.{update-update}
use lso_baldini.Server.World.{World, Frame, le_decode}
use lso_baldini.Server.Write.{
  store_bytes, receive, make_room, check_read_response, write_stored, Room,
}
use lso_baldini.Storage.Invariant.{IsValid, store-IsValid, flag-IsValid}
use lso_baldini.Storage.Writing.{written, rewritten, fu_writefile_fits}
use lso_baldini.Storage.{FileData, Storage, store, update, fu_storage_bytes_available}

-- Where the new bytes go.
abbrev pub offset : Bool → FileData → ℕ
offset append f = if append then f.data_len else 0

-- The storage with the new bytes in the file, whose mutex is free.
abbrev pub saved : Storage → ℕ → FileData → ℕ → Bytes → Storage
saved s p f i bytes =
    store (rewritten s p f i bytes) p (record (written f i bytes) { locked = false })

offset-le : (append : Bool) (f : FileData) → offset append f ≤ f.data_len
offset-le true f = omega arith
offset-le false f = omega arith

available_lem :
    {s : Storage} → IsValid s → fu_storage_bytes_available s ≡ s.max_bytes - s.curr_bytes
unfolding fu_storage_bytes_available
available_lem v = ground (arith, v.bytes_bound, v.bytes_small)

module _ (append : Bool) (client p : ℕ) (bytes : Bytes) (some_client : client ≢ 0)
    (filled : 0 < length bytes) where
  store_bytes_lem :
      (w : World) (f : FileData)
      → IsValid w.storage
      → w.storage.heap p ≡ some f
      → offset append f ≤ f.data_len
      → offset append f + length bytes ≤ max_request
      → w.storage.curr_bytes + (offset append f + length bytes) ≤ w.storage.max_bytes + f.data_len
      → w.writes ≡ []
      → store_bytes append client p (length bytes) (some bytes) w
        ≡ ret (
          pos 0,
          record w {
            storage = saved w.storage p f (offset append f) bytes;
            sent = w.sent ++ (Frame.status sapi_success ∷ []);
          },
        )
  unfolding store_bytes
  store_bytes_lem w f v here inside small fits answer =
      let put = fu_writefile_fits p (offset append f) bytes v here filled inside small fits in
      ground (arith, put, here, some_client, answer, ==_refl p)

  receive_lem :
      (w : World) (f : FileData) (rest : List (Option Bytes))
      → IsValid w.storage
      → w.storage.heap p ≡ some f
      → offset append f ≤ f.data_len
      → offset append f + length bytes ≤ max_request
      → w.storage.curr_bytes + (offset append f + length bytes) ≤ w.storage.max_bytes + f.data_len
      → w.reads ≡ some bytes ∷ rest
      → w.writes ≡ []
      → receive append client p (length bytes) w
        ≡ ret (
          pos 0,
          record w {
            storage = saved w.storage p f (offset append f) bytes;
            sent = w.sent ++ (Frame.status sapi_success ∷ []);
            reads = rest;
          },
        )
  unfolding receive mu_calloc replicate
  receive_lem w f rest v here inside small fits next answer =
      let stored = store_bytes_lem (record w { reads = rest }) f v here inside small fits answer in
      let all_set : length bytes - length bytes ≡ 0 = omega arith in
      ground (arith, next, filled, small, take-length bytes, all_set, append_nil bytes, stored)

  make_room_lem :
      (w : World) (f : FileData)
      → length bytes ≤ fu_storage_bytes_available w.storage
      → w.writes ≡ []
      → make_room client (length bytes) w
        ≡ ret (Room.roomy, record w { sent = w.sent ++ (Frame.status sapi_success ∷ []) })
  unfolding make_room
  make_room_lem w f room answer = ground (arith, room, some_client, answer)

  -- The owner of a file whose mutex is free, in a valid storage, writes or appends at least one byte, for
  -- which there is room and with which the file has at most 4 MiB: if the data arrives as announced and
  -- the answers are sent, the client
  -- receives two times the success, the bytes stand in the file, behind its old content if they are
  -- appended and in its place if not, they are counted, and both mutexes are free.
  pub write_stored-room :
      (w : World) (f : FileData) (size_bytes : Bytes) (rest : List (Option Bytes))
      → IsValid w.storage
      → w.storage.heap p ≡ some f
      → f.locked ≡ false
      → f.client ≡ pos client
      → offset append f + length bytes ≤ max_request
      → length bytes ≤ fu_storage_bytes_available w.storage
      → length size_bytes ≡ 8
      → le_decode size_bytes ≡ length bytes
      → w.reads ≡ some size_bytes ∷ some bytes ∷ rest
      → w.writes ≡ []
      → write_stored append client p w
        ≡ ret (
          pos 0,
          record w {
            storage = record (w.storage) {
              locked = false;
              curr_bytes = w.storage.curr_bytes + (offset append f + length bytes) - f.data_len;
              heap =
                  update w.storage.heap p
                    (some (record (written f (offset append f) bytes) { locked = false }));
            };
            sent = (w.sent ++ (Frame.status sapi_success ∷ [])) ++ (Frame.status sapi_success ∷ []);
            reads = rest;
          },
        )
  unfolding write_stored check_read_response
  write_stored-room w f size_bytes rest v here free own small room whole decoded next answer =
      let held = record f { locked = true } in
      let s₁ = store w.storage p held in
      let v₁ : IsValid s₁ = store-IsValid p f held v here refl refl in
      let w₁ = record w { storage = s₁; reads = some bytes ∷ rest } in
      let roomy = make_room_lem w₁ held room answer in
      let s₂ = record s₁ { locked = false } in
      let w₂ = record w₁ { storage = s₂; sent = w.sent ++ (Frame.status sapi_success ∷ []) } in
      let there : s₂.heap p ≡ some held = rw (==_refl p) refl in
      let inside = offset-le append f in
      let fits : s₂.curr_bytes + (offset append f + length bytes) ≤ s₂.max_bytes + f.data_len =
        omega (arith, inside, room, available_lem v, v.bytes_bound) in
      let received =
        receive_lem w₂ held rest (flag-IsValid false v₁) there inside small fits refl answer in
      let once =
        update-update w.storage.heap p (some held) (some (written held (offset append f) bytes)) in
      let twice =
        update-update w.storage.heap p (some (written held (offset append f) bytes))
          (some (record (written f (offset append f) bytes) { locked = false })) in
      ground (
        arith,
        here,
        free,
        own,
        eq_ℤ_refl (pos client),
        next,
        whole,
        decoded,
        take-all 8 size_bytes (omega (arith, whole)),
        roomy,
        received,
        once,
        twice,
      )
