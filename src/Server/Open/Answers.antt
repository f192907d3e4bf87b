-- ===== src/Server/Open/Answers.antt =====
-- What `server_openFile` (src/server.c) answers about a file that is stored.
use lso_baldini.Common.{
  ℕ, [], ◌∷◌, ◌++◌, true, false, some, pos, minus_one, ◌≡◌, ◌≢◌, arith, eq_ℤ, Bool-cases, inl, inr,
  refl,
}
use lso_baldini.Message.{sapi_success, sapi_already, locks}
use lso_baldini.Run.{ret}
use lso_baldini.Server.Close.Answers.{update-update}
use lso_baldini.Server.Open.{open_stored, lock_bit}
use lso_baldini.Server.World.{World, Frame}
use lso_baldini.Storage.{FileData, store}

-- A stored file that nobody has open and whose mutex is free is opened for the client: the file is the
-- client's then, with its content as it was, its mutex is free again, nothing else in the storage
-- changes, and the client is sent the success. With the flag O_LOCK all but one bit of `data_info` is
-- lost.
pub open_stored-free :
    (w : World) (message client p : ℕ) {f : FileData}
    → w.storage.heap p ≡ some f
    → f.locked ≡ false
    → f.client ≡ minus_one
    → client ≢ 0
    → w.writes ≡ []
    → (g : FileData) × (open_stored message client p w
        ≡ ret (
          pos 0,
          record w {
            storage = store w.storage p g;
            sent = w.sent ++ (Frame.status sapi_success ∷ []);
          },
        ))
      × (g.client ≡ pos client)
      × (g.content ≡ f.content)
      × (g.data_len ≡ f.data_len)
      × (g.path ≡ f.path)
      × (g.locked ≡ false)
unfolding open_stored
open_stored-free w message client p {f} here free unowned some_client answer =
    elim (Bool-cases (locks message)) [
      | inl lock ↦
          let before : FileData = record f {
            client = pos client;
            data_info = lock_bit f.data_info;
            locked = true;
          } in
          let g : FileData = record f {
            client = pos client;
            data_info = lock_bit f.data_info;
            locked = false;
          } in
          (
            g,
            ground (
              arith,
              update-update w.storage.heap p (some (record f { locked = true })) (some before),
              update-update w.storage.heap p (some before) (some g),
            ),
            refl,
            refl,
            refl,
            refl,
            refl,
          )
      | inr no_lock ↦
          let before : FileData = record f { client = pos client; locked = true } in
          let g : FileData = record f { client = pos client; locked = false } in
          (
            g,
            ground (
              arith,
              update-update w.storage.heap p (some (record f { locked = true })) (some before),
              update-update w.storage.heap p (some before) (some g),
            ),
            refl,
            refl,
            refl,
            refl,
            refl,
          )
    ]

-- A stored file that somebody has open already, the client itself included, and whose mutex is free is
-- not opened: the client is sent so, and the file keeps its owner and its content.
pub open_stored-already :
    (w : World) (message client p : ℕ) {f : FileData}
    → w.storage.heap p ≡ some f
    → f.locked ≡ false
    → eq_ℤ f.client minus_one ≡ false
    → client ≢ 0
    → w.writes ≡ []
    → open_stored message client p w
      ≡ ret (
        minus_one,
        record w {
          storage = store w.storage p (record f { locked = false });
          sent = w.sent ++ (Frame.status sapi_already ∷ []);
        },
      )
unfolding open_stored
open_stored-already w message client p {f} here free owned some_client answer = ground (
  arith,
  update-update w.storage.heap p (some (record f { locked = true }))
      (some (record f { locked = false })),
)
