-- ===== src/Server/Read/Answers.antt =====
-- What `server_readFile` (src/server.c) sends.
use lso_baldini.Common.{
  ℕ, [], ◌∷◌, ◌++◌, true, false, some, pos, ◌≡◌, ◌≢◌, ◌<◌, arith, eq_ℤ_refl, length,
}
use lso_baldini.Message.{sapi_success}
use lso_baldini.Run.{ret}
use lso_baldini.Server.Close.Answers.{update-update}
use lso_baldini.Server.Read.{read_stored}
use lso_baldini.Server.World.{World, Frame}
use lso_baldini.Storage.{FileData, store}

-- The owner of a file that is not empty, is as long as is recorded and whose mutex is free reads it:
-- while all is sent, the client receives the success, the length and the content, the mutex is free
-- again, and nothing else in the storage changes.
pub read_stored-owner :
    (w : World) (client p : ℕ) {f : FileData}
    → w.storage.heap p ≡ some f
    → f.locked ≡ false
    → f.client ≡ pos client
    → client ≢ 0
    → 0 < f.data_len
    → length f.content ≡ f.data_len
    → w.writes ≡ []
    → read_stored client p w
      ≡ ret (
        pos 0,
        record w {
          storage = store w.storage p (record f { locked = false });
          sent =
              ((w.sent ++ (Frame.status sapi_success ∷ [])) ++ (Frame.size f.data_len ∷ []))
              ++ (Frame.payload f.content ∷ []);
        },
      )
unfolding read_stored
read_stored-owner w client p {f} here free own some_client filled sound answer = ground (
  arith,
  eq_ℤ_refl (pos client),
  update-update w.storage.heap p (some (record f { locked = true }))
      (some (record f { locked = false })),
)
