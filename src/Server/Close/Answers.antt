-- ===== src/Server/Close/Answers.antt =====
-- What `server_closeFile` (src/server.c) answers and changes.
use lso_baldini.Common.{
  ℕ, [], ◌∷◌, ◌++◌, true, false, Option, some, pos, minus_one, ◌≡◌, ◌≢◌, arith, eq_ℤ_refl,
}
use lso_baldini.Run.{ret}
use lso_baldini.Storage.{FileData, store, update, Heap}
use lso_baldini.Server.World.{World, Frame}
use lso_baldini.Server.Close.{close_stored}
use lso_baldini.Message.{sapi_success}
use mathlib.Core.Path.{fun_ext}

pub update-update :
    (h : Heap) (p : ℕ) (v u : Option FileData) → update (update h p v) p u ≡ update h p u
update-update h p v u = fun_ext λ q. ground arith

-- The owner of a file whose mutex is free closes it: the file belongs to nobody then, its mutex is free
-- again, nothing else in the storage changes, and the client is sent the success.
pub close_stored_owner :
    (w : World) (client p : ℕ) {f : FileData}
    → w.storage.heap p ≡ some f
    → f.locked ≡ false
    → f.client ≡ pos client
    → client ≢ 0
    → w.writes ≡ []
    → close_stored client p w
      ≡ ret (
        pos 0,
        record w {
          storage = store w.storage p (record f { client = minus_one; locked = false });
          sent = w.sent ++ (Frame.status sapi_success ∷ []);
        },
      )
unfolding close_stored
close_stored_owner w client p {f} here free own some_client answer = ground (
  arith,
  eq_ℤ_refl (pos client),
  update-update w.storage.heap p (some (record f { locked = true }))
      (some (record f { client = minus_one; locked = true })),
  update-update w.storage.heap p (some (record f { client = minus_one; locked = true }))
      (some (record f { client = minus_one; locked = false })),
)
