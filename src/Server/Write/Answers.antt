-- ===== src/Server/Write/Answers.antt =====
-- What `server_writeFile` and `server_appendToFile` (src/server.c) do with a file of another client.
use lso_baldini.Common.{
  ℕ, [], ◌∷◌, ◌++◌, Bool, true, false, some, pos, ◌≡◌, ◌≢◌, arith, eq_ℤ, ◌==◌, ==_iff, Bool-cases,
  inl, inr, ap, sym,
}
use lso_baldini.Message.{sapi_locked}
use lso_baldini.Run.{ret}
use lso_baldini.Server.Close.Answers.{update-update}
use lso_baldini.Server.World.{World, Frame}
use lso_baldini.Server.Write.{write_stored}
use lso_baldini.Storage.{FileData, Storage, store}

store_same :
    (s : Storage) (p q : ℕ) {f g : FileData}
    → s.heap p ≡ some f
    → g ≡ f
    → (store s p g).heap q ≡ s.heap q
store_same s p q {f} {g} here same = elim (Bool-cases (p == q)) [
  | inl e ↦
      let at_q : s.heap q ≡ some f = ground (arith, here, (==_iff p q).0 e) in
      ground (arith, at_q, ap some same)
  | inr n ↦ ground arith
]

-- A client that does not own a file whose mutex is free is refused when it writes or appends to it:
-- it is sent that the file is locked, and the file is as it was. The mutex of the storage, which the
-- handler has locked before, is not unlocked.
pub write_stored-refused :
    (w : World) (append : Bool) (client p : ℕ) {f : FileData}
    → w.storage.heap p ≡ some f
    → f.locked ≡ false
    → eq_ℤ f.client (pos client) ≡ false
    → client ≢ 0
    → w.writes ≡ []
    → w.storage.locked ≡ true
    → (w' : World) × (write_stored append client p w ≡ ret (pos 3, w'))
      × (w'.sent ≡ w.sent ++ (Frame.status sapi_locked ∷ []))
      × ((q : ℕ) → w'.storage.heap q ≡ w.storage.heap q)
      × (w'.storage.locked ≡ true)
unfolding write_stored
write_stored-refused w append client p {f} here free foreign some_client answer held = (
  record w {
    storage = store w.storage p (record f { locked = false });
    sent = w.sent ++ (Frame.status sapi_locked ∷ []);
  },
  ground (
    arith,
    update-update w.storage.heap p (some (record f { locked = true }))
        (some (record f { locked = false })),
  ),
  ground arith,
  λ q. store_same w.storage p q here (ap (λ b. record f { locked = b }) (sym free)),
  held,
)
