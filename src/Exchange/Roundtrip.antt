-- ===== src/Exchange/Roundtrip.antt =====
-- A file that the client library (src/serverapi.c) writes to the server (src/server.c) and reads from
-- it.
use lso_baldini.Client.{Session, C}
use lso_baldini.Common.{Bool, ℕ, ◌++◌}
use lso_baldini.Exchange.{Converses, delivered}
use lso_baldini.Run.{Ensures}
use lso_baldini.Server.Validity.{worker_round-IsValid}
use lso_baldini.Server.World.{World}
use lso_baldini.Storage.Invariant.{IsValid}
use lso_baldini.Storage.PathKey.{path_key}
use mathlib.Core.Path.{subst}

-- A request that is served leaves a valid storage.
pub Converses-IsValid :
    {A : Type 0} {call : C A} (client : ℕ) {c c' : Session} (w w' : World) {result : A}
    → Converses call client c w result c' w'
    → IsValid w.storage
    → IsValid w'.storage
Converses-IsValid client w w' h v =
    let w₀ = record w { reads = delivered h.said ++ w.reads } in
    subst (Ensures (λ (r : Bool × World). IsValid r.1.storage)) h.serves
      (worker_round-IsValid client w₀ v)
