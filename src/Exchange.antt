-- ===== src/Exchange.antt =====
-- The connection between the client library (src/serverapi.c) and the handlers (src/server.c): what one
-- side writes is what the other reads, in the machine's byte order, one `read` for each `write`.
pub mod Wire
pub mod Asking
pub mod Sending
pub mod Serving
pub mod Storing
pub mod Opening
pub mod Files
pub mod Refinement
pub mod Roundtrip
pub mod Lifecycle
pub mod Listing
pub mod Failures
use lso_baldini.Common.{ℕ, zero, suc, ◌/◌, ◌%◌, List, [], ◌∷◌, Option, some, map, ◌++◌, ◌≡◌, true}
use lso_baldini.CString.{Bytes}
use lso_baldini.Client.{Session, C}
use lso_baldini.Run.{ret}
use lso_baldini.Server.Worker.{worker_round}
use lso_baldini.Server.World.{Frame, World}

-- The `k` bytes of a number, little-endian.
unfoldable pub le_encode : ℕ → ℕ → Bytes
le_encode zero n = []
le_encode (suc k) n = n % 256 ∷ le_encode k (n / 256)

unfoldable pub wire : Frame → Bytes
unfolding le_encode
wire (Frame.status m) = le_encode 4 m
wire (Frame.size n) = le_encode 8 n
wire (Frame.payload bytes) = bytes

-- What the other side's `read`s return.
unfoldable pub delivered : List Frame → List (Option Bytes)
unfolding wire
delivered frames = map (λ f. some (wire f)) frames

-- A call of the client library in the session `c` and the round of the worker that serves it in the
-- world `w`, each of which reads what the other writes and no more: the call sends `said`, returns
-- `result` and leaves the session `c'`, and the worker sends `answered`, ends in the world `w'` and has
-- the client polled again.
pub record Converses {A : Type 0} (call : C A) (client : ℕ) (c : Session) (w : World) (result : A)
    (c' : Session) (w' : World) : Type 0 where
  pub said : List Frame
  pub answered : List Frame
  pub asks : call (record c { reads = delivered answered ++ c.reads }) ≡ ret (result, c')
  pub says : c'.sent ≡ c.sent ++ said
  pub hears : c'.reads ≡ c.reads
  pub serves : worker_round client (record w { reads = delivered said ++ w.reads }) ≡ ret (true, w')
  pub answers : w'.sent ≡ w.sent ++ answered
  pub all_read : w'.reads ≡ w.reads
