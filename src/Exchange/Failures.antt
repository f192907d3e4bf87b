-- ===== src/Exchange/Failures.antt =====
-- Requests on which the client library (src/serverapi.c) and the handlers (src/server.c) need not agree.
use mathlib.Core.Path.{subst}
use lso_baldini.Client.Transfer.{send_content, write_file, write_answered, write_evict}
use lso_baldini.Client.{Session, pure}
use lso_baldini.Common.{
  List, ℕ, ◌<◌, ◌≡◌, ◌≢◌, refl, sym, [], ◌∷◌, Option, some, Bool, true, false, pos, minus_one,
  length, arith, ℤ, if◌then◌else◌, ◌||◌,
}
use lso_baldini.CString.{Bytes}
use lso_baldini.Disk.{Buffer, fu_read_from_path}
use lso_baldini.Exchange.Asking.{IsUp, after}
use lso_baldini.Exchange.Sending.{write_asking, write_file_asked}
use lso_baldini.Exchange.Serving.{IsPath, message, message_lem}
use lso_baldini.Exchange.{wire}
use lso_baldini.Message.{sapi_evict as evict_answer}
use lso_baldini.Run.{Run, ret, blocked, exited, fault, Ensures}
use lso_baldini.Server.Close.{server_lock_file, server_unlock_file}
use lso_baldini.Server.Serve.{serve}
use lso_baldini.Server.World.{World, Frame}

-- A request to lock or to unlock a file: the handler returns 0, reads no path, sends no answer and
-- changes nothing.
pub serve_lock :
    (w : World) (client : ℕ) (path : Bytes)
    → IsPath path
    → client ≢ 0
    → (serve (message 8 path) client w ≡ ret (pos 0, w))
      × (serve (message 9 path) client w ≡ ret (pos 0, w))
unfolding serve server_lock_file server_unlock_file
serve_lock w client path ok some_client =
    let (lock_op, _, some_lock) = message_lem 8 path (omega arith) ok in
    let (unlock_op, _, some_unlock) = message_lem 9 path (omega arith) ok in
    (
      ground (arith, lock_op, some_lock, some_client),
      ground (arith, unlock_op, some_unlock, some_client),
    )

answered_outcome :
    (buffer : Buffer) (r : Run (Bool × Session))
    → Ensures
        (λ (x : ℤ × Session). x.0 ≡ minus_one)
        (elim r [
          | ret (failed, c) ↦ (if failed || true then pure minus_one else send_content buffer) c
          | blocked ↦ blocked
          | exited ↦ exited
          | fault ↦ fault
        ])
answered_outcome buffer (ret (true, c)) = refl
answered_outcome buffer (ret (false, c)) = refl
answered_outcome buffer blocked = tt
answered_outcome buffer exited = tt
answered_outcome buffer fault = tt

-- `writeFile` does not return 0 if the server has to evict files for it: it returns -1 or ends the
-- process.
pub write_file_evicted :
    (c : Session) (path bytes : Bytes) (dirname : Option Bytes) (rest : List (Option Bytes))
    → IsUp c
    → 0 < length path
    → fu_read_from_path c.disk path ([], 0) ≡ ret (pos 0, (bytes, length bytes))
    → c.reads ≡ some (wire (Frame.status evict_answer)) ∷ rest
    → Ensures (λ (x : ℤ × Session). x.0 ≡ minus_one) (write_file (some path) dirname c)
unfolding write_answered
write_file_evicted c path bytes dirname rest up some_path on_disk next =
    let sent = after c (write_asking path bytes) rest in
    let asked =
      write_file_asked c path bytes dirname evict_answer rest up some_path on_disk next
        (omega arith) in
    subst (Ensures (λ (x : ℤ × Session). x.0 ≡ minus_one)) (sym asked)
      (answered_outcome (bytes, length bytes) (write_evict dirname sent))
