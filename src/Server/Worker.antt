-- ===== src/Server/Worker.antt =====
-- One round of a worker (`server_worker`, src/server.c) with a client that is assigned to it.
use lso_baldini.Common.{ℕ, Bool, true, false, none, some, ◌==◌, if◌then◌else◌}
use lso_baldini.Server.Serve.{serve}
use lso_baldini.Server.World.{M, pure, ◌>>=◌, read, overwrite, le_decode}

-- `true` if the client is to be polled again.
unfoldable pub worker_round : ℕ → M Bool
unfolding le_decode serve
worker_round client = do
  bytes ← read 4
  elim bytes [
    | none ↦ pure false
    | some bs ↦
        if overwrite 0 bs == 0 then pure false else do _ ← serve (overwrite 0 bs) client; pure true
  ]
