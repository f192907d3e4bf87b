-- ===== src/Exchange/Lifecycle.antt =====
-- A file that a client (src/serverapi.c) creates on the server (src/server.c), writes, reads and closes.
use lso_baldini.Server.World.{World}
use lso_baldini.Storage.PathKey.{path_key}
use lso_baldini.Storage.{Storage}
