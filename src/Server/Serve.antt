-- ===== src/Server/Serve.antt =====
-- `serve` (src/server.c): the handler of a request by its operation.
use lso_baldini.Common.{ℕ, ◌==◌, if◌then◌else◌, ℤ, pos, minus_one}
use lso_baldini.Message.{
  sapi_failure, op_of, sapi_openfile, sapi_readfile, sapi_readnfiles, sapi_writefile,
  sapi_appendfile, sapi_lockfile, sapi_unlockfile, sapi_closefile, sapi_removefile,
}
use lso_baldini.Server.World.{M, pure, ◌>>=◌, server_respond}
use lso_baldini.Server.Close.{server_close_file, server_lock_file, server_unlock_file}
use lso_baldini.Server.Open.{server_open_file}
use lso_baldini.Server.Read.{server_read_file}
use lso_baldini.Server.ReadMany.{server_read_n_files}
use lso_baldini.Server.Remove.{server_remove_file}
use lso_baldini.Server.Write.{server_write_file, server_append_to_file}

-- The `default` case.
unfoldable pub serve_unknown : ℕ → M ℤ
unfolding server_respond
serve_unknown client = do
  failed ← server_respond sapi_failure client
  if failed then pure (pos 1) else pure minus_one

unfoldable pub serve : ℕ → ℕ → M ℤ
unfolding serve_unknown
serve request client =
    if op_of request == sapi_openfile
    then server_open_file request client
    else if op_of request == sapi_closefile
    then server_close_file request client
    else if op_of request == sapi_readfile
    then server_read_file request client
    else if op_of request == sapi_readnfiles
    then server_read_n_files request client
    else if op_of request == sapi_writefile
    then server_write_file request client
    else if op_of request == sapi_appendfile
    then server_append_to_file request client
    else if op_of request == sapi_lockfile
    then server_lock_file request client
    else if op_of request == sapi_unlockfile
    then server_unlock_file request client
    else if op_of request == sapi_removefile
    then server_remove_file request client
    else serve_unknown client
