-- ===== src/Client/Requests.antt =====
-- The requests on one path (src/serverapi.c): `openFile`, `readFile`, `lockFile`, `unlockFile`,
-- `closeFile` and `removeFile`.
use lso_baldini.Common.{
  ℕ, Bool, Option, none, some, ◌==◌, if◌then◌else◌, not, length, ℤ, pos, minus_one,
}
use lso_baldini.CString.{Bytes}
use lso_baldini.Disk.{Buffer}
use lso_baldini.Message.{
  sapi_openfile, sapi_readfile, sapi_lockfile, sapi_unlockfile, sapi_closefile, sapi_removefile,
}
use lso_baldini.Client.{
  C, pure, ◌>>=◌, is_connected, sapi_sendop, sapi_senddata, sapi_get_response, sapi_get_data,
}

-- The message and the path: `true` is the error return.
unfoldable pub send_request : ℕ → ℕ → Bytes → C Bool
unfolding sapi_sendop sapi_senddata
send_request op flags path = do
  failed ← sapi_sendop (length path) op flags
  if failed then pure failed else sapi_senddata (path, length path)

-- The message and the path, and the answer.
unfoldable pub path_request : ℕ → ℕ → Option Bytes → C ℤ
unfolding send_request sapi_get_response
path_request op flags none = pure minus_one
path_request op flags (some path) = do
  connected ← is_connected
  if not connected then pure minus_one else do
    failed ← send_request op flags path
    if failed
        then pure minus_one
        else do m ← sapi_get_response; pure (if m == 0 then pos 0 else minus_one)

unfoldable pub open_file : Option Bytes → ℕ → C ℤ
unfolding path_request
open_file pathname flags = path_request sapi_openfile flags pathname

unfoldable pub read_file : Option Bytes → Buffer → C (ℤ × Buffer)
unfolding send_request sapi_get_response sapi_get_data
read_file none buffer = pure (minus_one, buffer)
read_file (some path) buffer = do
  connected ← is_connected
  if not connected then pure (minus_one, buffer) else do
    failed ← send_request sapi_readfile 0 path
    if failed then pure (minus_one, buffer) else do
      m ← sapi_get_response
      if not (m == 0) then pure (minus_one, buffer) else sapi_get_data buffer

unfoldable pub lock_file : Option Bytes → C ℤ
unfolding path_request
lock_file = path_request sapi_lockfile 0

unfoldable pub unlock_file : Option Bytes → C ℤ
unfolding path_request
unlock_file = path_request sapi_unlockfile 0

unfoldable pub close_file : Option Bytes → C ℤ
unfolding path_request
close_file = path_request sapi_closefile 0

unfoldable pub remove_file : Option Bytes → C ℤ
unfolding path_request
remove_file = path_request sapi_removefile 0
