-- ===== src/Client/Transfer.antt =====
-- `writeFile` and `appendToFile` (src/serverapi.c).
use lso_baldini.Common.{
  ℕ, [], Bool, true, false, Option, none, some, ◌==◌, if◌then◌else◌, not, ◌||◌, ◌&&◌, length, ℤ,
  pos, minus_one, eq_ℤ,
}
use lso_baldini.CString.{Bytes}
use lso_baldini.Disk.{Buffer}
use lso_baldini.Message.{sapi_writefile, sapi_appendfile, sapi_success, sapi_evict as evict_answer}
use lso_baldini.Client.{
  C, pure, ◌>>=◌, is_connected, read_disk, sapi_senddatalen, sapi_senddata, sapi_get_response,
}
use lso_baldini.Client.Requests.{send_request}
use lso_baldini.Client.Eviction.{sapi_evict}

-- The data, and the last answer.
unfoldable pub send_content : Buffer → C ℤ
unfolding sapi_senddata sapi_get_response
send_content buffer = do
  failed ← sapi_senddata buffer
  if failed
      then pure minus_one
      else do m ← sapi_get_response; pure (if m == 0 then pos 0 else minus_one)

-- What `writeFile` does when files are evicted: `true` if it returns -1 at once.
unfoldable pub write_evict : Option Bytes → C Bool
unfolding sapi_senddatalen sapi_evict
write_evict none = sapi_senddatalen 0
write_evict (some dirname) = do
  failed ← sapi_senddatalen 1
  if failed then pure true else do result ← sapi_evict dirname; pure (eq_ℤ result minus_one)

-- The rest of `writeFile` from the first answer on.
unfoldable pub write_answered : ℕ → Option Bytes → Buffer → C ℤ
unfolding write_evict send_content
write_answered m dirname buffer = do
  failed ← if m == evict_answer then write_evict dirname else pure false
  if failed || not (m == sapi_success) then pure minus_one else send_content buffer

unfoldable pub write_file : Option Bytes → Option Bytes → C ℤ
unfolding send_request sapi_senddatalen sapi_get_response write_answered
write_file none dirname = pure minus_one
write_file (some path) dirname = do
  connected ← is_connected
  if not connected then pure minus_one else do
    file ← read_disk path ([], 0)
    if eq_ℤ file.0 minus_one then pure minus_one else do
      failed ← send_request sapi_writefile 0 path
      if failed then pure minus_one else do
        no_len ← sapi_senddatalen file.1.1
        if no_len then pure minus_one else do m ← sapi_get_response; write_answered m dirname file.1

-- What `appendToFile` does when files are evicted: `true` if it returns -1 at once.
unfoldable pub append_evict : Option Bytes → C Bool
unfolding sapi_senddatalen sapi_evict
append_evict none = sapi_senddatalen 0
append_evict (some dirname) = do result ← sapi_evict dirname; pure (eq_ℤ result minus_one)

-- The rest of `appendToFile` from the first answer on.
unfoldable pub append_answered : ℕ → Option Bytes → Buffer → C ℤ
unfolding append_evict send_content
append_answered m dirname buffer =
    if m == 0
    then send_content buffer
    else if not (m == evict_answer)
    then pure minus_one
    else do failed ← append_evict dirname; if failed then pure minus_one else send_content buffer

unfoldable pub append_to_file : Option Bytes → Buffer → Option Bytes → C ℤ
unfolding send_request sapi_senddatalen sapi_get_response append_answered
append_to_file none buffer dirname = pure minus_one
append_to_file (some path) (bytes, size) dirname =
    if (length bytes == 0 && not (size == 0)) || (size == 0 && not (length bytes == 0))
    then pure minus_one
    else if size == 0 && length bytes == 0
    then pure (pos 0)
    else do
      connected ← is_connected
      if not connected then pure minus_one else do
        failed ← send_request sapi_appendfile 0 path
        if failed then pure minus_one else do
          no_len ← sapi_senddatalen size
          if no_len
              then pure minus_one
              else do m ← sapi_get_response; append_answered m dirname (bytes, size)
