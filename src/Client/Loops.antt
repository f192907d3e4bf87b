-- ===== src/Client/Loops.antt =====
-- The loops in the requests of the client library (src/serverapi.c).
use lso_baldini.Common.{
  ℕ, [], true, false, Option, none, some, ◌==◌, if◌then◌else◌, length, pos, minus_one, arith, ◌≢◌,
  not, ◌||◌, eq_ℤ,
}
use lso_baldini.CString.{Bytes}
use lso_baldini.Disk.Laws.{fu_read_from_path-Settles}
use lso_baldini.Disk.{Buffer, fu_read_from_path}
use lso_baldini.Message.{
  sapi_evict as evict_answer, sapi_success, sapi_writefile, sapi_appendfile, sapi_readfile,
}
use lso_baldini.Run.{blocked}
use lso_baldini.Client.{Session}
use lso_baldini.Client.Ends.{settled, Ends, end_pure, end_bind, end_if, end_lift, end_is_connected}
use lso_baldini.Client.Ends.Calls.{
  end_sendop, end_senddatalen, end_senddata, end_get_response, end_get_data,
}
use lso_baldini.Client.ReadMany.{read_n_files}
use lso_baldini.Client.Transfer.{
  send_content, write_evict, write_answered, write_file, append_evict, append_answered,
  append_to_file,
}
use lso_baldini.Client.Requests.{send_request, path_request, read_file}
use lso_baldini.Client.Ends.Saving.{end_sapi_evict, end_read_n_files}

end_send_request : {n : ℕ} (op flags : ℕ) (path : Bytes) → Ends n (send_request op flags path)
unfolding send_request
end_send_request op flags path =
    end_bind (end_sendop (length path) op flags)
      λ failed. end_if failed (end_pure failed) (end_senddata (path, length path))

end_send_content : {n : ℕ} (buffer : Buffer) → Ends n (send_content buffer)
unfolding send_content
end_send_content buffer = end_bind (end_senddata buffer) λ failed.
    end_if failed (end_pure minus_one)
      (end_bind end_get_response λ m. end_pure (if m == 0 then pos 0 else minus_one))

end_write_evict : {n : ℕ} (dirname : Option Bytes) → Ends n (write_evict dirname)
unfolding write_evict
end_write_evict none = end_senddatalen 0
end_write_evict (some dirname) = end_bind (end_senddatalen 1) λ failed.
    end_if failed (end_pure true)
      (end_bind (end_sapi_evict dirname) λ result. end_pure (eq_ℤ result minus_one))

end_write_answered :
    {n : ℕ} (m : ℕ) (dirname : Option Bytes) (buffer : Buffer)
    → Ends n (write_answered m dirname buffer)
unfolding write_answered
end_write_answered m dirname buffer =
    end_bind (end_if (m == evict_answer) (end_write_evict dirname) (end_pure false)) λ failed.
      end_if (failed || not (m == sapi_success)) (end_pure minus_one) (end_send_content buffer)

end_append_evict : {n : ℕ} (dirname : Option Bytes) → Ends n (append_evict dirname)
unfolding append_evict
end_append_evict none = end_senddatalen 0
end_append_evict (some dirname) =
    end_bind (end_sapi_evict dirname) λ result. end_pure (eq_ℤ result minus_one)

end_append_answered :
    {n : ℕ} (m : ℕ) (dirname : Option Bytes) (buffer : Buffer)
    → Ends n (append_answered m dirname buffer)
unfolding append_answered
end_append_answered m dirname buffer = end_if (m == 0) (end_send_content buffer) (
    end_if (not (m == evict_answer)) (end_pure minus_one) (
      end_bind (end_append_evict dirname)
        λ failed. end_if failed (end_pure minus_one) (end_send_content buffer)))

end_append_to_file :
    {n : ℕ} (path : Option Bytes) (buffer : Buffer) (dirname : Option Bytes)
    → Ends n (append_to_file path buffer dirname)
unfolding append_to_file
end_append_to_file none buffer dirname = end_pure minus_one
end_append_to_file (some path) (bytes, size) dirname = end_if _ (end_pure minus_one) (
    end_if _ (end_pure (pos 0)) (
      end_bind end_is_connected λ connected. end_if (not connected) (end_pure minus_one) (
        end_bind (end_send_request sapi_appendfile 0 path) λ failed.
          end_if failed (end_pure minus_one) (
            end_bind (end_senddatalen size) λ no_len.
              end_if no_len (end_pure minus_one)
                (end_bind end_get_response λ m. end_append_answered m dirname (bytes, size))))))

pub end_write_file :
    {n : ℕ} (path : Option Bytes) (dirname : Option Bytes) → Ends n (write_file path dirname)
unfolding write_file
end_write_file none dirname = end_pure minus_one
end_write_file (some path) dirname = end_bind end_is_connected λ connected.
    end_if (not connected) (end_pure minus_one) (
      end_bind
        (end_lift (λ c. fu_read_from_path c.disk path ([], 0))
          (λ c. fu_read_from_path-Settles c.disk path ([], 0)))
        λ file. end_if (eq_ℤ file.0 minus_one) (end_pure minus_one) (
          end_bind (end_send_request sapi_writefile 0 path) λ failed.
            end_if failed (end_pure minus_one) (
              end_bind (end_senddatalen file.1.1) λ no_len.
                end_if no_len (end_pure minus_one)
                  (end_bind end_get_response λ m. end_write_answered m dirname file.1))))

pub end_path_request :
    {n : ℕ} (op flags : ℕ) (path : Option Bytes) → Ends n (path_request op flags path)
unfolding path_request
end_path_request op flags none = end_pure minus_one
end_path_request op flags (some path) = end_bind end_is_connected λ connected.
    end_if (not connected) (end_pure minus_one) (
      end_bind (end_send_request op flags path) λ failed.
        end_if failed (end_pure minus_one)
          (end_bind end_get_response λ m. end_pure (if m == 0 then pos 0 else minus_one)))

pub end_read_file : {n : ℕ} (path : Option Bytes) (buffer : Buffer) → Ends n (read_file path buffer)
unfolding read_file
end_read_file none buffer = end_pure _
end_read_file (some path) buffer = end_bind end_is_connected λ connected.
    end_if (not connected) (end_pure _) (
      end_bind (end_send_request sapi_readfile 0 path) λ failed.
        end_if failed (end_pure _)
          (end_bind end_get_response λ m. end_if (not (m == 0)) (end_pure _) (end_get_data buffer)))

-- Every loop of the requests ends, whatever the server sends, if the stream from it ends: none of
-- `readFile`, `readNFiles`, `writeFile`, `appendToFile` and the requests on one path goes on for ever,
-- for any arguments, in any state of the connection and of the disk.
pub client_terminates :
    (c : Session) (op flags count : ℕ) (path dirname : Option Bytes) (buffer : Buffer)
    → (read_file path buffer c ≢ blocked)
      × (read_n_files count dirname c ≢ blocked)
      × (write_file path dirname c ≢ blocked)
      × (append_to_file path buffer dirname c ≢ blocked)
      × (path_request op flags path c ≢ blocked)
client_terminates c op flags count path dirname buffer =
    let n = length c.reads in
    (
      settled n (read_file path buffer c) ((end_read_file path buffer).run c (omega arith)),
      settled n (read_n_files count dirname c)
          ((end_read_n_files count dirname).run c (omega arith)),
      settled n (write_file path dirname c) ((end_write_file path dirname).run c (omega arith)),
      settled n (append_to_file path buffer dirname c)
          ((end_append_to_file path buffer dirname).run c (omega arith)),
      settled n (path_request op flags path c)
          ((end_path_request op flags path).run c (omega arith)),
    )
