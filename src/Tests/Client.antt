-- ===== src/Tests/Client.antt =====
-- The theorems on the client library, on its files and on what it exchanges with the server, at
-- concrete inputs.
use lso_baldini.Client.Connection.{Connect, connected, retried}
use lso_baldini.Client.Loops.{client_terminates}
use lso_baldini.Client.ReadMany.{read_n_files}
use lso_baldini.Client.Requests.{path_request, read_file}
use lso_baldini.Client.Transfer.{write_file, append_to_file}
use lso_baldini.Client.{Session}
use lso_baldini.Common.{
  ◌-◌, ℕ, ◌+◌, ◌≤◌, ◌≡◌, ◌≢◌, refl, [], ◌∷◌, ◌++◌, true, false, none, some, if◌then◌else◌, ltb, ℤ,
  pos, minus_one, length, arith,
}
use lso_baldini.CString.{Bytes}
use lso_baldini.Disk.Laws.{fu_read_from_path-write}
use lso_baldini.Disk.{Disk, fu_read_from_path, fu_write_to_path, put_file}
use lso_baldini.Exchange.Asking.{IsUp}
use lso_baldini.Exchange.Failures.{write_file_evicted}
use lso_baldini.Exchange.Serving.{IsPath}
use lso_baldini.Exchange.{wire}
use lso_baldini.Message.{sapi_success, sapi_evict}
use lso_baldini.Run.{ret, blocked, Ensures}
use lso_baldini.Server.World.{World, Frame, le_decode}
use lso_baldini.Server.Write.Success.{write_stored-room}
use lso_baldini.Server.Write.{write_stored}
use lso_baldini.Storage.Invariant.{IsValid, store-IsValid}
use lso_baldini.Storage.Writing.{written}
use lso_baldini.Storage.{FileData, Storage, store, update, fu_storage_bytes_available}
use lso_baldini.Exchange.Refinement.{files}
use lso_baldini.Tests.Files.{some_bytes, filled, one_file, one_file-IsValid, file_a, path_a}
use lso_baldini.UString.Laws.{IsText, su_append_chars_lem}
use lso_baldini.UString.{UString, su_append_chars}

-- A disk on which every call succeeds, with one file.
abbrev empty_disk : Disk
empty_disk = record {
  files = λ path. none;
  opens = λ path. true;
  write_fails = λ path. false;
  close_fails = λ path. false;
  spoiled = λ path. [];
}

abbrev pub three_bytes : Bytes
three_bytes = 10 ∷ 20 ∷ 30 ∷ []

abbrev disk : Disk
disk = put_file empty_disk path_a three_bytes

abbrev pub session : Session
session = record {
  connected = true;
  reads = [];
  writes = [];
  sent = [];
  disk = disk;
  word = 7;
  junk = 9;
}

pub session-IsUp : IsUp session
session-IsUp = record { set = refl; sends = refl; word_small = omega arith }

pub path_a-IsPath : IsPath path_a
path_a-IsPath = record { no_nul = (refl, tt); filled = omega arith; small = omega arith }

-- Client 5 has the file open.
abbrev owned_file : FileData
owned_file = record file_a { client = pos 5 }

abbrev owned : Storage
owned = store one_file 1 owned_file

owned-IsValid : IsValid owned
owned-IsValid = store-IsValid 1 file_a owned_file one_file-IsValid refl refl refl

abbrev pub world : World
world = record {
  storage = owned;
  reads = [];
  writes = [];
  sent = [];
  uninit = 0;
  stale = λ path. path;
}

pub three_bytes-read : fu_read_from_path disk path_a ([], 0) ≡ ret (pos 0, (three_bytes, 3))
unfolding fu_write_to_path
three_bytes-read =
    (fu_read_from_path-write empty_disk path_a three_bytes refl refl refl (omega arith)
      (omega arith)).1

three_bytes-fit : length three_bytes ≤ fu_storage_bytes_available owned
unfolding fu_storage_bytes_available
three_bytes-fit = omega arith

-- The file has three bytes.
abbrev kept_file : FileData
kept_file = record (written file_a 0 some_bytes) { client = pos 5 }

abbrev kept : Storage
kept = store filled 1 kept_file

abbrev keeping : World
keeping = record world { storage = kept }

abbrev three : Bytes
three = 3 ∷ 0 ∷ 0 ∷ 0 ∷ 0 ∷ 0 ∷ 0 ∷ 0 ∷ []

three-decoded : le_decode three ≡ length three_bytes
unfolding le_decode
three-decoded = refl

abbrev writing : World
writing = record world { reads = some three ∷ some three_bytes ∷ [] }

write_stored-room_example :
    write_stored true 5 1 writing
    ≡ ret (
      pos 0,
      record writing {
        storage = record (writing.storage) {
          locked = false;
          curr_bytes = writing.storage.curr_bytes + (0 + 3) - 0;
          heap =
              update writing.storage.heap 1
                (some (record (written owned_file 0 three_bytes) { locked = false }));
        };
        sent =
            (writing.sent ++ (Frame.status sapi_success ∷ [])) ++ (Frame.status sapi_success ∷ []);
        reads = [];
      },
    )
write_stored-room_example =
    write_stored-room true 5 1 three_bytes (λ e. cc) (omega arith) writing owned_file three []
      owned-IsValid refl refl refl (omega arith) three_bytes-fit refl three-decoded refl refl

client_terminates_example :
    (read_file (some path_a) ([], 0) session ≢ blocked)
    × (read_n_files 3 none session ≢ blocked)
    × (write_file (some path_a) none session ≢ blocked)
    × (append_to_file (some path_a) ([], 0) none session ≢ blocked)
    × (path_request 40 0 (some path_a) session ≢ blocked)
client_terminates_example = client_terminates session 40 0 3 (some path_a) none ([], 0)

-- The third attempt connects.
abbrev third : ℕ → Connect
third i = if ltb i 2 then retried else connected

abbrev string_a : UString
string_a = record { buffer = 97 ∷ 5 ∷ []; len = 1 }

string_a-IsText : IsText string_a path_a
string_a-IsText = record { last = 5; held = refl; counted = refl }

su_append_chars_lem_example :
    (t : UString) × (su_append_chars 9 string_a (47 ∷ 98 ∷ []) ≡ ret t)
    × (t.buffer ≡ (path_a ++ (47 ∷ 98 ∷ [])) ++ (0 ∷ []))
    × IsText t (path_a ++ (47 ∷ 98 ∷ []))
su_append_chars_lem_example =
    su_append_chars_lem 9 string_a path_a (47 ∷ 98 ∷ []) string_a-IsText (omega arith)

abbrev evicting : Session
evicting = record session { reads = some (wire (Frame.status sapi_evict)) ∷ [] }

evicting-IsUp : IsUp evicting
evicting-IsUp = record { set = refl; sends = refl; word_small = omega arith }

write_file_evicted_example :
    Ensures (λ (x : ℤ × Session). x.0 ≡ minus_one) (write_file (some path_a) (some path_a) evicting)
write_file_evicted_example =
    write_file_evicted evicting path_a three_bytes (some path_a) [] evicting-IsUp (omega arith)
      three_bytes-read refl
