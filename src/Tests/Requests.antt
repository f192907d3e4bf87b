-- ===== src/Tests/Requests.antt =====
-- The theorems on the handlers at concrete requests.
use lso_baldini.Common.{true}
use lso_baldini.Common.{
  ℕ, List, [], ◌∷◌, ◌++◌, ◌≡◌, refl, some, pos, minus_one, false, ℤ, arith, ◌+◌,
}
use lso_baldini.Message.{sapi_openfile, sapi_writefile, sapi_removefile, sapi_success, sapi_failure}
use lso_baldini.Message.{sapi_locked, sapi_already}
use lso_baldini.Server.Open.Answers.{open_stored-free, open_stored-already}
use lso_baldini.Server.Open.{open_stored}
use lso_baldini.Server.Read.Answers.{read_stored-owner}
use lso_baldini.Server.Read.{read_stored}
use lso_baldini.Server.Write.Answers.{write_stored-refused}
use lso_baldini.Server.Write.{write_stored}
use lso_baldini.Run.{ret, Ensures}
use lso_baldini.Server.Isolation.Requests.{serve-Isolates}
use lso_baldini.Server.Isolation.{Isolates}
use lso_baldini.Server.Open.Creation.{open_new-full}
use lso_baldini.Server.Open.{open_new}
use lso_baldini.Server.Serve.{serve}
use lso_baldini.Server.Validity.{serve_all, serve_all-IsValid}
use lso_baldini.Server.World.{World, Frame}
use lso_baldini.Storage.Addition.{new_file, alloc-IsPending, with_file, with_file-IsValid}
use lso_baldini.Storage.Start.{empty_storage, empty_storage-IsValid}
use lso_baldini.Storage.{Heap, Storage, update, fu_alloc_file_data}
use lso_baldini.Common.{inr, ℕ, ◌++◌, some}
use lso_baldini.Storage.Invariant.{IsValid}
use lso_baldini.Storage.{FileData, store}
use lso_baldini.Tests.Files.{start, start-IsValid, path_a, one_file}

-- Client 5 creates a file and writes three bytes to it; client 6 asks for its removal.
abbrev open_message : ℕ
open_message = 1 + sapi_openfile + 256

abbrev write_message : ℕ
write_message = sapi_writefile + 256

abbrev remove_message : ℕ
remove_message = sapi_removefile + 256

abbrev world : World
world = record {
  storage = start;
  reads =
      some path_a
      ∷ some path_a
      ∷ some (3 ∷ 0 ∷ 0 ∷ 0 ∷ 0 ∷ 0 ∷ 0 ∷ 0 ∷ [])
      ∷ some (10 ∷ 20 ∷ 30 ∷ [])
      ∷ some path_a
      ∷ [];
  writes = [];
  sent = [];
  uninit = 0;
  stale = λ path. path;
}

serve_all-IsValid_example :
    Ensures
      (λ (r : List ℤ × World). IsValid r.1.storage)
      (serve_all ((open_message, 5) ∷ (write_message, 5) ∷ (remove_message, 6) ∷ []) world)
serve_all-IsValid_example =
    serve_all-IsValid ((open_message, 5) ∷ (write_message, 5) ∷ (remove_message, 6) ∷ []) world
      start-IsValid

serve-Isolates_example :
    Ensures (λ (r : ℤ × World). Isolates 5 world.storage r.1.storage) (serve open_message 5 world)
serve-Isolates_example = serve-Isolates open_message 5 world

-- A server that may store one file, and does.
abbrev only_one : Storage
only_one =
    with_file
      (record (empty_storage 2 1 100) { heap = update start.heap 1 (some new_file); next = 2 }) 1
      new_file path_a

only_one-IsValid : IsValid only_one
unfolding fu_alloc_file_data
only_one-IsValid =
    with_file-IsValid 1 path_a
      (alloc-IsPending (empty_storage-IsValid 2 1 100 (omega arith) (omega arith) (omega arith)))
      (omega arith)

abbrev full_world : World
full_world = record world { storage = only_one }

open_new-full_example :
    (h : Heap) × (open_new open_message 5 (98 ∷ []) full_world
      ≡ ret (
        minus_one,
        record full_world {
          storage = record only_one { heap = h; next = 3; locked = false };
          sent = [] ++ (Frame.status sapi_failure ∷ []);
        },
      ))
    × ((q : ℕ) → h q ≡ only_one.heap q)
open_new-full_example =
    open_new-full open_message 5 (98 ∷ []) full_world only_one-IsValid refl refl (λ e. cc)
      (inr refl)

abbrev owned_file : FileData
owned_file = record {
  content = [];
  data_len = 0;
  client = pos 5;
  data_info = 0;
  locked = false;
  path = some path_a;
}

abbrev owned_world : World
owned_world = record world { storage = store one_file 1 owned_file }

-- Client 5 has the file open and has written two bytes.
abbrev written_file : FileData
written_file = record owned_file { content = 10 ∷ 20 ∷ []; data_len = 2 }

abbrev written_world : World
written_world = record world { storage = store one_file 1 written_file }

read_stored-owner_example :
    read_stored 5 1 written_world
    ≡ ret (
      pos 0,
      record written_world {
        storage = store written_world.storage 1 (record written_file { locked = false });
        sent =
            ((written_world.sent ++ (Frame.status sapi_success ∷ []))
              ++ (Frame.size written_file.data_len ∷ []))
            ++ (Frame.payload written_file.content ∷ []);
      },
    )
read_stored-owner_example =
    read_stored-owner written_world 5 1 refl refl refl (λ e. cc) (omega arith) refl refl

abbrev held_world : World
held_world = record written_world { storage = record (written_world.storage) { locked = true } }

write_stored-refused_example :
    (w' : World) × (write_stored true 6 1 held_world ≡ ret (pos 3, w'))
    × (w'.sent ≡ held_world.sent ++ (Frame.status sapi_locked ∷ []))
    × ((q : ℕ) → w'.storage.heap q ≡ held_world.storage.heap q)
    × (w'.storage.locked ≡ true)
write_stored-refused_example =
    write_stored-refused held_world true 6 1 refl refl refl (λ e. cc) refl refl

abbrev closed_file : FileData
closed_file = record written_file { client = minus_one }

abbrev closed_world : World
closed_world = record world { storage = store one_file 1 closed_file }

open_stored-free_example :
    (g : FileData) × (open_stored open_message 6 1 closed_world
      ≡ ret (
        pos 0,
        record closed_world {
          storage = store closed_world.storage 1 g;
          sent = closed_world.sent ++ (Frame.status sapi_success ∷ []);
        },
      ))
    × (g.client ≡ pos 6)
    × (g.content ≡ closed_file.content)
    × (g.data_len ≡ closed_file.data_len)
    × (g.path ≡ closed_file.path)
    × (g.locked ≡ false)
open_stored-free_example =
    open_stored-free closed_world open_message 6 1 refl refl refl (λ e. cc) refl

open_stored-already_example :
    open_stored open_message 6 1 written_world
    ≡ ret (
      minus_one,
      record written_world {
        storage = store written_world.storage 1 (record written_file { locked = false });
        sent = written_world.sent ++ (Frame.status sapi_already ∷ []);
      },
    )
open_stored-already_example =
    open_stored-already written_world open_message 6 1 refl refl refl (λ e. cc) refl
