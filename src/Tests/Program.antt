-- ===== src/Tests/Program.antt =====
-- Runs of the client program's functions (src/client.c).
use lso_baldini.Client.{Session}
use lso_baldini.Common.{[], ◌∷◌, ◌≡◌, ◌≢◌, refl, true, false, none, negsuc, arith}
use lso_baldini.CString.{su_string_compare, strncmp}
use lso_baldini.Disk.{Disk}
use lso_baldini.ListUtils.{lu_insert}
use lso_baldini.Memory.{mu_malloc}
use lso_baldini.Program.Ends.{program_lists_end}
use lso_baldini.Program.Folders.{Folders}
use lso_baldini.Program.Lists.{
  write_files_list, read_files_list, lock_files_list, unlock_files_list, remove_files_list,
}
use lso_baldini.Program.Names.{join, insert_all, conf_add_list-join}
use lso_baldini.Program.{
  PathList, conf_add_list, add_tokens, strtok, mu_clone, strtol, ClientConf, set_folder,
}
use lso_baldini.Run.{ret, blocked, fault}
use lso_baldini.Stream.{codes}

abbrev nothing : PathList
nothing = record { items = []; len = 0; element_size = 8 }

conf_add_list_run :
    conf_add_list (codes "b,,a") nothing
    ≡ ret (record nothing { items = codes "a" ∷ codes "b" ∷ []; len = 2 })
unfolding conf_add_list add_tokens strtok mu_clone lu_insert su_string_compare strncmp
conf_add_list_run = refl

conf_add_list-join_example :
    conf_add_list (join (codes "a") (codes "bc" ∷ [])) nothing
    ≡ ret (insert_all (codes "a" ∷ codes "bc" ∷ []) nothing)
conf_add_list-join_example = conf_add_list-join (codes "a") (codes "bc" ∷ []) nothing (ground arith)

strtol_run : strtol (codes " -12x") ≡ negsuc 11
unfolding strtol
strtol_run = refl

-- Without the number of files the option ends in a null pointer.
set_folder_run : (conf : ClientConf) → set_folder (codes "/d") conf ≡ fault
unfolding set_folder strtok mu_malloc
set_folder_run conf = refl

abbrev disk : Disk
disk = record {
  files = λ path. none;
  opens = λ path. true;
  write_fails = λ path. false;
  close_fails = λ path. false;
  spoiled = λ path. [];
}

abbrev session : Session
session = record {
  connected = true;
  reads = [];
  writes = [];
  sent = [];
  disk = disk;
  word = 0;
  junk = 7;
}

-- The folder /d, which holds the folder s.
abbrev nested : Folders
nested = record {
  enters = λ path. true;
  opens = λ path. true;
  entries = λ path. (codes ".", 16877) ∷ (codes "s", 16877) ∷ (codes "..", 16877) ∷ [];
  closes = λ path. true;
}

abbrev some_paths : PathList
some_paths = record { items = codes "/a" ∷ codes "/b" ∷ []; len = 2; element_size = 8 }

program_lists_end_example :
    (write_files_list some_paths none session ≢ blocked)
    × (read_files_list some_paths (codes "/d") session ≢ blocked)
    × (lock_files_list some_paths session ≢ blocked)
    × (unlock_files_list some_paths session ≢ blocked)
    × (remove_files_list some_paths session ≢ blocked)
program_lists_end_example = program_lists_end session some_paths none (codes "/d")
