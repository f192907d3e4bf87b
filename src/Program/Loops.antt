-- ===== src/Program/Loops.antt =====
-- `write_nfiles_from_dir` (src/client.c) on a folder that holds a folder and no file: the removal from the
-- list of folders takes the inner folder for the outer one, since the one path is a prefix of the other.
use lso_baldini.Client.Eviction.{slash}
use lso_baldini.Common.{
  ℕ, ◌+◌, ◌<◌, ◌≡◌, List, [], ◌∷◌, ◌++◌, Bool, true, false, length, ◌==◌, ◌||◌, All,
}
use lso_baldini.CString.{Bytes}
use lso_baldini.Disk.{same_path}
use lso_baldini.Memory.{max_request}
use lso_baldini.Program.{PathList}
use lso_baldini.Program.Folders.{Folders, du_filenodetype}
use lso_baldini.Stream.{codes}
use lso_baldini.UString.Laws.{HasNoNul}
use lso_baldini.UString.{UString}

abbrev pub is_dots : Bytes → Bool
is_dots name = same_path name (codes ".") || same_path name (codes "..")

-- An entry for the folder itself or the one that it is in.
abbrev pub IsDots : Bytes × ℕ → Type 0
IsDots (name, st_mode) = ((du_filenodetype st_mode == b'd') ≡ true) × (is_dots name ≡ true)

-- The folder `dirpath` can be read and holds, besides itself and the one that it is in, the folder `name`
-- and nothing else, and its path and the name are short.
pub record HoldsFolder (folders : Folders) (dirpath name : Bytes) : Type 0 where
  pub enters : folders.enters dirpath ≡ true
  pub opens : folders.opens dirpath ≡ true
  pub closes : folders.closes dirpath ≡ true
  pub before : List (Bytes × ℕ)
  pub after : List (Bytes × ℕ)
  pub st_mode : ℕ
  pub lists : folders.entries dirpath ≡ before ++ ((name, st_mode) ∷ after)
  pub is_folder : (du_filenodetype st_mode == b'd') ≡ true
  pub is_named : is_dots name ≡ false
  pub before_dots : All IsDots before
  pub after_dots : All IsDots after
  pub no_nul : HasNoNul dirpath × HasNoNul name
  pub is_short : length dirpath + length name + 1 < max_request

abbrev one_folder : Bytes → PathList
one_folder path = record { items = path ∷ []; len = 1; element_size = 8 }

abbrev two_folders : Bytes → Bytes → PathList
two_folders path path' = record { items = path ∷ path' ∷ []; len = 2; element_size = 8 }

abbrev no_paths : PathList
no_paths = record { items = []; len = 0; element_size = 8 }

module _ (folders : Folders) (dirpath name : Bytes) (holds : HoldsFolder folders dirpath name) where
  open holds use {
    enters, opens, closes, before, after, st_mode, lists, is_folder, is_named, before_dots,
    after_dots, no_nul, is_short,
  }

  abbrev inner : Bytes
  inner = dirpath ++ (slash ++ name)
