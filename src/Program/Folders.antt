-- ===== src/Program/Folders.antt =====
-- The files of a folder (src/dir_utils.c), and their writing to the server (`write_nfiles_from_dir` of
-- src/client.c). Folders are given by absolute paths, so that a path means the same wherever the program
-- stands; the system's part is the record `Folders`.
use lso_baldini.Client.{C, pure, ◌>>=◌, lift}
use lso_baldini.Client.Eviction.{saved_path}
use lso_baldini.Common.{
  ℕ, zero, suc, ◌-◌, ◌/◌, ◌%◌, List, [], ◌∷◌, Bool, Option, none, some, if◌then◌else◌, not, ◌==◌,
  ◌&&◌, ◌||◌, ℤ, pos, minus_one, is_neg, is_zero, pos_part,
}
use lso_baldini.CString.{Bytes, su_string_compare, c_string}
use lso_baldini.Disk.{same_path}
use lso_baldini.ListUtils.{lu_init_list, lu_insert, lu_remove, lu_get, lu_free}
use lso_baldini.Program.{PathList, mu_clone}
use lso_baldini.Program.Lists.{write_files_list}
use lso_baldini.Run.{Run, ret, blocked, ◌>>=◌ as bind_run}
use lso_baldini.Stream.{codes}
use lso_baldini.UString.{UString, su_string_from_literal, su_realloc}

-- What `chdir`, `opendir` and `closedir` return, and what `readdir` gives in turn: names, with the mode that
-- `stat` finds.
pub record Folders : Type 0 where
  pub enters : Bytes → Bool
  pub opens : Bytes → Bool
  pub entries : Bytes → List (Bytes × ℕ)
  pub closes : Bytes → Bool

-- The kind of a file is in the four bits behind twelve others: `S_IFDIR`, `S_IFSOCK`, `S_IFLNK`.
unfoldable pub du_filenodetype : ℕ → ℕ
du_filenodetype st_mode =
    let kind = st_mode / 4096 % 16 in
    if kind == 4 then b'd' else if kind == 12 then b's' else if kind == 10 then b'l' else b'-'

-- The path of an entry, and the string emptied again.
unfoldable pub entry_path : ℕ → UString → Bytes → Bytes → Run (Bytes × UString)
entry_path junk temp dirpath name = bind_run (saved_path junk temp dirpath name) λ full.
    bind_run (mu_clone (c_string full.buffer))
      λ path. bind_run (su_realloc junk full 0) λ emptied. ret (path, emptied)

-- The loop over the entries, with the number of files that are still wanted: that number, the files and
-- the folders.
unfoldable pub list_entries :
    ℕ → Bytes → List (Bytes × ℕ) → ℕ → UString → PathList → PathList → Run (ℕ × PathList × PathList)
list_entries junk dirpath [] wanted temp filelist dirlist = ret (wanted, filelist, dirlist)
list_entries junk dirpath ((name, st_mode) ∷ rest) wanted temp filelist dirlist =
    let next = list_entries junk dirpath rest in
    let filetype = du_filenodetype st_mode in
    if wanted == 0
    then ret (wanted, filelist, dirlist)
    else if filetype == b'd'
        && not (same_path name (codes "."))
        && not (same_path name (codes ".."))
    then bind_run (entry_path junk temp dirpath name)
        (λ (path, emptied). next wanted emptied filelist (lu_insert su_string_compare dirlist path))
    else if filetype == b'-'
    then bind_run (entry_path junk temp dirpath name) (λ (path, emptied).
      next (wanted - 1) emptied (lu_insert su_string_compare filelist path) dirlist)
    else next wanted temp filelist dirlist

-- The number of files that are found, or -1, with the lists of files and of folders.
unfoldable pub du_getfilepaths_from_dir :
    Folders → ℕ → Bytes → ℕ → PathList → PathList → Run (ℤ × PathList × PathList)
du_getfilepaths_from_dir folders junk dirpath nfilepaths filelist dirlist =
    if nfilepaths == 0
    then ret (pos 0, filelist, dirlist)
    else bind_run (su_string_from_literal junk []) λ temp.
      if not (folders.enters dirpath)
      then ret (minus_one, filelist, dirlist)
      else if not (folders.opens dirpath)
      then ret (minus_one, filelist, dirlist)
      else bind_run
          (list_entries junk dirpath (folders.entries dirpath) nfilepaths temp filelist dirlist)
          λ (wanted, files, dirs).
            ret
              (if folders.closes dirpath then pos (nfilepaths - wanted) else minus_one, files, dirs)

-- The loop, with the number of files that are still wanted. Without fuel it goes on for ever.
unfoldable pub write_folders : Folders → ℕ → Option Bytes → ℕ → PathList → PathList → C ℤ
write_folders folders zero wbdir nfiles filelist dirlist = λ _. blocked
write_folders folders (suc fuel) wbdir nfiles filelist dirlist =
    let next = write_folders folders fuel wbdir in
    if dirlist.len == 0 || nfiles == 0 then pure (pos 0) else elim (lu_get dirlist (pos 0)) [
      | none ↦ pure minus_one
      | some currdir ↦ do
        (found, files, dirs) ←
            lift λ c. du_getfilepaths_from_dir folders c.junk currdir nfiles filelist dirlist
        if is_neg found then pure minus_one else do
          _ ← write_files_list files wbdir
          next (nfiles - pos_part found) (lu_free files).1
              (elim (lu_remove su_string_compare dirs currdir) [ none ↦ dirs | some l ↦ l ])
    ]

-- A null `dirname` is `none`.
unfoldable pub write_nfiles_from_dir : Folders → ℕ → Option Bytes → ℤ → Option Bytes → C ℤ
write_nfiles_from_dir folders fuel none nfiles wbdir = pure minus_one
write_nfiles_from_dir folders fuel (some dirname) nfiles wbdir =
    if is_zero nfiles then pure (pos 0) else do
      path ← lift λ c. mu_clone dirname
      write_folders folders fuel wbdir (pos_part nfiles) (lu_init_list 8)
          (lu_insert su_string_compare (lu_init_list 8) path)
