-- ===== src/Program/Lists.antt =====
-- What the client program does with a list of paths (src/client.c). The pauses between requests are left
-- out, and the folders are given.
use lso_baldini.Common.{
  ℕ, List, [], ◌∷◌, Bool, true, false, Option, some, if◌then◌else◌, not, ℤ, pos, minus_one, is_zero,
  ◌+ℤ◌,
}
use lso_baldini.Client.{C, pure, ◌>>=◌, lift, write_disk}
use lso_baldini.Client.Requests.{
  open_file, read_file, close_file, lock_file, unlock_file, remove_file,
}
use lso_baldini.Client.Transfer.{write_file}
use lso_baldini.CString.{Bytes, c_string}
use lso_baldini.Disk.{Buffer}
use lso_baldini.Program.{PathList}
use lso_baldini.Run.{◌>>=◌ as bind_run}
use lso_baldini.UString.{UString, su_string_from_literal, su_append_chars, su_realloc}

-- `O_CREATE`
abbrev pub o_create : ℕ
o_create = 1

-- One file of `write_files_list`: `true` if a call fails.
unfoldable pub write_one : Option Bytes → Bytes → C Bool
unfolding open_file write_file close_file
write_one wbdir path = do
  opened ← open_file (some path) o_create
  if not (is_zero opened) then pure true else do
    written ← write_file (some path) wbdir
    if not (is_zero written)
        then pure true
        else do closed ← close_file (some path); pure (not (is_zero closed))

unfoldable pub write_loop : Option Bytes → List Bytes → Bool → C ℤ
unfolding write_one
write_loop wbdir [] res = pure (if res then minus_one else pos 0)
write_loop wbdir (path ∷ paths) res = do
  failed ← write_one wbdir path
  write_loop wbdir paths (if failed then true else res)

unfoldable pub write_files_list : PathList → Option Bytes → C ℤ
unfolding write_loop
write_files_list filelist wbdir = write_loop wbdir filelist.items false

-- The copy of one file, with what `buff` and `temp` hold from the files before: the error count, and
-- what they hold then.
unfoldable pub save_copy : Bytes → Bytes → UString → Buffer → C (ℤ × UString)
unfolding su_append_chars c_string
save_copy destdir path temp buff = do
  full ←
      lift λ c. bind_run (su_append_chars c.junk temp destdir) (λ d. su_append_chars c.junk d path)
  written ← write_disk (c_string full.buffer) buff
  pure (written, full)

unfoldable pub read_one : Bytes → Bytes → UString → Buffer → C (ℤ × UString × Buffer)
unfolding open_file read_file save_copy close_file su_realloc
read_one destdir path temp buff = do
  opened ← open_file (some path) 0
  (failed, buff') ← read_file (some path) buff
  (errors, temp') ← if is_zero failed then save_copy destdir path temp buff' else pure (pos 1, temp)
  closed ← close_file (some path)
  emptied ← lift λ c. su_realloc c.junk temp' 0
  pure (opened +ℤ errors +ℤ closed, emptied, buff')

unfoldable pub read_paths : Bytes → List Bytes → ℤ → UString → Buffer → C ℤ
unfolding read_one
read_paths destdir [] res temp buff = pure (if is_zero res then pos 0 else minus_one)
read_paths destdir (path ∷ paths) res temp buff = do
  (errors, temp', buff') ← read_one destdir path temp buff
  read_paths destdir paths (res +ℤ errors) temp' buff'

unfoldable pub read_files_list : PathList → Bytes → C ℤ
unfolding su_string_from_literal read_paths
read_files_list filelist destdir = do
  temp ← lift λ c. su_string_from_literal c.junk []
  read_paths destdir filelist.items (pos 0) temp ([], 0)

-- A request on each path, and the sum of the answers.
unfoldable pub each_path : (Bytes → C ℤ) → List Bytes → ℤ → C ℤ
each_path request [] res = pure (if is_zero res then pos 0 else minus_one)
each_path request (path ∷ paths) res = do
  answer ← request path
  each_path request paths (res +ℤ answer)

unfoldable pub lock_files_list : PathList → C ℤ
unfolding lock_file each_path
lock_files_list filelist = each_path (λ path. lock_file (some path)) filelist.items (pos 0)

unfoldable pub unlock_files_list : PathList → C ℤ
unfolding unlock_file each_path
unlock_files_list filelist = each_path (λ path. unlock_file (some path)) filelist.items (pos 0)

unfoldable pub open_and_remove : Bytes → C ℤ
unfolding open_file remove_file
open_and_remove path = do
  opened ← open_file (some path) 0
  removed ← remove_file (some path)
  pure (opened +ℤ removed)

unfoldable pub remove_files_list : PathList → C ℤ
unfolding open_and_remove each_path
remove_files_list filelist = each_path open_and_remove filelist.items (pos 0)
