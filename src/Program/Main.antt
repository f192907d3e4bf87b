-- ===== src/Program/Main.antt =====
-- `main` of the client program (src/client.c), from the connected session on. What `openConnection` and
-- `closeConnection` return is given; the number of files to read is an `int` that is not negative.
use lso_baldini.Client.{C, Session, pure, ◌>>=◌}
use lso_baldini.Client.ReadMany.{read_n_files}
use lso_baldini.Common.{ℕ, ◌-◌, ◌^◌, List, if◌then◌else◌, ltb, ℤ, pos, negsuc}
use lso_baldini.CString.{Bytes}
use lso_baldini.Program.{ClientConf, client_conf_init, parseargs}
use lso_baldini.Program.Folders.{Folders, write_nfiles_from_dir}
use lso_baldini.Run.{Run, ◌>>=◌ as bind_run}

-- `(int)` of an `unsigned int`.
abbrev pub to_int : ℕ → ℤ
to_int n = if ltb n (2 ^ 31) then pos n else negsuc (2 ^ 32 - 1 - n)

-- The requests, whose results are ignored.
unfoldable pub main_requests : Folders → ℕ → ClientConf → C ℤ
unfolding write_nfiles_from_dir read_n_files
main_requests folders fuel conf = do
  _ ←
      write_nfiles_from_dir folders fuel conf.folder_to_write (to_int conf.folder_filecount)
        conf.writeback_foldername
  _ ← read_n_files conf.read_filecount conf.folder_destination
  pure (pos 0)

unfoldable pub main : Folders → ℕ → ClientConf → List (ℕ × Bytes) → Session → Run (ℤ × Session)
unfolding client_conf_init parseargs main_requests
main folders fuel zeroed options session =
    bind_run (parseargs options (client_conf_init zeroed))
      λ conf. main_requests folders fuel conf session
