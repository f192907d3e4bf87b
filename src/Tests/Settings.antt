-- ===== src/Tests/Settings.antt =====
-- Runs of the reading of settings (src/server.c).
use lso_baldini.Common.{◌≢◌, arith, List, ◌≡◌, refl, [], ◌∷◌, some, pos}
use lso_baldini.Run.{ret, exited, blocked}
use lso_baldini.Stream.{value_from, codes}
use lso_baldini.CString.{Bytes}
use lso_baldini.Memory.{mu_malloc}
use lso_baldini.Stream.{value_from, scan_set, fgetc, fseek_back, fread, scan_int}
use lso_baldini.Settings.Entries.{
  Entry, comment, empty, number, name, workers, capacity, socket, file_of, apply_all,
}
use lso_baldini.Settings.Reading.{init_server_settings-file_of}
use lso_baldini.Settings.Termination.{init_server_settings_ends}
use lso_baldini.Settings.{
  ServerSettings, init_server_settings, settings_loop, settings_round, setting_line,
  server_skipline, server_readword, get_setting, read_name,
}

abbrev no_settings : ServerSettings
no_settings = record {
  n_workers = 0;
  available_memory = 0;
  max_file_count = 0;
  socket_name = [];
  logfile_name = [];
  max_client_count = 0;
}

abbrev config : Bytes
config = codes "# server\n\nNWORKERS = 4\nCAPACITY = 128\nSOCKET_NAME = s\nCLIENT_MAX = 12"

config_read :
    init_server_settings (some config) no_settings
    ≡ ret (
      pos 0,
      record no_settings {
        n_workers = 4;
        available_memory = 134217728;
        socket_name = codes "s";
        max_client_count = 12;
      },
    )
unfolding init_server_settings settings_loop settings_round setting_line server_skipline
    server_readword get_setting read_name scan_set fgetc fseek_back fread scan_int mu_malloc
config_read = refl

-- A key without a number takes the next line for its own.
config_newline :
    init_server_settings (some (codes "NWORKERS\nCAPACITY = 128\nNWORKERS=7\n")) no_settings
    ≡ ret (pos 0, record no_settings { n_workers = 7 })
unfolding init_server_settings settings_loop settings_round setting_line server_skipline
    server_readword get_setting read_name scan_set fgetc fseek_back fread scan_int mu_malloc
config_newline = refl

config_empty : init_server_settings (some []) no_settings ≡ exited
unfolding init_server_settings settings_loop settings_round setting_line fgetc fseek_back
config_empty = refl

abbrev entries : List Entry
entries =
    comment (codes " server") ∷ empty ∷ number workers (codes "04") ∷ name socket (codes "s") ∷ []

init_server_settings-file_of_example :
    init_server_settings (some (file_of (number capacity (codes "128") ∷ entries))) no_settings
    ≡ ret (pos 0, apply_all (number capacity (codes "128") ∷ entries) no_settings)
unfolding value_from
init_server_settings-file_of_example =
    init_server_settings-file_of (number capacity (codes "128")) entries no_settings (ground arith)

init_server_settings_ends_example : init_server_settings (some config) no_settings ≢ blocked
init_server_settings_ends_example = init_server_settings_ends (some config) no_settings
