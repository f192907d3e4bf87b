-- ===== src/Settings.antt =====
-- The settings of the server (src/server.c), read from the file `config.txt`. What is printed is left out, and
-- `errno` is 0 before; `int` is left as it is where it counts the bytes of a word.
pub mod Progress
pub mod Termination
pub mod Entries
pub mod Reading
use lso_baldini.Common.{
  ℕ, zero, suc, ◌+◌, ◌-◌, ◌*◌, ◌^◌, ◌%◌, [], Bool, true, false, Option, none, some, ltb, ◌==◌,
  if◌then◌else◌, not, ◌||◌, length, replicate, ℤ, pos, negsuc, minus_one, leb,
}
use lso_baldini.CString.{Bytes, c_string}
use lso_baldini.Disk.{same_path, unless_exited}
use lso_baldini.Memory.{mu_malloc}
use lso_baldini.Run.{Run, ret, blocked, exited, ◌>>=◌}
use lso_baldini.Stream.{Stream, codes, fgetc, fseek_back, fread, scan_set, scan_int}
use lso_baldini.UString.{copy_at}

-- The names are arrays of 64 bytes.
pub record ServerSettings : Type 0 where
  pub n_workers : ℕ
  pub available_memory : ℕ
  pub max_file_count : ℕ
  pub socket_name : Bytes
  pub logfile_name : Bytes
  pub max_client_count : ℕ

abbrev pub config_nworkers : Bytes
config_nworkers = codes "NWORKERS"

abbrev pub config_capacity : Bytes
config_capacity = codes "CAPACITY"

abbrev pub config_filecapacity : Bytes
config_filecapacity = codes "FILECAPACITY"

abbrev pub config_socket_name : Bytes
config_socket_name = codes "SOCKET_NAME"

abbrev pub config_logfile_name : Bytes
config_logfile_name = codes "LOGFILE_NAME"

abbrev pub config_client_max : Bytes
config_client_max = codes "CLIENT_MAX"

-- ` ,;=`, the newline and the carriage return.
abbrev pub is_separator : ℕ → Bool
is_separator c = c == 32 || c == 44 || c == 59 || c == 61 || c == 10 || c == 13

-- The conversion of an `int` to an unsigned type of `w` bits.
abbrev pub to_unsigned : ℕ → ℤ → ℕ
to_unsigned w (pos n) = n % 2 ^ w
to_unsigned w (negsuc n) = 2 ^ w - 1 - n % 2 ^ w

unfoldable pub server_skipline : Stream → Stream
server_skipline s = (fgetc (scan_set (λ c. not (c == 10)) s).1).1

-- `none` is the error return.
unfoldable pub server_readword : Stream → Run (Option (Bytes × Stream))
server_readword s =
    let (word_len, scanned) = scan_set (λ c. not (is_separator c)) s in
    elim word_len [
      | none ↦ ret none
      | some n ↦ elim (fseek_back n scanned) [
        | none ↦ ret none
        | some t ↦
            unless_exited (mu_malloc (n + 1))
              (ret (if ltb (length (fread n t).0) n then none else some (fread n t)))
      ]
    ]

-- The length of the line is meant, but `fscanf` returns 0.
unfoldable pub server_readline : Stream → Run (Option (Bytes × Stream))
server_readline s =
    let (line_len, t) = scan_set (λ c. not (c == 10)) s in
    elim line_len [
      | none ↦ ret none
      | some _ ↦ unless_exited (mu_malloc 1) (ret (some (fread 0 (record t { eof = false }))))
    ]

-- An array of 64 bytes that a name is read into. `feof` is false after `fseek`.
unfoldable pub read_name : Bytes → Stream → Run (Bytes × Stream)
read_name old s =
    let (word_len, scanned) = scan_set (λ c. not (is_separator c)) s in
    let n : ℕ = elim word_len [ none ↦ 0 | some k ↦ k ] in
    elim (fseek_back n scanned) [
      | none ↦ exited
      | some t ↦
          let (bytes, after) = fread (if ltb n 64 then n else 63) t in
          if ltb (length bytes) n then exited else ret (copy_at 0 bytes old, after)
    ]

-- The settings with one of them stored.
abbrev pub set_workers : ServerSettings → ℤ → ServerSettings
set_workers r n = record r { n_workers = to_unsigned 16 n }

abbrev pub set_memory : ServerSettings → ℤ → ServerSettings
set_memory r n = record r { available_memory = to_unsigned 32 n * 2 ^ 20 % 2 ^ 32 }

abbrev pub set_clients : ServerSettings → ℤ → ServerSettings
set_clients r n = record r { max_client_count = to_unsigned 32 n }

abbrev pub set_files : ServerSettings → ℤ → ServerSettings
set_files r n = record r { max_file_count = to_unsigned 32 n }

abbrev pub set_socket : ServerSettings → Bytes → ServerSettings
set_socket r name = record r { socket_name = name }

abbrev pub set_logfile : ServerSettings → Bytes → ServerSettings
set_logfile r name = record r { logfile_name = name }

-- A number, and what is made of it.
abbrev pub number_setting :
    (ServerSettings → ℤ → ServerSettings) → ServerSettings → Stream → Run (ServerSettings × Stream)
number_setting store setts s = do
  (number, t) ← scan_int s
  ret (elim number [ none ↦ setts | some n ↦ store setts n ], t)

-- A name, and where it is kept.
abbrev pub name_setting : (Bytes → ServerSettings) → Bytes → Stream → Run (ServerSettings × Stream)
name_setting store old s = do (name, t) ← read_name old s; ret (store name, t)

unfoldable pub get_setting : Bytes → ServerSettings → Stream → Run (ServerSettings × Stream)
unfolding c_string
get_setting word setts s =
    let t = (scan_set is_separator s).1 in
    let key = c_string word in
    if t.eof
    then ret (setts, t)
    else if same_path key config_nworkers
    then number_setting set_workers setts t
    else if same_path key config_capacity
    then number_setting set_memory setts t
    else if same_path key config_client_max
    then number_setting set_clients setts t
    else if same_path key config_filecapacity
    then number_setting set_files setts t
    else if same_path key config_socket_name
    then name_setting (set_socket setts) setts.socket_name t
    else if same_path key config_logfile_name
    then name_setting (set_logfile setts) setts.logfile_name t
    else ret (setts, t)

-- The default case of the loop, from the byte that was read on; `none` is the return of -1.
unfoldable pub setting_line : ServerSettings → Stream → Run (Option (ServerSettings × Stream))
setting_line setts s = elim (fseek_back 1 s) [
  | none ↦ exited
  | some t ↦ do
    word ← server_readword t
    elim word [
      | none ↦ ret none
      | some (w, u) ↦ do (setts', v) ← get_setting w setts u; ret (some (setts', server_skipline v))
    ]
]

-- One round of the loop.
unfoldable pub settings_round : ServerSettings → Stream → Run (Option (ServerSettings × Stream))
settings_round setts s =
    let (c, t) = fgetc s in
    elim c [
      | none ↦ setting_line setts t
      | some b ↦
          if b == 35
          then ret (some (setts, server_skipline t))
          else if b == 10
          then ret (some (setts, t))
          else setting_line setts t
    ]

-- The loop. Without fuel it goes on for ever.
unfoldable pub settings_loop : ℕ → ServerSettings → Stream → Run (ℤ × ServerSettings)
settings_loop zero setts s = blocked
settings_loop (suc fuel) setts s =
    let next = settings_loop fuel in
    if s.eof then ret (pos 0, setts) else do
      round ← settings_round setts s
      elim round [ none ↦ ret (minus_one, setts) | some (setts', t) ↦ next setts' t ]

-- `none` is a file that cannot be opened.
unfoldable pub init_server_settings : Option Bytes → ServerSettings → Run (ℤ × ServerSettings)
init_server_settings none setts = exited
init_server_settings (some content) setts =
    settings_loop (length content + 2) setts (record { behind = []; ahead = content; eof = false })
