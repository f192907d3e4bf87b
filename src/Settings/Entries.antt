-- ===== src/Settings/Entries.antt =====
-- What a file of settings says (src/server.c): a list of lines, and the settings that each leaves.
use lso_baldini.Common.{ℕ, ◌*◌, ◌^◌, ◌%◌, ◌<◌, List, [], ◌∷◌, ◌++◌, not, length, ◌==◌}
use lso_baldini.CString.{Bytes}
use lso_baldini.Settings.{
  ServerSettings, config_nworkers, config_capacity, config_filecapacity, config_socket_name,
  config_logfile_name, config_client_max, is_separator,
}
use lso_baldini.Stream.Laws.{Passes}
use lso_baldini.Stream.{is_digit, value_from}
use lso_baldini.UString.{copy_at}

pub data NumberKey : Type 0 where
  workers capacity clients files : NumberKey

pub data NameKey : Type 0 where
  socket logfile : NameKey

pub data Entry : Type 0 where
  comment : Bytes → Entry
  empty : Entry
  number : NumberKey → Bytes → Entry
  name : NameKey → Bytes → Entry

abbrev pub number_key : NumberKey → Bytes
number_key workers = config_nworkers
number_key capacity = config_capacity
number_key clients = config_client_max
number_key files = config_filecapacity

abbrev pub name_key : NameKey → Bytes
name_key socket = config_socket_name
name_key logfile = config_logfile_name

abbrev pub line : Bytes → Bytes → Bytes → Bytes
line key value rest = key ++ (32 ∷ 61 ∷ 32 ∷ (value ++ (10 ∷ rest)))

-- The line of an entry, in front of the lines that follow.
abbrev pub written : Entry → Bytes → Bytes
written (comment text) rest = 35 ∷ (text ++ (10 ∷ rest))
written empty rest = 10 ∷ rest
written (number k digits) rest = line (number_key k) digits rest
written (name k text) rest = line (name_key k) text rest

abbrev pub file_of : List Entry → Bytes
file_of [] = []
file_of (e ∷ es) = written e (file_of es)

abbrev pub store_number : NumberKey → ServerSettings → ℕ → ServerSettings
store_number workers r n = record r { n_workers = n % 2 ^ 16 }
store_number capacity r n = record r { available_memory = n * 2 ^ 20 % 2 ^ 32 }
store_number clients r n = record r { max_client_count = n }
store_number files r n = record r { max_file_count = n }

abbrev pub store_name : NameKey → ServerSettings → Bytes → ServerSettings
store_name socket r text = record r { socket_name = copy_at 0 text r.socket_name }
store_name logfile r text = record r { logfile_name = copy_at 0 text r.logfile_name }

-- The settings that a line leaves.
abbrev pub apply : Entry → ServerSettings → ServerSettings
apply (comment text) r = r
apply empty r = r
apply (number k digits) r = store_number k r (value_from 0 digits)
apply (name k text) r = store_name k r text

abbrev pub apply_all : List Entry → ServerSettings → ServerSettings
apply_all [] r = r
apply_all (e ∷ es) r = apply_all es (apply e r)

-- A number has a digit and fits an `int`; a name has a byte, at most 63 of them and no separator; a
-- comment is of one line.
abbrev pub IsEntry : Entry → Type 0
IsEntry (comment text) = Passes (λ c. not (c == 10)) text
IsEntry empty = Unit
IsEntry (number k digits) =
    Passes is_digit digits × (0 < length digits) × (value_from 0 digits < 2 ^ 31)
IsEntry (name k text) =
    Passes (λ c. not (is_separator c)) text × (0 < length text) × (length text < 64)
