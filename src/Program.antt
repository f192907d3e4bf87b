-- ===== src/Program.antt =====
-- The client program (src/client.c): its configuration, and how it is made of the options. `getopt` stands
-- outside: the model has the options that it returns, with `?` for one that is unknown or has no argument.
-- What is printed is left out.
pub mod Names
pub mod Paths
pub mod Lists
pub mod Folders
pub mod Loops
pub mod Ends
pub mod Main
use lso_baldini.Common.{
  ℕ, zero, suc, ◌+◌, ◌-◌, ◌^◌, [], List, ◌∷◌, Bool, true, false, Option, none, some, ◌==◌, leb,
  if◌then◌else◌, not, length, drop, ℤ, pos, negsuc, neg,
}
use lso_baldini.CString.{Bytes, su_string_compare}
use lso_baldini.Disk.{unless_exited}
use lso_baldini.ListUtils.{LinkedList, lu_init_list, lu_insert, lu_free}
use lso_baldini.Memory.{mu_malloc}
use lso_baldini.Run.{Run, ret, blocked, exited, fault, ◌>>=◌}
use lso_baldini.Settings.{to_unsigned}
use lso_baldini.Stream.{span, is_space, is_digit, value_from}

abbrev pub PathList : Type 0
PathList = LinkedList Bytes

-- `none` is a null pointer.
pub record ClientConf : Type 0 where
  pub server_socket_filename : Option Bytes
  pub writeback_foldername : Option Bytes
  pub folder_to_write : Option Bytes
  pub folder_destination : Option Bytes
  pub files_to_write : PathList
  pub files_to_read : PathList
  pub files_to_lock : PathList
  pub files_to_unlock : PathList
  pub files_to_delete : PathList
  pub folder_filecount : ℕ
  pub read_filecount : ℕ
  pub connection_timer : ℕ
  pub verbose : Bool

unfoldable pub client_conf_init : ClientConf → ClientConf
unfolding lu_init_list
client_conf_init conf = record conf {
  files_to_read = lu_init_list 8;
  files_to_write = lu_init_list 8;
  files_to_delete = lu_init_list 8;
  files_to_lock = lu_init_list 8;
  files_to_unlock = lu_init_list 8;
}

-- The folder is freed too.
unfoldable pub client_conf_cleanup : ClientConf → ClientConf
unfolding lu_free
client_conf_cleanup conf = record conf {
  files_to_write = (lu_free conf.files_to_write).1;
  files_to_read = (lu_free conf.files_to_read).1;
  files_to_lock = (lu_free conf.files_to_lock).1;
  files_to_unlock = (lu_free conf.files_to_unlock).1;
  files_to_delete = (lu_free conf.files_to_delete).1;
}

-- The copy of a string with its NUL.
unfoldable pub mu_clone : Bytes → Run Bytes
unfolding mu_malloc
mu_clone s = unless_exited (mu_malloc (length s + 1)) (ret s)

-- `strtok` with the delimiters that pass the test: the token, and what the next call goes on with.
unfoldable pub strtok : (ℕ → Bool) → Bytes → Option (Bytes × Bytes)
unfolding span
strtok delimits s =
    let (_, start) = span delimits s in
    let (token, rest) = span (λ c. not (delimits c)) start in
    if length start == 0 then none else some (token, drop 1 rest)

abbrev pub is_comma : ℕ → Bool
is_comma c = c == 44

-- The loop, with what is left of the text. Without fuel it goes on for ever.
unfoldable pub add_tokens : ℕ → Bytes → PathList → Run PathList
add_tokens zero rest list = blocked
add_tokens (suc fuel) rest list =
    let next = add_tokens fuel in
    elim (strtok is_comma rest) [
      | none ↦ ret list
      | some (token, rest') ↦
          mu_clone token >>= λ path. next rest' (lu_insert su_string_compare list path)
    ]

unfoldable pub conf_add_list : Bytes → PathList → Run PathList
conf_add_list optarg list = add_tokens (length optarg + 1) optarg list

-- A `long` for a number that may not fit it.
abbrev pub clamp_long : Bool → ℕ → ℤ
clamp_long minus n =
    if minus
    then if leb n (2 ^ 63) then neg (pos n) else negsuc (2 ^ 63 - 1)
    else if leb (2 ^ 63) n
    then pos (2 ^ 63 - 1)
    else pos n

-- The digits behind a sign, if there is one.
abbrev pub sign_of : Bytes → Bool × Bytes
sign_of [] = (false, [])
sign_of (c ∷ cs) = if c == 45 then (true, cs) else if c == 43 then (false, cs) else (false, c ∷ cs)

-- `strtol(s, NULL, 10)`
unfoldable pub strtol : Bytes → ℤ
unfolding span value_from
strtol s =
    let (minus, rest) = sign_of (span is_space s).1 in
    clamp_long minus (value_from 0 (span is_digit rest).0)

-- `realloc` is for what `malloc` gave: it is not where `strtok` has skipped commas.
abbrev pub starts_with_comma : Bytes → Bool
starts_with_comma [] = false
starts_with_comma (c ∷ cs) = is_comma c

-- The option `w`: the folder, and behind a comma the number of files. `strtol` is called with a null
-- pointer where there is none.
unfoldable pub set_folder : Bytes → ClientConf → Run ClientConf
unfolding strtol
set_folder optarg conf =
    unless_exited (mu_malloc (length optarg + 1)) (elim (strtok is_comma optarg) [
      | none ↦ fault
      | some (dirname, rest) ↦ elim (strtok (λ c. false) rest) [
        | none ↦ fault
        | some (count, _) ↦
            if starts_with_comma optarg
            then fault
            else ret (record conf {
              folder_to_write = some dirname;
              folder_filecount = to_unsigned 32 (strtol count);
            })
      ]
    ])

-- A list option, and where its list is kept.
abbrev pub add_to : (PathList → ClientConf) → Bytes → PathList → Run ClientConf
add_to store optarg list = conf_add_list optarg list >>= λ l. ret (store l)

unfoldable pub parse_option : ℕ → Bytes → ClientConf → Run ClientConf
unfolding set_folder strtol
parse_option opt optarg conf =
    if opt == b'h'
    then exited
    else if opt == b'f'
    then ret (record conf { server_socket_filename = some optarg })
    else if opt == b'w'
    then set_folder optarg conf
    else if opt == b'W'
    then add_to (λ l. record conf { files_to_write = l }) optarg conf.files_to_write
    else if opt == b'D'
    then ret (record conf { writeback_foldername = some optarg })
    else if opt == b'r'
    then add_to (λ l. record conf { files_to_read = l }) optarg conf.files_to_read
    else if opt == b'R'
    then ret (record conf { read_filecount = to_unsigned 32 (strtol optarg) })
    else if opt == b'd'
    then ret (record conf { folder_destination = some optarg })
    else if opt == b't'
    then ret (record conf { connection_timer = to_unsigned 32 (strtol optarg) })
    else if opt == b'l'
    then add_to (λ l. record conf { files_to_lock = l }) optarg conf.files_to_lock
    else if opt == b'u'
    then add_to (λ l. record conf { files_to_unlock = l }) optarg conf.files_to_unlock
    else if opt == b'c'
    then add_to (λ l. record conf { files_to_delete = l }) optarg conf.files_to_delete
    else if opt == b'p'
    then ret (record conf { verbose = true })
    else exited

unfoldable pub parseargs : List (ℕ × Bytes) → ClientConf → Run ClientConf
unfolding parse_option
parseargs [] conf = ret conf
parseargs ((opt, optarg) ∷ options) conf = parse_option opt optarg conf >>= λ c. parseargs options c
