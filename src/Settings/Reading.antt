-- ===== src/Settings/Reading.antt =====
-- The reading of the settings (src/server.c) on a file of lines as the server expects them.
use lso_baldini.Common.{
  ℕ, zero, suc, ◌+◌, ◌^◌, ◌≤◌, ◌<◌, ◌≡◌, refl, ap, ◌∙◌, List, [], ◌∷◌, ◌++◌, true, false, not,
  Option, some, length, length-append, arith, ◌==◌, ℤ, pos, All,
}
use lso_baldini.CString.{Bytes}
use lso_baldini.Memory.{mu_malloc}
use lso_baldini.Run.{Run, ret}
use lso_baldini.Settings.{
  ServerSettings, is_separator, server_skipline, server_readword, get_setting, setting_line,
  settings_round, settings_loop, init_server_settings, read_name,
}
use lso_baldini.Stream.Laws.{at_place, Passes, scan_set_run, fread_run, fseek_back_run, span_run}
use lso_baldini.Stream.{
  Stream, is_digit, value_from, scan_int, scan_set, reverse_onto, fgetc, fseek_back, fread,
}
use lso_baldini.UString.{copy_at}
use lso_baldini.Settings.Entries.{
  NumberKey, workers, capacity, clients, files, NameKey, socket, logfile, Entry, comment, empty,
  number, name, number_key, name_key, line, written, file_of, store_number, store_name, apply,
  apply_all, IsEntry,
}

-- A line is read up to and with its newline.
abbrev ReadsTo : Run (Option (ServerSettings × Stream)) → ServerSettings → Bytes → Type 0
ReadsTo r setts rest = (b : Bytes) × (r ≡ ret (some (setts, at_place (10 ∷ b) rest)))

skip_run :
    (b text rest : Bytes)
    → Passes (λ c. not (c == 10)) text
    → server_skipline (at_place b (text ++ (10 ∷ rest))) ≡ at_place (10 ∷ reverse_onto text b) rest
unfolding server_skipline
skip_run b text rest h =
    unfold fgetc in ground (arith, scan_set_run (λ c. not (c == 10)) b text 10 rest h refl)

readword_run :
    (b word : Bytes) (y : ℕ) (rest : Bytes)
    → Passes (λ c. not (is_separator c)) word
    → not (is_separator y) ≡ false
    → length word < 64
    → server_readword (at_place b (word ++ (y ∷ rest)))
      ≡ ret (some (word, at_place (reverse_onto word b) (y ∷ rest)))
unfolding server_readword
readword_run b word y rest h k l =
    unfold mu_malloc in
    ground (
      arith,
      scan_set_run (λ c. not (is_separator c)) b word y rest h k,
      fseek_back_run b word (y ∷ rest) false,
      fread_run b word (y ∷ rest),
    )

read_name_run :
    (old b word : Bytes) (y : ℕ) (rest : Bytes)
    → Passes (λ c. not (is_separator c)) word
    → not (is_separator y) ≡ false
    → length word < 64
    → read_name old (at_place b (word ++ (y ∷ rest)))
      ≡ ret (copy_at 0 word old, at_place (reverse_onto word b) (y ∷ rest))
unfolding read_name
read_name_run old b word y rest h k l = ground (
  arith,
  scan_set_run (λ c. not (is_separator c)) b word y rest h k,
  fseek_back_run b word (y ∷ rest) false,
  fread_run b word (y ∷ rest),
)

scan_int_run :
    (b digits : Bytes) (rest : Bytes)
    → Passes is_digit digits
    → 0 < length digits
    → value_from 0 digits < 2 ^ 31
    → scan_int (at_place b (digits ++ (10 ∷ rest)))
      ≡ ret (some (pos (value_from 0 digits)), at_place (reverse_onto digits b) (10 ∷ rest))
unfolding scan_int
scan_int_run b [] rest h k l = absurd (omega (arith, k))
scan_int_run b (d ∷ digits) rest (h, hs) k l =
    ground (arith, span_run is_digit digits 10 rest hs refl)

-- A word that does not begin a comment.
abbrev IsKey : Bytes → Type 0
IsKey key =
    Passes (λ x. not (is_separator x)) key
    × Passes (λ x. not (x == 35)) key
    × (0 < length key)
    × (length key < 64)

number_key-IsKey : (k : NumberKey) → IsKey (number_key k)
number_key-IsKey workers = ground arith
number_key-IsKey capacity = ground arith
number_key-IsKey clients = ground arith
number_key-IsKey files = ground arith

name_key-IsKey : (k : NameKey) → IsKey (name_key k)
name_key-IsKey socket = ground arith
name_key-IsKey logfile = ground arith

-- A line is read if its key is a word, and what stands behind the key is a setting.
line_run :
    (r r' : ServerSettings) (b b' key value rest : Bytes)
    → IsKey key
    → get_setting key r (at_place (reverse_onto key b) (32 ∷ 61 ∷ 32 ∷ (value ++ (10 ∷ rest))))
      ≡ ret (r', at_place b' (10 ∷ rest))
    → ReadsTo (settings_round r (at_place b (line key value rest))) r' rest
unfolding settings_round setting_line fgetc fseek_back reverse_onto
line_run r r' b b' [] value rest (h, k, p, l) e = absurd (omega (arith, p))
line_run r r' b b' (c ∷ key) value rest (h, k, p, l) e = (
  b',
  ground (
    arith,
    readword_run b (c ∷ key) 32 (61 ∷ 32 ∷ (value ++ (10 ∷ rest))) h refl l,
    e,
    skip_run b' [] rest tt,
  ),
)

abbrev blanks : Bytes
blanks = 32 ∷ 61 ∷ 32 ∷ []

digit_not_separator : (d : ℕ) → is_digit d ≡ true → is_separator d ≡ false
digit_not_separator d h = ground arith

-- The number of a line is read and stored.
module _ (r : ServerSettings) (b : Bytes) (d : ℕ) (ds rest : Bytes) where
  abbrev after_number : Stream
  after_number = at_place (reverse_onto (d ∷ ds) (reverse_onto blanks b)) (10 ∷ rest)

  number_run :
      (k : NumberKey)
      → Passes is_digit (d ∷ ds)
      → value_from 0 (d ∷ ds) < 2 ^ 31
      → scan_set is_separator (at_place b (32 ∷ 61 ∷ 32 ∷ (d ∷ (ds ++ (10 ∷ rest)))))
        ≡ (some 3, at_place (reverse_onto blanks b) (d ∷ (ds ++ (10 ∷ rest))))
      → scan_int (at_place (reverse_onto blanks b) (d ∷ (ds ++ (10 ∷ rest))))
        ≡ ret (some (pos (value_from 0 (d ∷ ds))), after_number)
      → get_setting (number_key k) r (at_place b (32 ∷ 61 ∷ 32 ∷ (d ∷ (ds ++ (10 ∷ rest)))))
        ≡ ret (store_number k r (value_from 0 (d ∷ ds)), after_number)
  unfolding get_setting
  number_run workers h m e f = rw (e, get_setting) (rw f refl)
  number_run capacity h m e f = rw (e, get_setting) (rw f (ground arith))
  number_run clients h m e f = rw (e, get_setting) (rw f (ground arith))
  number_run files h m e f = rw (e, get_setting) (rw f (ground arith))

module _ (r : ServerSettings) (b : Bytes) (c : ℕ) (cs rest : Bytes) where
  abbrev after_name : Stream
  after_name = at_place (reverse_onto (c ∷ cs) (reverse_onto blanks b)) (10 ∷ rest)

  -- The name of a line is read and stored.
  name_run :
      (k : NameKey)
      → scan_set is_separator (at_place b (32 ∷ 61 ∷ 32 ∷ (c ∷ (cs ++ (10 ∷ rest)))))
        ≡ (some 3, at_place (reverse_onto blanks b) (c ∷ (cs ++ (10 ∷ rest))))
      → ((old : Bytes)
          → read_name old (at_place (reverse_onto blanks b) (c ∷ (cs ++ (10 ∷ rest))))
            ≡ ret (copy_at 0 (c ∷ cs) old, after_name))
      → get_setting (name_key k) r (at_place b (32 ∷ 61 ∷ 32 ∷ (c ∷ (cs ++ (10 ∷ rest)))))
        ≡ ret (store_name k r (c ∷ cs), after_name)
  unfolding get_setting
  name_run socket e f = rw (e, get_setting) (rw (f r.socket_name) refl)
  name_run logfile e f = rw (e, get_setting) (rw (f r.logfile_name) refl)

separator_of_not : (c : ℕ) → not (is_separator c) ≡ true → is_separator c ≡ false
separator_of_not c h = ground arith

entry_run :
    (e : Entry) (r : ServerSettings) (b rest : Bytes)
    → IsEntry e
    → ReadsTo (settings_round r (at_place b (written e rest))) (apply e r) rest
unfolding settings_round fgetc
entry_run (comment text) r b rest h =
    (reverse_onto text (35 ∷ b), ground (arith, skip_run (35 ∷ b) text rest h))
entry_run empty r b rest h = (b, refl)
entry_run (number k []) r b rest (h, p, m) = absurd (omega (arith, p))
entry_run (number k (d ∷ ds)) r b rest (h, p, m) =
    let b' = reverse_onto (number_key k) b in
    line_run r (store_number k r (value_from 0 (d ∷ ds))) b _ (number_key k) (d ∷ ds) rest
      (number_key-IsKey k)
      (number_run r b' d ds rest k h m
        (scan_set_run is_separator b' blanks d (ds ++ (10 ∷ rest)) (refl, (refl, (refl, tt)))
          (digit_not_separator d h.0))
        (scan_int_run (reverse_onto blanks b') (d ∷ ds) rest h p m))
entry_run (name k []) r b rest (h, p, m) = absurd (omega (arith, p))
entry_run (name k (c ∷ cs)) r b rest (h, p, m) =
    let b' = reverse_onto (name_key k) b in
    line_run r (store_name k r (c ∷ cs)) b _ (name_key k) (c ∷ cs) rest (name_key-IsKey k) (
      name_run r b' c cs rest k
        (scan_set_run is_separator b' blanks c (cs ++ (10 ∷ rest)) (refl, (refl, (refl, tt)))
          (separator_of_not c h.0))
        (λ old. read_name_run old (reverse_onto blanks b') (c ∷ cs) 10 rest h refl m))

-- Behind the last line the end of the file is seen in one more round.
pub end_run :
    (r : ServerSettings) (b : Bytes) (fuel : ℕ)
    → settings_loop (suc (suc fuel)) r (at_place (10 ∷ b) []) ≡ ret (pos 0, r)
unfolding settings_loop settings_round setting_line fgetc fseek_back server_readword scan_set
    mu_malloc fread get_setting server_skipline
end_run r b fuel = refl

loop_step :
    (e : Entry) (r : ServerSettings) (b rest : Bytes) (fuel : ℕ) (end : Run (ℤ × ServerSettings))
    → IsEntry e
    → ((b' : Bytes) → settings_loop fuel (apply e r) (at_place (10 ∷ b') rest) ≡ end)
    → settings_loop (suc fuel) r (at_place b (written e rest)) ≡ end
unfolding settings_loop
loop_step e r b rest fuel end h k =
    let (b', read) = entry_run e r b rest h in rw (read, settings_loop) (k b')

loop_run :
    (es : List Entry) (r : ServerSettings) (b : Bytes) (fuel : ℕ)
    → All IsEntry es
    → length es + 2 ≤ fuel
    → settings_loop fuel r (at_place (10 ∷ b) (file_of es)) ≡ ret (pos 0, apply_all es r)
loop_run es r b zero h l = absurd (omega (arith, l))
loop_run es r b (suc zero) h l = absurd (omega (arith, l))
loop_run [] r b (suc (suc fuel)) h l = end_run r b fuel
loop_run (e ∷ es) r b (suc (suc fuel)) (h, hs) l =
    loop_step e r (10 ∷ b) (file_of es) (suc fuel) _ h
      (λ b'. loop_run es (apply e r) b' (suc fuel) hs (omega (arith, l)))

written-lt : (e : Entry) (rest : Bytes) → length rest < length (written e rest)
written-lt (comment text) rest = omega (arith, length-append text (10 ∷ rest))
written-lt empty rest = omega arith
written-lt (number workers ds) rest = omega (arith, length-append ds (10 ∷ rest))
written-lt (number capacity ds) rest = omega (arith, length-append ds (10 ∷ rest))
written-lt (number clients ds) rest = omega (arith, length-append ds (10 ∷ rest))
written-lt (number files ds) rest = omega (arith, length-append ds (10 ∷ rest))
written-lt (name socket ds) rest = omega (arith, length-append ds (10 ∷ rest))
written-lt (name logfile ds) rest = omega (arith, length-append ds (10 ∷ rest))

file_of-ge : (es : List Entry) → length es ≤ length (file_of es)
file_of-ge [] = omega arith
file_of-ge (e ∷ es) = omega (arith, written-lt e (file_of es), file_of-ge es)

-- From a file of at least one line, each a comment of one line, an empty line, a key with a number
-- that fits an `int`, or a key with a name of 1 to 63 bytes and no separator, init_server_settings
-- returns 0 with the settings that the lines give, in their order.
pub init_server_settings-file_of :
    (e : Entry) (es : List Entry) (r : ServerSettings)
    → All IsEntry (e ∷ es)
    → init_server_settings (some (file_of (e ∷ es))) r ≡ ret (pos 0, apply_all (e ∷ es) r)
unfolding init_server_settings
init_server_settings-file_of e es r (h, hs) =
    let n = length (written e (file_of es)) in
    ap (λ k. settings_loop k r (at_place [] (written e (file_of es)))) (omega arith)
    ∙ loop_step e r [] (file_of es) (n + 1) _ h (λ b.
      loop_run es (apply e r) b (n + 1) hs
        (omega (arith, written-lt e (file_of es), file_of-ge es)))
