-- ===== src/Settings/Progress.antt =====
-- A round of the reading of the settings (src/server.c) comes nearer to the end of the file.
use lso_baldini.Common.{
  ℕ, suc, ◌+◌, ◌≤◌, ◌<◌, ◌≡◌, refl, [], ◌∷◌, Bool, true, false, not, Option, none, some, length,
  arith, ◌⊎◌, Option-cases, inl, inr, ℤ, if◌then◌else◌, ltb, Bool-cases, ==_iff, ◌==◌, ap,
}
use lso_baldini.CString.{Bytes, c_string}
use lso_baldini.Disk.{unless_exited, same_path}
use lso_baldini.Memory.{mu_malloc, Allocation, exits, null, block}
use lso_baldini.Run.{◌>>=◌, ret, Completes, Completes-bind, Total, Total-if}
use lso_baldini.Settings.{
  ServerSettings, is_separator, config_nworkers, config_capacity, config_filecapacity,
  config_socket_name, config_logfile_name, config_client_max, server_skipline, server_readword,
  get_setting, read_name, setting_line, settings_round, number_setting, name_setting, set_workers,
  set_memory, set_clients, set_files, set_socket, set_logfile,
}
use lso_baldini.Stream.Laws.{
  at_place, scan_set-le, scan_set_end, fread-le, scan_int-le, scan_set_back,
}
use lso_baldini.Stream.{Stream, rewind, fgetc, fread, fseek_back, scan_set, scan_int}

-- At the end of the file the byte before is the newline of the last line, or there is none.
abbrev pub AtLine : Bytes → Bytes → Type 0
AtLine b (c ∷ cs) = Unit
AtLine [] [] = Unit
AtLine (x ∷ b) [] = x ≡ 10

-- The end of the file was seen, or the place is at a line and nearer to the end.
abbrev pub Closer : ℕ → Stream → Type 0
Closer n s = (s.eof ≡ true) ⊎ (AtLine s.behind s.ahead × (length s.ahead < n))

AtLine-newline : (b a : Bytes) → AtLine (10 ∷ b) a
AtLine-newline b [] = refl
AtLine-newline b (c ∷ cs) = tt

not_newline : (y : ℕ) → not (y == 10) ≡ false → y ≡ 10
not_newline y h = ground arith

-- What `fgetc` passes is a newline, or the end of the file was seen.
fgetc-eof : (s : Stream) → s.eof ≡ true → (fgetc s).1.eof ≡ true
unfolding fgetc
fgetc-eof s e = ground arith

fgetc-newline :
    (n : ℕ) (s : Stream) (y : ℕ) (ys : Bytes)
    → s.ahead ≡ y ∷ ys
    → y ≡ 10
    → length s.ahead ≤ n
    → AtLine (fgetc s).1.behind (fgetc s).1.ahead × (length (fgetc s).1.ahead < n)
unfolding fgetc
fgetc-newline n s y ys e f l =
    rw (e, fgetc) (rw f (AtLine-newline s.behind ys), omega (arith, ap length e, l))

skipline-Closer : (n : ℕ) (s : Stream) → length s.ahead ≤ n → Closer n (server_skipline s)
unfolding server_skipline
skipline-Closer n s h =
    let t = (scan_set (λ c. not (c == 10)) s).1 in
    elim (scan_set_end (λ c. not (c == 10)) s) [
      | inl e ↦ inl (fgetc-eof t e)
      | inr (y, ys, e, stops) ↦
          let shorter = scan_set-le (λ c. not (c == 10)) s in
          inr (fgetc-newline n t y ys e (not_newline y stops) (omega (arith, h, shorter)))
    ]

-- The rest of the stream gets no longer.
abbrev Shortens : {A : Type 0} → Stream → A × Stream → Type 0
Shortens s r = length r.1.ahead ≤ length s.ahead

abbrev ShortensIf : {A : Type 0} → Stream → Option (A × Stream) → Type 0
ShortensIf s none = Unit
ShortensIf s (some r) = length r.1.ahead ≤ length s.ahead

readword-Shortens : (s : Stream) → Completes (ShortensIf s) (server_readword s)
unfolding server_readword
readword-Shortens s = elim (Option-cases (scan_set (λ c. not (is_separator c)) s).0) [
  | inl e ↦ rw (e, server_readword) tt
  | inr (n, e) ↦
      rw (e, server_readword)
        (rw (scan_set_back _ s n e) (
          allocated (mu_malloc (n + 1)) (ltb (length (fread n (at_place s.behind s.ahead)).0) n) n))
]
  where
    allocated :
        (a : Allocation) (short : Bool) (n : ℕ)
        → Completes (ShortensIf s) (
            unless_exited a
              (ret (if short then none else some (fread n (at_place s.behind s.ahead)))))
    allocated exits short n = tt
    allocated null true n = tt
    allocated null false n = fread-le n (at_place s.behind s.ahead)
    allocated block true n = tt
    allocated block false n = fread-le n (at_place s.behind s.ahead)

read_name-Shortens : (old : Bytes) (s : Stream) → Completes (Shortens s) (read_name old s)
unfolding read_name
read_name-Shortens old s = elim (Option-cases (scan_set (λ c. not (is_separator c)) s).0) [
  | inl e ↦
      let t = (scan_set (λ c. not (is_separator c)) s).1 in
      rw (e, read_name)
        (unfold fseek_back rewind in
          ground (
            arith,
            e,
            scan_set-le (λ c. not (is_separator c)) s,
            fread-le 0 (record t { eof = false }),
          ))
  | inr (n, e) ↦
      let t = at_place s.behind s.ahead in
      rw (e, read_name) (rw (scan_set_back _ s n e) (ground (arith, fread-le n t, fread-le 63 t)))
]

-- A setting that is read from the stream `t` shortens `s` where `t` is not longer.
module _ (s t : Stream) (h : length t.ahead ≤ length s.ahead) where
  number-Shortens :
      (store : ServerSettings → ℤ → ServerSettings) (r : ServerSettings)
      → Total (Shortens s) (number_setting store r t)
  number-Shortens store r = record {
    completes =
        Completes-bind (Shortens t) (Shortens s) (scan_int t) _ (scan_int-le t)
          (λ a k. omega (arith, h, k));
  }

  name-Shortens :
      (store : Bytes → ServerSettings) (old : Bytes) → Total (Shortens s) (name_setting store old t)
  name-Shortens store old = record {
    completes =
        Completes-bind (Shortens t) (Shortens s) (read_name old t) _ (read_name-Shortens old t)
          (λ a k. omega (arith, h, k));
  }

  ret-Shortens : (r : ServerSettings) → Total (Shortens s) (ret (r, t))
  ret-Shortens r = record { completes = h }

get_setting-Shortens :
    (word : Bytes) (r : ServerSettings) (s : Stream) → Total (Shortens s) (get_setting word r s)
unfolding get_setting
get_setting-Shortens word r s =
    let t = (scan_set is_separator s).1 in
    let h = scan_set-le is_separator s in
    let key = c_string word in
    Total-if t.eof (ret-Shortens s t h r) (
      Total-if (same_path key config_nworkers) (number-Shortens s t h set_workers r) (
        Total-if (same_path key config_capacity) (number-Shortens s t h set_memory r) (
          Total-if (same_path key config_client_max) (number-Shortens s t h set_clients r) (
            Total-if (same_path key config_filecapacity) (number-Shortens s t h set_files r) (
              Total-if (same_path key config_socket_name)
                (name-Shortens s t h (set_socket r) r.socket_name)
                (Total-if (same_path key config_logfile_name)
                  (name-Shortens s t h (set_logfile r) r.logfile_name) (ret-Shortens s t h r)))))))

-- What a round leaves: it goes on nearer to the end of the file, or with the end seen.
abbrev pub GoesOn : ℕ → Option (ServerSettings × Stream) → Type 0
GoesOn n none = Unit
GoesOn n (some r) = Closer n r.1

setting_line-GoesOn :
    (r : ServerSettings) (s t : Stream)
    → fseek_back 1 s ≡ some t
    → Completes (GoesOn (length t.ahead)) (setting_line r s)
unfolding setting_line
setting_line-GoesOn r s t e =
    rw (e, setting_line)
      (Completes-bind (ShortensIf t) (GoesOn (length t.ahead)) (server_readword t) _
        (readword-Shortens t) word_read)
  where
    word_read :
        (word : Option (Bytes × Stream))
        → ShortensIf t word
        → Completes (GoesOn (length t.ahead)) (elim word [
          | none ↦ ret none
          | some (w, u) ↦ get_setting w r u >>= λ x. ret (some (x.0, server_skipline x.1))
        ])
    word_read none h = tt
    word_read (some (w, u)) h =
        Completes-bind (Shortens u) (GoesOn (length t.ahead)) (get_setting w r u) _
          (get_setting-Shortens w r u).completes
          (λ x k. skipline-Closer (length t.ahead) x.1 (omega (arith, h, k)))

pub round-GoesOn :
    (r : ServerSettings) (b : Bytes) (c : ℕ) (cs : Bytes)
    → Completes (GoesOn (suc (length cs))) (settings_round r (at_place b (c ∷ cs)))
unfolding settings_round fgetc
round-GoesOn r b c cs = elim (Bool-cases (c == 35)) [
  | inl comment ↦
      rw (comment, settings_round)
        (skipline-Closer (suc (length cs)) (at_place (c ∷ b) cs) (omega arith))
  | inr other ↦ elim (Bool-cases (c == 10)) [
    | inl newline ↦
        rw (other, settings_round)
          (rw (newline, settings_round)
            (inr (rw ((==_iff c 10).0 newline) (AtLine-newline b cs), omega arith)))
    | inr word ↦
        rw (other, settings_round)
          (rw (word, settings_round)
            (setting_line-GoesOn r (at_place (c ∷ b) cs) (at_place b (c ∷ cs))
              (unfold fseek_back rewind in refl)))
  ]
]
