-- ===== src/Stream/Laws.antt =====
-- How a stream moves over a run of bytes that pass a test, up to one that does not, and that no call but
-- `fseek` makes the rest of a stream longer.
use lso_baldini.Common.{
  ℕ, suc, ◌+◌, ◌≤◌, ◌≡◌, refl, ap, ◌∙◌, [], ◌∷◌, ◌++◌, Bool, true, false, some, length, take-append,
  take-length, drop-append, length-append, length-drop, All, arith, inl, inr, Bool-cases, ◌||◌,
  ◌==◌, ◌⊎◌,
}
use lso_baldini.CString.{Bytes}
use lso_baldini.Run.{Completes}
use lso_baldini.Stream.{
  Stream, fread, fseek_back, rewind, reverse_onto, span, scanned, scan_set, scan_sign, scan_int,
  is_space, is_digit,
}

-- A place in a stream whose end was not seen.
abbrev pub at_place : Bytes → Bytes → Stream
at_place behind ahead = record { behind = behind; ahead = ahead; eof = false }

abbrev pub Passes : (ℕ → Bool) → Bytes → Type 0
Passes test = All (λ b. test b ≡ true)

module _ (test : ℕ → Bool) where
  pub span_run :
      (xs : Bytes) (y : ℕ) (ys : Bytes)
      → Passes test xs
      → test y ≡ false
      → span test (xs ++ (y ∷ ys)) ≡ (xs, y ∷ ys)
  unfolding span
  span_run [] y ys h k = rw k
  span_run (x ∷ xs) y ys (h, hs) k = rw h (rw (span_run xs y ys hs k))

  pub span_all : (xs : Bytes) → Passes test xs → span test xs ≡ (xs, [])
  unfolding span
  span_all [] h = refl
  span_all (x ∷ xs) (h, hs) = rw h (rw (span_all xs hs))

  pub scanned_run :
      (b xs : Bytes) (y : ℕ) (ys : Bytes)
      → Passes test xs
      → test y ≡ false
      → scanned test (at_place b (xs ++ (y ∷ ys)))
        ≡ (length xs, at_place (reverse_onto xs b) (y ∷ ys))
  unfolding scanned
  scanned_run b xs y ys h k = rw (span_run xs y ys h k) (ground arith)

  pub scan_set_run :
      (b xs : Bytes) (y : ℕ) (ys : Bytes)
      → Passes test xs
      → test y ≡ false
      → scan_set test (at_place b (xs ++ (y ∷ ys)))
        ≡ (some (length xs), at_place (reverse_onto xs b) (y ∷ ys))
  unfolding scan_set
  scan_set_run b xs y ys h k = ground (arith, span_run xs y ys h k, length-append xs (y ∷ ys))

  span_parts : (xs : Bytes) → (span test xs).0 ++ (span test xs).1 ≡ xs
  unfolding span
  span_parts [] = refl
  span_parts (x ∷ xs) = elim (Bool-cases (test x)) [
    | inl e ↦ rw e (ap (λ ys. x ∷ ys) (span_parts xs))
    | inr e ↦ rw e
  ]

  pub scanned-le : (s : Stream) → length (scanned test s).1.ahead ≤ length s.ahead
  unfolding scanned
  scanned-le s = omega (
    arith,
    ap length (span_parts s.ahead),
    length-append (span test s.ahead).0 (span test s.ahead).1,
  )

  pub scan_set-le : (s : Stream) → length (scan_set test s).1.ahead ≤ length s.ahead
  unfolding scan_set
  scan_set-le s = scanned-le s

  -- What stops the run fails the test.
  span_stops : (xs : Bytes) (y : ℕ) (ys : Bytes) → (span test xs).1 ≡ y ∷ ys → test y ≡ false
  unfolding span
  span_stops [] y ys h = cc
  span_stops (x ∷ xs) y ys h = elim (Bool-cases (test x)) [
    | inl e ↦ span_stops xs y ys (rw e at h)
    | inr e ↦ ground (arith, rw e at h)
  ]

  -- Behind the run the end of the stream is seen, or a byte comes that fails the test.
  pub scan_set_end :
      (s : Stream)
      → ((scan_set test s).1.eof ≡ true)
        ⊎ ((y : ℕ) × (ys : Bytes) × ((scan_set test s).1.ahead ≡ y ∷ ys) × (test y ≡ false))
  unfolding scan_set scanned
  scan_set_end s = stops (span test s.ahead).1 refl
    where
      stops :
          (rest : Bytes)
          → (span test s.ahead).1 ≡ rest
          → ((s.eof || length (span test s.ahead).1 == 0) ≡ true)
            ⊎ ((y : ℕ) × (ys : Bytes) × ((span test s.ahead).1 ≡ y ∷ ys) × (test y ≡ false))
      stops [] e = inl (ground arith)
      stops (y ∷ ys) e = inr (y, ys, e, span_stops s.ahead y ys e)

pub rewind_onto :
    (k : ℕ) (xs b ys : Bytes)
    → rewind (length xs + k) (reverse_onto xs b) ys ≡ rewind k b (xs ++ ys)
unfolding rewind reverse_onto
rewind_onto k [] b ys = ap (λ n. rewind n b ys) (omega arith)
rewind_onto k (x ∷ xs) b ys =
    ap (λ n. rewind n (reverse_onto xs (x ∷ b)) ys) (omega arith)
    ∙ rewind_onto (suc k) xs (x ∷ b) ys

pub fread_run :
    (b xs ys : Bytes)
    → fread (length xs) (at_place b (xs ++ ys)) ≡ (xs, at_place (reverse_onto xs b) ys)
unfolding fread
fread_run b xs ys = ground (
  arith,
  take-append (length xs) xs ys (omega arith),
  take-length xs,
  drop-append (length xs) xs ys refl,
  length-append xs ys,
)

-- A run that is scanned is left again by as many steps back.
pub fseek_back_run :
    (b xs ys : Bytes) (e : Bool)
    → fseek_back (length xs) (record { behind = reverse_onto xs b; ahead = ys; eof = e })
      ≡ some (at_place b (xs ++ ys))
unfolding fseek_back
fseek_back_run b xs ys e = ground (arith, rewind_onto 0 xs b ys)

pub fread-le : (n : ℕ) (s : Stream) → length (fread n s).1.ahead ≤ length s.ahead
unfolding fread
fread-le n s = omega (arith, length-drop n s.ahead)

scan_sign-le : (s : Stream) → length (scan_sign s).1.ahead ≤ length s.ahead
unfolding scan_sign
scan_sign-le s = ground arith

pub scan_int-le : (s : Stream) → Completes (λ r. length r.1.ahead ≤ length s.ahead) (scan_int s)
unfolding scan_int
scan_int-le s = ground (
  arith,
  scanned-le is_space s,
  scan_sign-le (scanned is_space s).1,
  scanned-le is_digit (scan_sign (scanned is_space s).1).1,
)

-- The steps back over what `scan_set` has passed.
pub scan_set_back :
    (test : ℕ → Bool) (s : Stream) (n : ℕ)
    → (scan_set test s).0 ≡ some n
    → fseek_back n (scan_set test s).1 ≡ some (at_place s.behind s.ahead)
unfolding scan_set
scan_set_back test s n h = ground (
  arith,
  h,
  span_parts test s.ahead,
  fseek_back_run s.behind (span test s.ahead).0 (span test s.ahead).1 (scan_set test s).1.eof,
)
