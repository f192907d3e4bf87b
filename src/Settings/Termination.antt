-- ===== src/Settings/Termination.antt =====
-- The reading of the settings (src/server.c) ends on every file.
use lso_baldini.Common.{
  ℕ, zero, suc, ◌+◌, ◌≤◌, ◌≡◌, refl, [], ◌∷◌, Bool, true, false, Option, none, some, length, arith,
  inl, inr, ℤ, minus_one, ◌≢◌,
}
use lso_baldini.CString.{Bytes}
use lso_baldini.Run.{Run, ret, blocked, exited, fault, Completes, Completes-bind}
use lso_baldini.Settings.{
  ServerSettings, setting_line, settings_round, settings_loop, init_server_settings,
}
use lso_baldini.Settings.Reading.{end_run}
use lso_baldini.Stream.Laws.{at_place}
use lso_baldini.Stream.{Stream, rewind, fgetc, fseek_back}
use lso_baldini.Settings.Progress.{AtLine, Closer, GoesOn, round-GoesOn}

-- A file of no bytes.
empty_exits : (r : ServerSettings) → settings_round r (at_place [] []) ≡ exited
unfolding settings_round setting_line fgetc fseek_back rewind
empty_exits r = refl

-- What the fuel has to be for a stream: enough for what is left of it and two rounds more.
abbrev Fuelled : ℕ → Stream → Type 0
Fuelled fuel s =
    (s.eof ≡ false → AtLine s.behind s.ahead × (length s.ahead + 2 ≤ fuel)) × (1 ≤ fuel)

Closer-Fuelled : (n fuel : ℕ) (s : Stream) → n + 1 ≤ fuel → Closer n s → Fuelled fuel s
Closer-Fuelled n fuel s h (inl seen) = (λ e. cc, omega (arith, h))
Closer-Fuelled n fuel s h (inr (line, shorter)) =
    (λ _. (line, omega (arith, h, shorter)), omega (arith, h))

abbrev Finishes : Run (ℤ × ServerSettings) → Type 0
Finishes = Completes (λ _. Unit {0})

-- The rest of the loop behind a round.
rest-Finishes :
    (n fuel : ℕ) (r : ServerSettings) (x : Option (ServerSettings × Stream))
    → ((r' : ServerSettings) (t : Stream) → Fuelled fuel t → Finishes (settings_loop fuel r' t))
    → n + 1 ≤ fuel
    → GoesOn n x
    → Finishes (elim x [ none ↦ ret (minus_one, r) | some (r', t) ↦ settings_loop fuel r' t ])
rest-Finishes n fuel r none k h g = tt
rest-Finishes n fuel r (some (r', t)) k h g = k r' t (Closer-Fuelled n fuel t h g)

loop-Finishes :
    (fuel : ℕ) (r : ServerSettings) (b a : Bytes) (eof : Bool)
    → Fuelled fuel (record { behind = b; ahead = a; eof = eof })
    → Finishes (settings_loop fuel r (record { behind = b; ahead = a; eof = eof }))
unfolding settings_loop
loop-Finishes zero r b a eof (h, p) = absurd (omega (arith, p))
loop-Finishes (suc fuel) r b a true h = tt
loop-Finishes (suc fuel) r [] [] false h = rw (empty_exits r, settings_loop) tt
loop-Finishes (suc zero) r (x ∷ b) [] false (h, p) = absurd (omega (arith, (h refl).1))
loop-Finishes (suc (suc fuel)) r (x ∷ b) [] false (h, p) = rw (h refl).0 (rw (end_run r b fuel) tt)
loop-Finishes (suc fuel) r b (c ∷ cs) false (h, p) =
    Completes-bind (GoesOn (suc (length cs))) (λ _. Unit {0})
      (settings_round r (at_place b (c ∷ cs))) _ (round-GoesOn r b c cs)
      (λ x.
        rest-Finishes (suc (length cs)) fuel r x
          (λ r' t. loop-Finishes fuel r' t.behind t.ahead t.eof) (omega (arith, (h refl).1)))

never_blocked : (x : Run (ℤ × ServerSettings)) → Finishes x → x ≢ blocked
never_blocked (ret a) h = λ e. cc
never_blocked blocked h = absurd h
never_blocked exited h = λ e. cc
never_blocked fault h = λ e. cc

start-AtLine : (content : Bytes) → AtLine [] content
start-AtLine [] = tt
start-AtLine (c ∷ cs) = tt

-- init_server_settings does not go on for ever, whatever the file holds.
pub init_server_settings_ends :
    (content : Option Bytes) (r : ServerSettings) → init_server_settings content r ≢ blocked
unfolding init_server_settings
init_server_settings_ends none r = λ e. cc
init_server_settings_ends (some content) r = never_blocked _ (
    loop-Finishes (length content + 2) r [] content false
      (λ _. (start-AtLine content, omega arith), omega arith))
