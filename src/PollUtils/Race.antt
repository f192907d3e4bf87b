-- ===== src/PollUtils/Race.antt =====
-- `pu_add` by one thread while another one is in `pu_remove` (src/poll_utils.c): there is no mutex.
use lso_baldini.Common.{
  suc, ◌<◌, sym, eq_ℤ_refl, ℕ, ◌+◌, ◌≡◌, refl, ap, List, [], ◌∷◌, ◌++◌, Bool, true, false,
  Bool-cases, inl, inr, Option, none, some, if◌then◌else◌, length, ℤ, eq_ℤ, arith, ◌==◌,
  length-append,
}
use mathlib.Core.Path.{subst}
use lso_baldini.PollUtils.Laws.{polled, once, polled-append, polled-replace_last, polled-split_last}
use lso_baldini.PollUtils.{
  PollFd, PollArr, pu_add, pu_isfull, split_last, replace_last, remove_fd, copy_last, clear_last,
}

split_last-append :
    (x : PollFd) (xs : List PollFd) (y : PollFd) → split_last x (xs ++ (y ∷ [])) ≡ (x ∷ xs, y)
unfolding split_last
split_last-append x [] y = refl
split_last-append x (z ∷ xs) y = rw (split_last-append z xs y) refl

clear_last-append : (xs : List PollFd) (y : PollFd) → clear_last (xs ++ (y ∷ [])) ≡ xs
unfolding clear_last
clear_last-append [] y = refl
clear_last-append (x ∷ xs) y = ap (λ p. p.0) (split_last-append x xs y)

-- What `pu_remove` goes on with.
abbrev cleared : Option (List PollFd) → Option (List PollFd)
cleared none = none
cleared (some ys) = some (clear_last ys)

abbrev put_behind : PollFd → Option (List PollFd) → Option (List PollFd)
put_behind last none = none
put_behind last (some ys) = some (ys ++ (last ∷ []))

cleared_behind : (last : PollFd) (o : Option (List PollFd)) → o ≡ cleared (put_behind last o)
cleared_behind last none = refl
cleared_behind last (some ys) = ap some (sym (clear_last-append ys last))

-- Without an interruption the two parts are `pu_remove`.
copy_last-clear_last :
    (oldfd : ℤ) (x : PollFd) (xs : List PollFd)
    → remove_fd oldfd x xs ≡ cleared (copy_last oldfd x xs)
unfolding remove_fd copy_last clear_last
copy_last-clear_last oldfd x xs = elim (Bool-cases (eq_ℤ (split_last x xs).1.fd oldfd)) [
  | inl same ↦ rw same refl
  | inr other ↦ rw other (
      cleared_behind (split_last x xs).1
        (replace_last oldfd (split_last x xs).1 (split_last x xs).0))
]

length-split_last : (x : PollFd) (xs : List PollFd) → length ((split_last x xs).0) ≡ length xs
unfolding split_last
length-split_last x [] = refl
length-split_last x (y ∷ ys) = ap suc (length-split_last y ys)

-- The list that results, if there is one, has `n` elements.
abbrev Sized : ℕ → Option (List PollFd) → Type 0
Sized n none = Unit
Sized n (some xs) = length xs ≡ n

replace_last-Sized :
    (old : ℤ) (last : PollFd) (xs : List PollFd) → Sized (length xs) (replace_last old last xs)
unfolding replace_last
replace_last-Sized old last [] = tt
replace_last-Sized old last (x ∷ xs) =
    go (replace_last old last xs) (eq_ℤ x.fd old) (replace_last-Sized old last xs)
  where
    go :
        (o : Option (List PollFd)) (b : Bool)
        → Sized (length xs) o
        → Sized
            (suc (length xs))
            (elim o [ some ys ↦ some (x ∷ ys) | none ↦ if b then some (last ∷ xs) else none ])
    go none true h = refl
    go none false h = tt
    go (some ys) b h = ap suc h

-- If another thread adds a descriptor between the two parts of the removal of one that is polled and
-- does not stand last, in an array that is not full, the addition succeeds and is lost: afterwards every
-- descriptor is polled as often as before the removal, but the removed one once less, and the one that
-- stood last once more.
pub pu_remove-pu_add :
    (a : PollArr) (oldfd client : ℤ) (events : ℕ) (x : PollFd) (xs : List PollFd)
    → a.fds ≡ x ∷ xs
    → 0 < polled oldfd (x ∷ xs)
    → eq_ℤ (split_last x xs).1.fd oldfd ≡ false
    → length (x ∷ xs) < a.maxlen
    → (ys : List PollFd) × (b : PollArr) × (copy_last oldfd x xs ≡ some ys)
      × (pu_add (record a { fds = ys }) client events ≡ some b)
      × (polled client b.fds ≡ polled client ys + 1)
      × ((d : ℤ)
          → polled d (clear_last b.fds) + once oldfd d
            ≡ polled d a.fds + once (split_last x xs).1.fd d)
unfolding copy_last pu_add pu_isfull
pu_remove-pu_add a oldfd client events x xs used present other room =
    let front = (split_last x xs).0 in
    let last = (split_last x xs).1 in
    elim (polled-replace_last oldfd last front) [
      | inl (_, gone) ↦ absurd (ground (arith, polled-split_last oldfd x xs, gone, other, present))
      | inr (zs, e, counts) ↦
          let sized : length zs ≡ length front =
            subst (Sized (length front)) e (replace_last-Sized oldfd last front) in
          let new : PollFd = record { fd = client; events = events; revents = 0 } in
          let self : once client client ≡ 1 = rw (eq_ℤ_refl client) refl in
          let ys = zs ++ (last ∷ []) in
          let not_full : (length ys == a.maxlen) ≡ false =
            ground (arith, length-append zs (last ∷ []), sized, length-split_last x xs, room) in
          (
            ys,
            record a { fds = ys ++ (new ∷ []) },
            rw (other, e) refl,
            rw not_full refl,
            omega (arith, polled-append client ys (new ∷ []), self),
            λ d. omega (
              arith,
              ap (polled d) (clear_last-append ys new),
              ap (polled d) used,
              polled-append d zs (last ∷ []),
              counts d,
              polled-split_last d x xs,
            ),
          )
    ]
