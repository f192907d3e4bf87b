-- ===== src/PollUtils/Laws.antt =====
-- The array of polled descriptors (src/poll_utils.c) as a multiset: what is added and removed.
use lso_baldini.Common.{
  pos, ==_iff, ℕ, ◌+◌, ◌≡◌, refl, List, [], ◌∷◌, ◌++◌, Bool, true, false, Bool-cases, inl, inr, ◌⊎◌,
  none, some, ◌==◌, if◌then◌else◌, length, ℤ, eq_ℤ, arith, length-append, eq_ℤ_sound,
}
use lso_baldini.Run.{ret, fault}
use lso_baldini.PollUtils.{
  PollFd, PollArr, pu_add, pu_remove, pu_isempty, pu_isfull, split_last, replace_last, remove_fd,
}

-- How often a descriptor is polled.
abbrev pub polled : ℤ → List PollFd → ℕ
polled d [] = 0
polled d (x ∷ xs) = (if eq_ℤ x.fd d then 1 else 0) + polled d xs

pub polled-append : (d : ℤ) (xs ys : List PollFd) → polled d (xs ++ ys) ≡ polled d xs + polled d ys
polled-append d [] ys = omega arith
polled-append d (x ∷ xs) ys = omega (arith, polled-append d xs ys)

abbrev pub once : ℤ → ℤ → ℕ
once a d = if eq_ℤ a d then 1 else 0

pub polled-split_last :
    (d : ℤ) (x : PollFd) (xs : List PollFd)
    → let (front, last) = split_last x xs in once last.fd d + polled d front ≡ polled d (x ∷ xs)
unfolding split_last
polled-split_last d x [] = refl
polled-split_last d x (y ∷ ys) = ground (arith, polled-split_last d y ys)

-- Exactly where the descriptor is found, it gives its place to `last`.
pub polled-replace_last :
    (old : ℤ) (last : PollFd) (xs : List PollFd)
    → ((replace_last old last xs ≡ none) × (polled old xs ≡ 0))
      ⊎ ((ys : List PollFd) × (replace_last old last xs ≡ some ys)
          × ((d : ℤ) → polled d ys + once old d ≡ polled d xs + once last.fd d))
unfolding replace_last
polled-replace_last old last [] = inl (refl, refl)
polled-replace_last old last (x ∷ xs) = elim (polled-replace_last old last xs) [
  | inr (ys, e, n) ↦ inr (x ∷ ys, ground (arith, e), λ d. omega (arith, n d))
  | inl (e, n) ↦ elim (Bool-cases (eq_ℤ x.fd old)) [
    | inr other ↦ inl (ground (arith, e, other), ground (arith, n, other))
    | inl found ↦
        inr (last ∷ xs, ground (arith, e, found), λ d. ground (arith, eq_ℤ_sound x.fd old found))
  ]
]

-- A descriptor is added unless the array is full, and it is then polled once more, and every other
-- as often as before.
pub pu_add_lem :
    (a : PollArr) (newfd : ℤ) (events : ℕ)
    → ((length a.fds ≡ a.maxlen) × (pu_add a newfd events ≡ none))
      ⊎ ((b : PollArr) × (pu_add a newfd events ≡ some b)
          × ((d : ℤ) → polled d b.fds ≡ polled d a.fds + once newfd d)
          × (length b.fds ≡ length a.fds + 1)
          × (b.maxlen ≡ a.maxlen))
unfolding pu_add pu_isfull
pu_add_lem a newfd events =
    let x : PollFd = record { fd = newfd; events = events; revents = 0 } in
    elim (Bool-cases (length a.fds == a.maxlen)) [
      | inl full ↦ inl (ground arith, ground arith)
      | inr room ↦ inr (
        record a { fds = a.fds ++ (x ∷ []) },
        ground arith,
        λ d. omega (arith, polled-append d a.fds (x ∷ [])),
        length-append a.fds (x ∷ []),
        refl,
      )
    ]

polled-remove_fd :
    (old : ℤ) (x : PollFd) (xs : List PollFd)
    → ((remove_fd old x xs ≡ none) × (polled old (x ∷ xs) ≡ 0))
      ⊎ ((ys : List PollFd) × (remove_fd old x xs ≡ some ys)
          × ((d : ℤ) → polled d ys + once old d ≡ polled d (x ∷ xs)))
unfolding remove_fd
polled-remove_fd old x xs =
    let front = (split_last x xs).0 in
    let last = (split_last x xs).1 in
    elim (Bool-cases (eq_ℤ last.fd old)) [
      | inl same ↦ inr (
        front,
        ground (arith, same),
        λ d. ground (arith, polled-split_last d x xs, eq_ℤ_sound last.fd old same),
      )
      | inr other ↦ elim (polled-replace_last old last front) [
        | inl (e, n) ↦
            inl (ground (arith, other, e), ground (arith, polled-split_last old x xs, other, n))
        | inr (ys, e, n) ↦
            inr (ys, ground (arith, other, e), λ d. omega (arith, polled-split_last d x xs, n d))
      ]
    ]

-- What a removal does: it finds the descriptor, or not, or leaves the array.
abbrev Removal : PollArr → ℤ → Type 0
Removal a oldfd =
    ((a.fds ≡ [])
      × (a.empty ≡ false)
      × ((a.maxlen ≡ 0) ⊎ (oldfd ≡ pos 0))
      × (pu_remove a oldfd ≡ fault))
    ⊎ (((polled oldfd a.fds ≡ 0) × (pu_remove a oldfd ≡ ret none))
        ⊎ ((b : PollArr) × (pu_remove a oldfd ≡ ret (some b))
            × ((d : ℤ) → polled d b.fds + once oldfd d ≡ polled d a.fds)
            × (b.maxlen ≡ a.maxlen)))

remove_outcome :
    (fds : List PollFd) (n : ℕ) (b : Bool) (oldfd : ℤ)
    → Removal (record { fds = fds; maxlen = n; empty = b }) oldfd
unfolding pu_remove pu_isempty
remove_outcome [] n true oldfd = inr (inl (refl, ground arith))
remove_outcome [] n false oldfd = elim (Bool-cases (n == 0)) [
  | inl no_room ↦ inl (refl, refl, inl ((==_iff n 0).0 no_room), ground (arith, no_room))
  | inr room ↦ elim (Bool-cases (eq_ℤ oldfd (pos 0))) [
    | inl is_0 ↦ inl (refl, refl, inr (eq_ℤ_sound oldfd (pos 0) is_0), ground (arith, room, is_0))
    | inr other ↦ inr (inl (refl, ground (arith, room, other)))
  ]
]
remove_outcome (x ∷ xs) n b oldfd = elim (polled-remove_fd oldfd x xs) [
  | inl (e, none_left) ↦ inr (inl (none_left, ground (arith, e)))
  | inr (ys, e, left) ↦
      inr (inr (record { fds = ys; maxlen = n; empty = b }, ground (arith, e), left, refl))
]

-- A descriptor is removed if it is polled, and is then polled once less, and every other as often as
-- before; if it is not polled the removal fails, or reaches for an entry that the array does not have:
-- the latter only where no descriptor is in use, `empty` is not set, and the array has no entries or the
-- descriptor is 0.
pub pu_remove_lem :
    (a : PollArr) (oldfd : ℤ)
    → ((a.fds ≡ [])
        × (a.empty ≡ false)
        × ((a.maxlen ≡ 0) ⊎ (oldfd ≡ pos 0))
        × (pu_remove a oldfd ≡ fault))
      ⊎ (((polled oldfd a.fds ≡ 0) × (pu_remove a oldfd ≡ ret none))
          ⊎ ((b : PollArr) × (pu_remove a oldfd ≡ ret (some b))
              × ((d : ℤ) → polled d b.fds + once oldfd d ≡ polled d a.fds)
              × (b.maxlen ≡ a.maxlen)))
pu_remove_lem a oldfd = remove_outcome a.fds a.maxlen a.empty oldfd
