-- ===== src/PollUtils.antt =====
-- The array of polled descriptors (src/poll_utils.c). `fds` are the `len` descriptors in use.
pub mod Laws
pub mod Race
use lso_baldini.Common.{
  ℕ, zero, suc, ◌*◌, List, [], ◌∷◌, ◌++◌, Bool, true, false, Option, none, some, ◌==◌, ltb,
  if◌then◌else◌, length, ℤ, eq_ℤ, ◌&&◌, ◌||◌, pos,
}
use lso_baldini.Memory.{Allocation, mu_calloc, exits}
use lso_baldini.Run.{Run, ret, exited, fault}

pub record PollFd : Type 0 where
  pub fd : ℤ
  pub events : ℕ
  pub revents : ℕ

pub record PollArr : Type 0 where
  pub fds : List PollFd
  pub maxlen : ℕ
  pub empty : Bool

abbrev pub sizeof_pollfd : ℕ
sizeof_pollfd = 8

unfoldable pub pu_initarr : ℕ → Run PollArr
unfolding mu_calloc
pu_initarr maxlen =
    let arr : PollArr = record { fds = []; maxlen = maxlen; empty = true } in
    if ltb 0 maxlen
    then elim (mu_calloc (maxlen * sizeof_pollfd)) [ exits ↦ exited | _ ↦ ret arr ]
    else ret arr

unfoldable pub pu_isempty : PollArr → Bool
pu_isempty a = (length a.fds == 0) && a.empty

unfoldable pub pu_isfull : PollArr → Bool
pu_isfull a = length a.fds == a.maxlen

-- `none` is the error return -1.
unfoldable pub pu_add : PollArr → ℤ → ℕ → Option PollArr
unfolding pu_isfull
pu_add a newfd events =
    if pu_isfull a
    then none
    else some
        (record a { fds = a.fds ++ (record { fd = newfd; events = events; revents = 0 } ∷ []) })

-- The last descriptor and those before it.
unfoldable pub split_last : PollFd → List PollFd → List PollFd × PollFd
split_last x [] = ([], x)
split_last x (y ∷ ys) = let (front, last) = split_last y ys in (x ∷ front, last)

-- The search from the end down; where the last entry with `oldfd` stands the last one is put.
unfoldable pub replace_last : ℤ → PollFd → List PollFd → Option (List PollFd)
replace_last oldfd last [] = none
replace_last oldfd last (x ∷ xs) = elim (replace_last oldfd last xs) [
  | some ys ↦ some (x ∷ ys)
  | none ↦ if eq_ℤ x.fd oldfd then some (last ∷ xs) else none
]

-- What is left of the descriptors, of which there is at least one.
unfoldable pub remove_fd : ℤ → PollFd → List PollFd → Option (List PollFd)
unfolding split_last replace_last
remove_fd oldfd x xs =
    let (front, last) = split_last x xs in
    if eq_ℤ (last.fd) oldfd then some front else replace_last oldfd last front

-- `none` is the error return -1. Where no descriptor is in use and `empty` is 0 the source looks at the
-- first entry, which is cleared: there is none in an array of no entries, and for the descriptor 0 it
-- clears the entry before the array.
unfoldable pub pu_remove : PollArr → ℤ → Run (Option PollArr)
unfolding pu_isempty remove_fd
pu_remove a oldfd = if pu_isempty a then ret none else elim (a.fds) [
  | [] ↦ if a.maxlen == 0 || eq_ℤ oldfd (pos 0) then fault else ret none
  | x ∷ xs ↦
      ret (elim (remove_fd oldfd x xs) [ none ↦ none | some ys ↦ some (record a { fds = ys }) ])
]

-- The two parts of `pu_remove` on an array in use: up to the copy of the last entry, and from there on.
unfoldable pub copy_last : ℤ → PollFd → List PollFd → Option (List PollFd)
unfolding split_last replace_last
copy_last oldfd x xs =
    let (front, last) = split_last x xs in
    if eq_ℤ (last.fd) oldfd
    then some (x ∷ xs)
    else elim (replace_last oldfd last front) [ none ↦ none | some ys ↦ some (ys ++ (last ∷ [])) ]

unfoldable pub clear_last : List PollFd → List PollFd
unfolding split_last
clear_last [] = []
clear_last (x ∷ xs) = (split_last x xs).0

unfoldable pub pu_free : PollArr → PollArr
pu_free a = record a { fds = []; maxlen = 0 }
