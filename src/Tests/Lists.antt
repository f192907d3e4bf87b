-- ===== src/Tests/Lists.antt =====
-- The theorems on the linked list and the polled descriptors at concrete inputs.
use lso_baldini.Common.{
  ap, eq_ℤ, List, refl, false, arith, ℕ, [], ◌∷◌, ◌≡◌, some, none, pos, true, ℤ, ◌⊎◌, length, ◌+◌,
}
use lso_baldini.CString.{Bytes}
use lso_baldini.ListUtils.{LinkedList}
use lso_baldini.PollUtils.Race.{pu_remove-pu_add}
use lso_baldini.Run.{ret, fault}
use lso_baldini.PollUtils.{PollFd, PollArr, pu_add, pu_remove, split_last, copy_last, clear_last}
use lso_baldini.PollUtils.Laws.{polled, once, pu_add_lem, pu_remove_lem}

abbrev two_paths : LinkedList Bytes
two_paths = record { items = (97 ∷ []) ∷ (99 ∷ []) ∷ []; len = 2; element_size = 8 }

abbrev poll_fd : ℕ → PollFd
poll_fd n = record { fd = pos n; events = 1; revents = 0 }

abbrev three_fds : PollArr
three_fds = record { fds = poll_fd 3 ∷ poll_fd 5 ∷ poll_fd 6 ∷ []; maxlen = 4; empty = true }

pu_add_lem_example :
    ((length three_fds.fds ≡ three_fds.maxlen) × (pu_add three_fds (pos 7) 1 ≡ none))
    ⊎ ((b : PollArr) × (pu_add three_fds (pos 7) 1 ≡ some b)
        × ((d : ℤ) → polled d b.fds ≡ polled d three_fds.fds + once (pos 7) d)
        × (length b.fds ≡ length three_fds.fds + 1)
        × (b.maxlen ≡ three_fds.maxlen))
pu_add_lem_example = pu_add_lem three_fds (pos 7) 1

pu_remove_lem_example :
    ((three_fds.fds ≡ [])
      × (three_fds.empty ≡ false)
      × ((three_fds.maxlen ≡ 0) ⊎ (pos 3 ≡ pos 0))
      × (pu_remove three_fds (pos 3) ≡ fault))
    ⊎ (((polled (pos 3) three_fds.fds ≡ 0) × (pu_remove three_fds (pos 3) ≡ ret none))
        ⊎ ((b : PollArr) × (pu_remove three_fds (pos 3) ≡ ret (some b))
            × ((d : ℤ) → polled d b.fds + once (pos 3) d ≡ polled d three_fds.fds)
            × (b.maxlen ≡ three_fds.maxlen)))
pu_remove_lem_example = pu_remove_lem three_fds (pos 3)

split_three :
    split_last (poll_fd 3) (poll_fd 5 ∷ poll_fd 6 ∷ []) ≡ (poll_fd 3 ∷ poll_fd 5 ∷ [], poll_fd 6)
unfolding split_last
split_three = refl

pu_remove-pu_add_example :
    (ys : List PollFd) × (b : PollArr) × (copy_last (pos 3) (poll_fd 3) (poll_fd 5 ∷ poll_fd 6 ∷ [])
      ≡ some ys)
    × (pu_add (record three_fds { fds = ys }) (pos 7) 1 ≡ some b)
    × (polled (pos 7) b.fds ≡ polled (pos 7) ys + 1)
    × ((d : ℤ)
        → polled d (clear_last b.fds) + once (pos 3) d
          ≡ polled d three_fds.fds
            + once (split_last (poll_fd 3) (poll_fd 5 ∷ poll_fd 6 ∷ [])).1.fd d)
pu_remove-pu_add_example =
    pu_remove-pu_add three_fds (pos 3) (pos 7) 1 (poll_fd 3) (poll_fd 5 ∷ poll_fd 6 ∷ []) refl
      (omega arith) (ap (λ p. eq_ℤ p.1.fd (pos 3)) split_three) (omega arith)
