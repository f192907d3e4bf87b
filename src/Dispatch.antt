-- ===== src/Dispatch.antt =====
-- The dispatcher and the workers (src/server.c): which descriptors are polled, and which client each
-- worker serves. A step is one call that changes either, the threads in any order. The calls on the array
-- of polled descriptors take no mutex; here are the runs in which none of them is interrupted by another
-- one, and PollUtils/Race has what an interruption can do.
pub mod Exclusion
pub mod Stopping
pub mod Assignment
use lso_baldini.Common.{
  ℕ, zero, suc, ◌+◌, ◌%◌, ◌<◌, ◌≡◌, List, [], ◌∷◌, Bool, true, false, Option, none, some, ◌==◌,
  if◌then◌else◌, get_or, set, replicate, ℤ, pos, minus_one, is_neg, length,
}
use lso_baldini.PollUtils.Laws.{polled, once}
use lso_baldini.PollUtils.{PollArr, pu_add, pu_remove, pu_isfull}
use lso_baldini.Run.{Run, ret, ◌>>=◌}

-- What a worker does: `assigned` from the moment that its entry of `workers_clients` is set, `returned`
-- when the descriptor is polled again and the entry is still set.
pub data Worker : Type 0 where
  idle : Worker
  assigned : ℤ → Worker
  returned : ℤ → Worker

-- `handing` is the client that the dispatcher has assigned and is still to remove from the array.
pub record Infos : Type 0 where
  pub poll_arr : PollArr
  pub workers : List Worker
  pub handing : Option ℤ

-- `POLLIN`; the flags have no part in what follows.
abbrev pub poll_in : ℕ
poll_in = 1

abbrev pub or_same : PollArr → Option PollArr → PollArr
or_same a none = a
or_same a (some b) = b

-- A new connection, whose descriptor is `fd`.
unfoldable pub accept_client : Infos → ℤ → Infos
unfolding pu_isfull pu_add
accept_client s fd =
    if pu_isfull s.poll_arr
    then s
    else record s { poll_arr = or_same s.poll_arr (pu_add s.poll_arr fd poll_in) }

-- A client that hung up, and the socket of the server when it no longer listens.
unfoldable pub stop_polling : Infos → ℤ → Run Infos
unfolding pu_remove
stop_polling s fd = do
  removed ← pu_remove s.poll_arr fd
  ret (record s { poll_arr = or_same s.poll_arr removed })

-- `workers_clients[j] = client`, by which `assign_client` returns.
unfoldable pub hand_over : Infos → ℕ → ℤ → Infos
hand_over s j client = record s {
  workers = set s.workers j (assigned client);
  handing = some client;
}

-- What the dispatcher does when `assign_client` has returned 0.
unfoldable pub handed_over : Infos → ℤ → Run Infos
unfolding pu_remove
handed_over s client =
    let arr : PollArr = record (s.poll_arr) { empty = false } in
    do
      removed ← pu_remove arr client
      ret (record s { poll_arr = or_same arr removed; handing = none })

-- A worker that has served a request polls its client again, if there is room.
unfoldable pub give_back : Infos → ℕ → ℤ → Infos
unfolding pu_add
give_back s j client = record s {
  poll_arr = record (or_same s.poll_arr (pu_add s.poll_arr client poll_in)) { empty = true };
  workers = set s.workers j (returned client);
}

-- `workers_clients[worker_id] = 0`
unfoldable pub release : Infos → ℕ → Infos
release s j = record s { workers = set s.workers j idle }

-- How many workers serve a client.
abbrev pub serves : ℤ → Worker → ℕ
serves d idle = 0
serves d (assigned c) = once c d
serves d (returned c) = 0

abbrev pub serving : ℤ → List Worker → ℕ
serving d [] = 0
serving d (w ∷ ws) = serves d w + serving d ws

-- One step of one thread, not interrupted by another one. A new connection has a descriptor that is not in use; a failing `accept` is
-- left out. A worker whose client sent no request, or whose `read` failed, is released without polling
-- it again.
pub data WholeStep : Infos → Infos → Type 0 where
  accepts :
      (s : Infos) (fd : ℤ)
      → s.handing ≡ none
      → polled fd s.poll_arr.fds ≡ 0
      → serving fd s.workers ≡ 0
      → WholeStep s (accept_client s fd)
  stops : (s t : Infos) (fd : ℤ) → s.handing ≡ none → stop_polling s fd ≡ ret t → WholeStep s t
  hands :
      (s : Infos) (j : ℕ) (client : ℤ)
      → s.handing ≡ none
      → 0 < polled client s.poll_arr.fds
      → j < length s.workers
      → get_or s.workers j idle ≡ idle
      → WholeStep s (hand_over s j client)
  removes :
      (s t : Infos) (client : ℤ)
      → s.handing ≡ some client
      → handed_over s client ≡ ret t
      → WholeStep s t
  gives :
      (s : Infos) (j : ℕ) (client : ℤ)
      → j < length s.workers
      → get_or s.workers j idle ≡ assigned client
      → WholeStep s (give_back s j client)
  releases : (s : Infos) (j : ℕ) → j < length s.workers → WholeStep s (release s j)

pub data Reach (s : Infos) : Infos → Type 0 where
  here : Reach s s
  next : {t u : Infos} → Reach s t → WholeStep t u → Reach s u

-- The server when the workers are spawned, with the socket that it listens on.
abbrev pub spawned : ℕ → PollArr → Infos
spawned n a = record { poll_arr = a; workers = replicate n idle; handing = none }
