-- ===== src/Tests/Dispatch.antt =====
-- The theorems on the dispatcher and the workers at concrete inputs.
use lso_baldini.Common.{
  ◌≢◌, ◌%◌, ℕ, ◌+◌, ◌≤◌, ◌<◌, ◌≡◌, refl, [], ◌∷◌, true, ◌==◌, if◌then◌else◌, ℤ, pos, negsuc,
  replicate, arith,
}
use lso_baldini.Dispatch.Assignment.{Slot, held, busy, free, assign_client, assign_client_free}
use lso_baldini.Dispatch.Stopping.{pu_isempty-serving}
use lso_baldini.Dispatch.Exclusion.{handed, Reach-serving}
use lso_baldini.PollUtils.{pu_isempty}
use lso_baldini.Common.{true, false, none}
use lso_baldini.Dispatch.{assigned, Infos, hand_over, spawned, hands, Reach, here, next, serving}
use lso_baldini.PollUtils.Laws.{polled}
use lso_baldini.PollUtils.{PollArr}
use lso_baldini.Run.{ret}

-- The socket of the server and one client.
abbrev two_fds : PollArr
two_fds = record {
  fds =
      record { fd = pos 3; events = 1; revents = 0 }
      ∷ record { fd = pos 5; events = 1; revents = 1 }
      ∷ [];
  maxlen = 4;
  empty = true;
}

polled_once : (d : ℤ) → polled d two_fds.fds ≤ 1
polled_once (pos n) = ground arith
polled_once (negsuc n) = ground arith

-- The client is handed to the second of two workers.
abbrev started : Infos
started = spawned 2 two_fds

handed_to_second : Reach started (hand_over started 1 (pos 5))
unfolding replicate
handed_to_second = next here (hands started 1 (pos 5) refl (omega arith) (omega arith) refl)

Reach-serving_example :
    let s = hand_over started 1 (pos 5) in
    (serving (pos 5) s.workers ≤ 1)
    × (polled (pos 5) s.poll_arr.fds + serving (pos 5) s.workers ≤ 1 + handed (pos 5) s.handing)
Reach-serving_example = Reach-serving 2 two_fds polled_once handed_to_second (pos 5)

-- The first of three workers holds its mutex, the second is free, the third has a client.
abbrev slots : ℕ → ℕ → Slot
slots k i = if i == 1 then free else if i == 0 then held else busy

assign_client_free_example :
    (w : ℕ) × (t : ℕ) × (assign_client 3 slots 3 2 (pos 5) ≡ ret (pos 0, w))
    × (w ≡ (2 + t) % 3)
    × (slots t w ≡ free)
    × ((m : ℕ) → m < t → slots m ((2 + m) % 3) ≢ free)
    × (t < 3)
assign_client_free_example =
    assign_client_free slots 3 2 1 (pos 5) refl (omega arith) (omega arith) (λ k. refl)

-- Two workers serve the clients 5 and 6, and the server no longer listens.
abbrev serving_two : Infos
serving_two = record {
  poll_arr = record { fds = []; maxlen = 4; empty = false };
  workers = assigned (pos 5) ∷ assigned (pos 6) ∷ [];
  handing = none;
}

pu_isempty-serving_example :
    (t : Infos) × Reach serving_two t
    × (pu_isempty t.poll_arr ≡ true)
    × (0 < serving (pos 6) t.workers)
pu_isempty-serving_example =
    pu_isempty-serving serving_two 1 0 (pos 5) (pos 6) refl refl (omega arith) (omega arith) refl
      refl (λ e. omega (arith, e))
