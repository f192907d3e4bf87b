-- ===== src/Dispatch/Exclusion.antt =====
-- How many workers serve a client (src/server.c).
use lso_baldini.Common.{
  ℕ, zero, suc, ◌+◌, ◌≤◌, ◌<◌, ◌≡◌, refl, ap, List, [], ◌∷◌, Bool, true, false, Bool-cases, Option,
  none, some, inl, inr, if◌then◌else◌, get_or, set, replicate, ℤ, length, arith, eq_ℤ, eq_ℤ_sound,
  eq_ℤ_refl,
}
use lso_baldini.Dispatch.{
  Worker, idle, assigned, returned, Infos, poll_in, or_same, accept_client, stop_polling, hand_over,
  handed_over, give_back, release, serves, serving, WholeStep, accepts, stops, hands, removes,
  gives, releases, Reach, here, next, spawned,
}
use lso_baldini.Run.{ret, Ensures, Ensures-bind}
use mathlib.Core.Path.{subst}
use lso_baldini.PollUtils.Laws.{polled, once, pu_add_lem, pu_remove_lem}
use lso_baldini.PollUtils.{PollArr, pu_add, pu_remove, pu_isfull}

-- 1 for the client that is assigned and still polled.
abbrev pub handed : ℤ → Option ℤ → ℕ
handed d none = 0
handed d (some c) = once c d

-- A descriptor is polled or served by one worker, and not both, except for the client that the
-- dispatcher is about to remove from the polled ones.
pub record IsExclusive (s : Infos) : Type 0 where
  pub bounded : (d : ℤ) → polled d s.poll_arr.fds + serving d s.workers ≤ 1 + handed d s.handing
  pub present : (d : ℤ) → handed d s.handing ≤ polled d s.poll_arr.fds

serving-set :
    (d : ℤ) (ws : List Worker) (j : ℕ) (w : Worker)
    → j < length ws
    → serving d (set ws j w) + serves d (get_or ws j idle) ≡ serving d ws + serves d w
serving-set d [] j w inside = absurd (omega (arith, inside))
serving-set d (x ∷ ws) zero w inside = omega arith
serving-set d (x ∷ ws) (suc j) w inside =
    omega (arith, serving-set d ws j w (omega (arith, inside)))

-- What an addition that may fail makes of the array.
add_le :
    (a : PollArr) (fd : ℤ) (d : ℤ)
    → (polled d (or_same a (pu_add a fd poll_in)).fds ≤ polled d a.fds + once fd d)
      × (polled d a.fds ≤ polled d (or_same a (pu_add a fd poll_in)).fds)
add_le a fd d = elim (pu_add_lem a fd poll_in) [
  | inl (_, e) ↦ rw e (omega arith, omega arith)
  | inr (b, e, more, _, _) ↦ rw e (omega (arith, more d), omega (arith, more d))
]

-- What a removal makes of it that may fail, but returns.
abbrev Removed : PollArr → ℤ → Option PollArr → Type 0
Removed a fd r =
    (d : ℤ)
    → (polled d (or_same a r).fds ≤ polled d a.fds)
      × (0 < polled fd a.fds → polled d (or_same a r).fds + once fd d ≡ polled d a.fds)

remove_le : (a : PollArr) (fd : ℤ) → Ensures (Removed a fd) (pu_remove a fd)
remove_le a fd = elim (pu_remove_lem a fd) [
  | inl (_, _, _, e) ↦ rw e tt
  | inr (inl (gone, e)) ↦ rw e (λ d. (omega arith, λ h. absurd (omega (arith, gone, h))))
  | inr (inr (b, e, less, _)) ↦ rw e (λ d. (omega (arith, less d), λ h. less d))
]

once-le : (c d : ℤ) (n : ℤ → ℕ) → 0 < n c → once c d ≤ n d
once-le c d n h = elim (Bool-cases (eq_ℤ c d)) [
  | inl same ↦ ground (arith, same, h, ap n (eq_ℤ_sound c d same))
  | inr other ↦ ground (arith, other)
]

-- A count that is 0 for a descriptor leaves room for one of it.
once-bound : (c d : ℤ) (n : ℤ → ℕ) → n c ≡ 0 → n d ≤ 1 → n d + once c d ≤ 1
once-bound c d n none_yet one = elim (Bool-cases (eq_ℤ c d)) [
  | inl same ↦ ground (arith, same, none_yet, ap n (eq_ℤ_sound c d same))
  | inr other ↦ ground (arith, other, one)
]

accept-IsExclusive :
    (s : Infos) (fd : ℤ) (full : Bool)
    → s.handing ≡ none
    → polled fd s.poll_arr.fds ≡ 0
    → serving fd s.workers ≡ 0
    → IsExclusive s
    → IsExclusive (
        if full
        then s
        else record s { poll_arr = or_same s.poll_arr (pu_add s.poll_arr fd poll_in) })
accept-IsExclusive s fd true free new unserved v = v
accept-IsExclusive s fd false free new unserved v = record {
  bounded = λ d. omega (
    arith,
    (add_le s.poll_arr fd d).0,
    ap (handed d) free,
    once-bound fd d (λ e. polled e s.poll_arr.fds + serving e s.workers)
        (omega (arith, new, unserved)) (omega (arith, v.bounded d, ap (handed d) free)),
  );
  present = λ d. omega (arith, v.present d, (add_le s.poll_arr fd d).1);
}

handed_self : (c : ℤ) → once c c ≡ 1
handed_self c = rw (eq_ℤ_refl c) refl

stop-IsExclusive :
    (s : Infos) (fd : ℤ)
    → s.handing ≡ none
    → IsExclusive s
    → Ensures IsExclusive (stop_polling s fd)
unfolding stop_polling
stop-IsExclusive s fd free v =
    Ensures-bind (Removed s.poll_arr fd) IsExclusive (pu_remove s.poll_arr fd)
      (λ r. ret (record s { poll_arr = or_same s.poll_arr r })) (remove_le s.poll_arr fd)
      (λ r h. record {
        bounded = λ d. omega (arith, v.bounded d, (h d).0);
        present = λ d. rw free (omega arith);
      })

handed_over-IsExclusive :
    (s : Infos) (client : ℤ)
    → s.handing ≡ some client
    → IsExclusive s
    → Ensures IsExclusive (handed_over s client)
unfolding handed_over
handed_over-IsExclusive s client pending v =
    let arr : PollArr = record (s.poll_arr) { empty = false } in
    let some_left : 0 < polled client s.poll_arr.fds =
      omega (arith, v.present client, ap (handed client) pending, handed_self client) in
    Ensures-bind (Removed arr client) IsExclusive (pu_remove arr client)
      (λ r. ret (record s { poll_arr = or_same arr r; handing = none })) (remove_le arr client)
      (λ r h. record {
        bounded = λ d. omega (arith, v.bounded d, ap (handed d) pending, (h d).1 some_left);
        present = λ d. omega arith;
      })

WholeStep-IsExclusive : {s t : Infos} → WholeStep s t → IsExclusive s → IsExclusive t
unfolding accept_client stop_polling hand_over handed_over give_back release
WholeStep-IsExclusive (accepts s fd free new unserved) v =
    accept-IsExclusive s fd (pu_isfull s.poll_arr) free new unserved v
WholeStep-IsExclusive (stops s t fd free e) v =
    subst (Ensures IsExclusive) e (stop-IsExclusive s fd free v)
WholeStep-IsExclusive (hands s j client free ready inside slot) v = record {
  bounded = λ d. omega (
    arith,
    v.bounded d,
    ap (handed d) free,
    serving-set d s.workers j (assigned client) inside,
    ap (serves d) slot,
  );
  present = λ d. once-le client d (λ e. polled e s.poll_arr.fds) ready;
}
WholeStep-IsExclusive (removes s t client pending e) v =
    subst (Ensures IsExclusive) e (handed_over-IsExclusive s client pending v)
WholeStep-IsExclusive (gives s j client inside slot) v = record {
  bounded = λ d. omega (
    arith,
    v.bounded d,
    (add_le s.poll_arr client d).0,
    serving-set d s.workers j (returned client) inside,
    ap (serves d) slot,
  );
  present = λ d. omega (arith, v.present d, (add_le s.poll_arr client d).1);
}
WholeStep-IsExclusive (releases s j inside) v = record {
  bounded = λ d. omega (arith, v.bounded d, serving-set d s.workers j idle inside);
  present = v.present;
}

Reach-IsExclusive : {s t : Infos} → Reach s t → IsExclusive s → IsExclusive t
Reach-IsExclusive here v = v
Reach-IsExclusive (next r step) v = WholeStep-IsExclusive step (Reach-IsExclusive r v)

serving_idle : (d : ℤ) (n : ℕ) → serving d (replicate n idle) ≡ 0
unfolding replicate
serving_idle d zero = refl
serving_idle d (suc n) = omega (arith, serving_idle d n)

-- If each descriptor is polled at most once when the workers are spawned, then in every state that the
-- dispatcher and the workers reach, in any order of their calls, by a run in which no call on the array
-- of polled descriptors is interrupted by another one, a client is served by at most one worker, and is
-- polled by then only if the dispatcher is about to remove it.
pub Reach-serving :
    (n : ℕ) (a : PollArr) {s : Infos}
    → ((d : ℤ) → polled d a.fds ≤ 1)
    → Reach (spawned n a) s
    → (d : ℤ)
    → (serving d s.workers ≤ 1)
      × (polled d s.poll_arr.fds + serving d s.workers ≤ 1 + handed d s.handing)
Reach-serving n a {s} apart r d =
    let v = Reach-IsExclusive r (record {
      bounded = λ e. omega (arith, apart e, serving_idle e n);
      present = λ e. omega arith;
    }) in
    (omega (arith, v.bounded d, v.present d), v.bounded d)
