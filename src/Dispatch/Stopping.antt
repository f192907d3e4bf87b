-- ===== src/Dispatch/Stopping.antt =====
-- When the dispatcher (src/server.c) takes the server for idle.
use lso_baldini.Common.{
  ℕ, zero, suc, ◌≤◌, ◌<◌, ◌≡◌, ◌≢◌, refl, ap, ◌∙◌, List, [], ◌∷◌, true, none, get_or, set, ℤ,
  length, arith, eq_ℤ_refl, get_or-set_ne,
}
use lso_baldini.Dispatch.{
  Worker, idle, assigned, returned, Infos, give_back, stop_polling, serves, serving, gives, stops,
  Reach, here, next,
}
use lso_baldini.Run.{ret}
use lso_baldini.PollUtils.Laws.{once}
use lso_baldini.PollUtils.{pu_add, pu_remove, pu_isempty, remove_fd, split_last}

served_le : (d : ℤ) (ws : List Worker) (i : ℕ) → serves d (get_or ws i idle) ≤ serving d ws
served_le d [] i = omega arith
served_le d (w ∷ ws) zero = omega arith
served_le d (w ∷ ws) (suc i) = omega (arith, served_le d ws i)

once_self : (c : ℤ) → once c c ≡ 1
once_self c = rw (eq_ℤ_refl c) refl

-- If two workers serve clients and nothing is polled any more, there are steps to a state in which
-- `pu_isempty`, by which the dispatcher stops after SIGHUP, says yes while one of the two is still
-- served.
pub pu_isempty-serving :
    (s : Infos) (i j : ℕ) (a b : ℤ)
    → s.handing ≡ none
    → s.poll_arr.fds ≡ []
    → 0 < s.poll_arr.maxlen
    → j < length s.workers
    → get_or s.workers j idle ≡ assigned a
    → get_or s.workers i idle ≡ assigned b
    → j ≢ i
    → (t : Infos) × Reach s t × (pu_isempty t.poll_arr ≡ true) × (0 < serving b t.workers)
unfolding give_back stop_polling pu_isempty pu_remove remove_fd split_last pu_add
pu_isempty-serving s i j a b alone nothing room inside first second different =
    let ws = set s.workers j (returned a) in
    let still : get_or ws i idle ≡ assigned b =
      get_or-set_ne s.workers j i (returned a) idle different ∙ second in
    let t = give_back s j a in
    let u : Infos = record t { poll_arr = record (t.poll_arr) { fds = [] } } in
    let stopped : stop_polling t a ≡ ret u = ground (arith, nothing, room, eq_ℤ_refl a) in
    (
      u,
      next (next here (gives s j a inside first)) (stops t u a alone stopped),
      refl,
      omega (arith, served_le b ws i, ap (serves b) still, once_self b),
    )
