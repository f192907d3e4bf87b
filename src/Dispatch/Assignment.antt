-- ===== src/Dispatch/Assignment.antt =====
-- `assign_client` (src/server.c): the search for a free worker.
use lso_baldini.Common.{
  ◌≢◌, ◌≤◌, ℕ, zero, suc, ◌+◌, ◌-◌, ◌%◌, ◌<◌, ◌≡◌, refl, ap, ◌∙◌, sym, false, if◌then◌else◌, ℤ, pos,
  minus_one, is_neg, arith, le_or_gt, inl, inr,
}
use lso_baldini.Run.{Run, ret, blocked}
use native.Mathlib.Nat.{mod-lt, mod-eq_of_lt, mod-add-mod, add-mod_right}

-- What a try finds at a worker: its mutex is held, or it has a client, or neither.
pub data Slot : Type 0 where
  held busy free : Slot

-- The loop, with the number of the try and the worker that it looks at; `slots k i` is what the try `k`
-- finds at the worker `i`. The result is the worker that gets the client. The pause after as many held
-- mutexes as there are workers changes nothing here. Without fuel the loop goes on for ever.
unfoldable pub assign_loop : ℕ → (ℕ → ℕ → Slot) → ℕ → ℕ → ℕ → Run ℕ
assign_loop zero slots n k i = blocked
assign_loop (suc fuel) slots n k i =
    let next = assign_loop fuel slots n (k + 1) ((i + 1) % n) in
    elim (slots k i) [ held ↦ next | busy ↦ next | free ↦ ret i ]

-- `last` is the static `i`; the result is the return value and the new `i`.
unfoldable pub assign_client : ℕ → (ℕ → ℕ → Slot) → ℕ → ℕ → ℤ → Run (ℤ × ℕ)
unfolding assign_loop
assign_client fuel slots n last client =
    if is_neg client
    then ret (minus_one, last)
    else elim (assign_loop fuel slots n 0 last) [ ret i ↦ ret (pos 0, i) | _ ↦ blocked ]

Slot-distinct : (held ≢ free) × (busy ≢ free)
Slot-distinct = (λ e. cc, λ e. cc)

-- What the search from the try `k` at the worker `i` on finds: the try `t` is the first one that sees a
-- free worker, and that worker is the result.
record Finds (fuel : ℕ) (slots : ℕ → ℕ → Slot) (n k i w t : ℕ) : Type 0 where
  pub found : assign_loop fuel slots n k i ≡ ret w
  pub place : w ≡ (i + t) % n
  pub was_free : slots (k + t) w ≡ free
  pub first : (m : ℕ) → m < t → slots (k + m) ((i + m) % n) ≢ free

-- A worker that is not free is passed over.
pass :
    (fuel : ℕ) (slots : ℕ → ℕ → Slot) (n k i w t : ℕ)
    → i < n
    → slots k i ≢ free
    → Finds fuel slots n (k + 1) ((i + 1) % n) w t
    → Finds (suc fuel) slots n k i w (suc t)
unfolding assign_loop
pass fuel slots n k i w t inside taken h = record {
  found = go (slots k i) refl;
  place = h.place ∙ shift t;
  was_free = ap (λ m. slots m w) {x = k + suc t} {y = k + 1 + t} (omega arith) ∙ h.was_free;
  first = earlier;
}
  where
    shift : (d : ℕ) → ((i + 1) % n + d) % n ≡ (i + suc d) % n
    shift d =
        mod-add-mod (i + 1) n d ∙ ap (λ m. m % n) {x = i + 1 + d} {y = i + suc d} (omega arith)

    go : (o : Slot) → slots k i ≡ o → assign_loop (suc fuel) slots n k i ≡ ret w
    go held e = ground (arith, e, h.found)
    go busy e = ground (arith, e, h.found)
    go free e = absurd (taken e)

    earlier : (m : ℕ) → m < suc t → slots (k + m) ((i + m) % n) ≢ free
    earlier zero near e = taken (
        ap (slots k) (sym (mod-eq_of_lt inside) ∙ ap (λ m. m % n) {x = i} {y = i + 0} (omega arith))
        ∙ ap (λ m. slots m ((i + 0) % n)) {x = k} {y = k + 0} (omega arith)
        ∙ e)
    earlier (suc m) near e = h.first m (omega (arith, near)) (
        ap (slots (k + 1 + m)) (shift m)
        ∙ ap (λ x. slots x ((i + suc m) % n)) {x = k + 1 + m} {y = k + suc m} (omega arith)
        ∙ e)

-- A free worker ends the search.
stop :
    (fuel : ℕ) (slots : ℕ → ℕ → Slot) (n k i : ℕ)
    → i < n
    → slots k i ≡ free
    → Finds (suc fuel) slots n k i i 0
unfolding assign_loop
stop fuel slots n k i inside e = record {
  found = ground (arith, e);
  place = sym (mod-eq_of_lt inside) ∙ ap (λ m. m % n) {x = i} {y = i + 0} (omega arith);
  was_free = ap (λ m. slots m i) {x = k + 0} {y = k} (omega arith) ∙ e;
  first = λ m h. absurd (omega (arith, h));
}

-- The search ends within `d` more tries if the worker `d` places further is free in every try.
assign_loop_lem :
    (d fuel : ℕ) (slots : ℕ → ℕ → Slot) (n k i j : ℕ)
    → i < n
    → (i + d) % n ≡ j
    → d < fuel
    → ((m : ℕ) → slots m j ≡ free)
    → (w : ℕ) × (t : ℕ) × Finds fuel slots n k i w t × (t ≤ d)
assign_loop_lem d zero slots n k i j inside place enough open_slot = absurd (omega (arith, enough))
assign_loop_lem zero (suc fuel) slots n k i j inside place enough open_slot =
    let same : i ≡ j =
      sym (mod-eq_of_lt inside) ∙ ap (λ m. m % n) {x = i} {y = i + 0} (omega arith) ∙ place in
    (i, 0, stop fuel slots n k i inside (ap (slots k) same ∙ open_slot k), omega arith)
assign_loop_lem (suc d) (suc fuel) slots n k i j inside place enough open_slot =
    let there : ((i + 1) % n + d) % n ≡ j =
      mod-add-mod (i + 1) n d
      ∙ ap (λ m. m % n) {x = i + 1 + d} {y = i + suc d} (omega arith)
      ∙ place in
    let (w, t, finds, near) =
      assign_loop_lem d fuel slots n (k + 1) ((i + 1) % n) j
        (mod-lt (i + 1) (omega (arith, inside))) there (omega (arith, enough)) open_slot in
    let onward : slots k i ≢ free
        → (w : ℕ) × (t : ℕ) × Finds (suc fuel) slots n k i w t × (t ≤ suc d) =
      λ taken. (w, suc t, pass fuel slots n k i w t inside taken finds, omega (arith, near)) in
    go (slots k i) refl onward
  where
    go :
        (o : Slot)
        → slots k i ≡ o
        → (slots k i ≢ free → (w : ℕ) × (t : ℕ) × Finds (suc fuel) slots n k i w t × (t ≤ suc d))
        → (w : ℕ) × (t : ℕ) × Finds (suc fuel) slots n k i w t × (t ≤ suc d)
    go held e next = next (λ f. Slot-distinct.0 (sym e ∙ f))
    go busy e next = next (λ f. Slot-distinct.1 (sym e ∙ f))
    go free e next = (i, 0, stop fuel slots n k i inside e, omega arith)

-- How far the worker `j` is from the worker `i`.
distance : (i j n : ℕ) → i < n → j < n → (d : ℕ) × (d < n) × ((i + d) % n ≡ j)
distance i j n hi hj = elim (le_or_gt i j) [
  | inl before ↦ (
    j - i,
    omega (arith, hj),
    ap (λ m. m % n) {x = i + (j - i)} {y = j} (omega (arith, before)) ∙ mod-eq_of_lt hj,
  )
  | inr behind ↦ (
    j + n - i,
    omega (arith, hi, behind),
    ap (λ m. m % n) {x = i + (j + n - i)} {y = j + n} (omega (arith, hi))
        ∙ add-mod_right j n
        ∙ mod-eq_of_lt hj,
  )
]

-- If some worker stays free, `assign_client` assigns a client whose descriptor is not negative, within as
-- many tries as there are workers. The try `t` looks at the worker `t` places behind the last one that
-- got a client, around the end of the array; the client goes to the worker of the first try that sees a
-- free one.
pub assign_client_free :
    (slots : ℕ → ℕ → Slot) (n last j : ℕ) (client : ℤ)
    → is_neg client ≡ false
    → last < n
    → j < n
    → ((k : ℕ) → slots k j ≡ free)
    → (w : ℕ) × (t : ℕ) × (assign_client n slots n last client ≡ ret (pos 0, w))
      × (w ≡ (last + t) % n)
      × (slots t w ≡ free)
      × ((m : ℕ) → m < t → slots m ((last + m) % n) ≢ free)
      × (t < n)
unfolding assign_client
assign_client_free slots n last j client valid inside target open_slot =
    let (d, near, place) = distance last j n inside target in
    let (w, t, finds, soon) = assign_loop_lem d n slots n 0 last j inside place near open_slot in
    let found = finds.found in
    (
      w,
      t,
      ground (arith, valid, found),
      finds.place,
      ap (λ m. slots m w) {x = t} {y = 0 + t} (omega arith) ∙ finds.was_free,
      λ m h e.
          finds.first m h
            (ap (λ x. slots x ((last + m) % n)) {x = 0 + m} {y = m} (omega arith) ∙ e),
      omega (arith, soon, near),
    )
