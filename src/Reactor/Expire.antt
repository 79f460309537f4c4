-- ===== src/Reactor/Expire.antt =====
-- `fire_expired_timers` of src/cfiber/reactor/reactor.c.
use cfiber.Common.{
  ℕ, zero, suc, ◌+◌, ◌≤◌, ◌<◌, ◌≡◌, ◌∙◌, refl, ap, arith, Bool, true, false, ◌&&◌, Option, none,
  some, ltb, leb, ◌==◌, if◌then◌else◌, Bool-cases, inl, inr,
}
use cfiber.Reactor.Timers.{Timers, key, timer_remove}
use cfiber.Reactor.Timers.Heap.{armed}
use cfiber.Reactor.Timers.Outcome.{IsHeap-root}
use cfiber.Reactor.Timers.Remove.{timer_remove-Removed}
use cfiber.Reactor.State.{fb_ready, fb_parked, ev_timeout, Os, Reactor, resume}
use cfiber.Reactor.Owner.{detach_fd}
use cfiber.Reactor.Inv.{Inv}
use cfiber.Reactor.Inv.Same.{Inv-kernel}
use cfiber.Reactor.Inv.Detach.{detach_fd-Detached, detach_fd-Inv, timer_off-Inv, resume-Inv}
use cfiber.Reactor.Inv.Wake.{Woken, wake-Woken, detach_fd_status, parked_state, resume_timers}

-- The body of the loop, for the fiber at the root.
unfoldable pub fire_timer : {os : Os} → Reactor os → ℕ → Reactor os
fire_timer s f = resume (detach_fd (record s { timers = timer_remove s.timers f }) f) f ev_timeout

-- The loop, with fuel.
unfoldable pub fire_from : {os : Os} → ℕ → ℕ → Reactor os → Reactor os
unfolding fire_timer
fire_from zero now s = s
fire_from (suc fuel) now s = elim (ltb 0 s.timers.heap_len && leb (key s.timers 0) now) [
  | true ↦ fire_from fuel now (fire_timer s (s.timers.heap 0))
  | false ↦ s
]

unfoldable pub fire_expired_timers : {os : Os} → Reactor os → Reactor os
unfolding fire_from
fire_expired_timers {os} s =
    let (now, k) = os.now_ns s.kernel in fire_from s.timers.heap_len now (record s { kernel = k })

-- Whether a fiber's timer has run out.
abbrev pub is_due : Timers → ℕ → ℕ → Bool
is_due t now g = armed (t.timer_i g) && leb (t.deadline_ns g) now

-- Exactly the fibers whose timers have run out are ready, with `CFIBER_EV_TIMEOUT` and without a
-- timer; for the others nothing is new.
pub record Expired {os : Os} (now : ℕ) (s t : Reactor os) : Type 0 where
  pub inv : Inv t
  pub states : (g : ℕ) → t.state g ≡ (if is_due s.timers now g then fb_ready else s.state g)
  pub statuses :
      (g : ℕ) → t.wait_status g ≡ (if is_due s.timers now g then ev_timeout else s.wait_status g)
  pub timers :
      (g : ℕ)
      → armed (t.timers.timer_i g)
        ≡ (if is_due s.timers now g then false else armed (s.timers.timer_i g))
  pub deadlines : (g : ℕ) → t.timers.deadline_ns g ≡ s.timers.deadline_ns g

module _ {os : Os} (s : Reactor os) (inv : Inv s) (f : ℕ)
    (on : armed (s.timers.timer_i f) ≡ true) where
  parked : s.state f ≡ fb_parked
  parked = parked_state (s.state f) (inv.timed.waiting f on)

  off : Reactor os
  off = record s { timers = timer_remove s.timers f }

  off-Inv : Inv off
  unfolding off
  off-Inv = (timer_off-Inv s f inv).0

  fire_timer-Woken : Woken s f ev_timeout (fire_timer s f)
  unfolding fire_timer off
  fire_timer-Woken =
      let d = detach_fd-Detached off off-Inv.owned f in
      wake-Woken s (detach_fd off f) f ev_timeout inv parked
        (record {
          same_ready = d.books.same_ready;
          same_live = d.books.same_live;
          same_blocked = d.books.same_blocked;
          same_active = d.books.same_active;
          same_state = d.books.same_state;
          same_current = d.books.same_current;
          same_zombie = d.books.same_zombie;
        })
        (detach_fd_status off f) d.same_timers

  fire_timer-Inv : Inv (fire_timer s f)
  unfolding fire_timer off
  fire_timer-Inv =
      let d = detach_fd-Detached off off-Inv.owned f in
      let gone = (timer_off-Inv s f inv).1 in
      resume-Inv (detach_fd off f) f ev_timeout (detach_fd-Inv off f off-Inv)
        (ap (λ (h : Timers). armed (h.timer_i f)) d.same_timers ∙ gone)

  fire_timer_len : (fire_timer s f).timers.heap_len + 1 ≡ s.timers.heap_len
  unfolding fire_timer off
  fire_timer_len =
      let d = detach_fd-Detached off off-Inv.owned f in
      let gone = timer_remove-Removed s.timers inv.timed.heap f in
      let kept = resume_timers (detach_fd off f) f ev_timeout ∙ d.same_timers in
      omega (arith, ap (λ (h : Timers). h.heap_len) kept, gone.shorter on)

-- When the loop stops nobody is due.
nobody_due :
    {os : Os} (now : ℕ) (s : Reactor os)
    → Inv s
    → (ltb 0 s.timers.heap_len && leb (key s.timers 0) now) ≡ false
    → (g : ℕ) → is_due s.timers now g ≡ false
nobody_due now s inv stop g = go (s.timers.timer_i g) refl
  where
    go :
        (place : Option ℕ)
        → s.timers.timer_i g ≡ place
        → (armed place && leb (s.timers.deadline_ns g) now) ≡ false
    go none e = refl
    go (some k) e =
        let (lt, here) = inv.timed.heap.indexed.inside g k e in
        let root = IsHeap-root s.timers inv.timed.heap k lt in
        let at_g = ap s.timers.deadline_ns here in ground (arith, lt, root, at_g, stop)

stopped-Expired :
    {os : Os} (now : ℕ) (s : Reactor os)
    → Inv s
    → (ltb 0 s.timers.heap_len && leb (key s.timers 0) now) ≡ false
    → Expired now s s
stopped-Expired now s inv stop = record {
  inv = inv;
  states = λ g. rw (nobody_due now s inv stop g) refl;
  statuses = λ g. rw (nobody_due now s inv stop g) refl;
  timers = λ g. rw (nobody_due now s inv stop g) refl;
  deadlines = λ g. refl;
}

-- One timer that is due is fired, and then the others.
fired-Expired :
    {os : Os} (now : ℕ) (s s1 t : Reactor os) (f : ℕ)
    → is_due s.timers now f ≡ true
    → Woken s f ev_timeout s1
    → Expired now s1 t
    → Expired now s t
fired-Expired now s s1 t f due first rest = record {
  inv = rest.inv;
  states = states;
  statuses = statuses;
  timers = timers;
  deadlines = λ g. rest.deadlines g ∙ first.deadlines g;
}
  where
    at : (g : ℕ) → (g == f) ≡ true → is_due s.timers now g ≡ true
    at g e = let q : g ≡ f = ground (arith, e) in ap (is_due s.timers now) q ∙ due

    due_now : (g : ℕ) → is_due s1.timers now g ≡ (if g == f then false else is_due s.timers now g)
    due_now g = elim (Bool-cases (g == f)) [
      | inl same ↦ rw same (ground (arith, first.timers g, same))
      | inr other ↦ rw other (ground (arith, first.timers g, first.deadlines g, other))
    ]

    states : (g : ℕ) → t.state g ≡ (if is_due s.timers now g then fb_ready else s.state g)
    states g = elim (Bool-cases (g == f)) [
      | inl same ↦ rw (at g same) (ground (arith, rest.states g, due_now g, first.states g, same))
      | inr other ↦ ground (arith, rest.states g, due_now g, first.states g, other)
    ]

    statuses :
        (g : ℕ) → t.wait_status g ≡ (if is_due s.timers now g then ev_timeout else s.wait_status g)
    statuses g = elim (Bool-cases (g == f)) [
      | inl same ↦
          rw (at g same) (ground (arith, rest.statuses g, due_now g, first.statuses g, same))
      | inr other ↦ ground (arith, rest.statuses g, due_now g, first.statuses g, other)
    ]

    timers :
        (g : ℕ)
        → armed (t.timers.timer_i g)
          ≡ (if is_due s.timers now g then false else armed (s.timers.timer_i g))
    timers g = elim (Bool-cases (g == f)) [
      | inl same ↦ rw (at g same) (ground (arith, rest.timers g, due_now g, first.timers g, same))
      | inr other ↦ ground (arith, rest.timers g, due_now g, first.timers g, other)
    ]

fire_from-Expired :
    {os : Os} (fuel now : ℕ) (s : Reactor os)
    → Inv s
    → s.timers.heap_len ≤ fuel
    → Expired now s (fire_from fuel now s)
unfolding fire_from
fire_from-Expired zero now s inv enough = stopped-Expired now s inv (ground (arith, enough))
fire_from-Expired (suc fuel) now s inv enough =
    elim (Bool-cases (ltb 0 s.timers.heap_len && leb (key s.timers 0) now)) [
      | inr stop ↦ rw (stop, fire_from) (stopped-Expired now s inv stop)
      | inl more ↦
          let f = s.timers.heap 0 in
          let lt : 0 < s.timers.heap_len = ground (arith, more) in
          let place = inv.timed.heap.indexed.places 0 lt in
          let on = ap armed place in
          let due : is_due s.timers now f ≡ true = ground (arith, more, on) in
          rw (more, fire_from)
            (fired-Expired now s (fire_timer s f) (fire_from fuel now (fire_timer s f)) f due
              (fire_timer-Woken s inv f on)
              (fire_from-Expired fuel now (fire_timer s f) (fire_timer-Inv s inv f on)
                (omega (arith, enough, fire_timer_len s inv f on))))
    ]

-- With the books in order, `fire_expired_timers` ends, and resumes exactly the fibers whose deadline
-- is not after the time that it reads, with `CFIBER_EV_TIMEOUT` and without a timer. For the others
-- the state, the status and the timer are as they were, no deadline is changed, and the books are in
-- order again.
pub fire_expired_timers-Expired :
    {os : Os} (s : Reactor os) → Inv s → Expired (os.now_ns s.kernel).0 s (fire_expired_timers s)
unfolding fire_expired_timers
fire_expired_timers-Expired {os} s inv =
    let (now, k) = os.now_ns s.kernel in
    let s1 = record s { kernel = k } in
    let done = fire_from-Expired s.timers.heap_len now s1 (Inv-kernel s k inv) (omega arith) in
    record {
      inv = done.inv;
      states = done.states;
      statuses = done.statuses;
      timers = done.timers;
      deadlines = done.deadlines;
    }
