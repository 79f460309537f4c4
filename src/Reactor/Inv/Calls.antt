-- ===== src/Reactor/Inv/Calls.antt =====
-- What the calls that park come to: `cfiber_ev_wait`, `cfiber_ev_sleep`, `cfiber_ev_wait_async`.
use cfiber.Common.{ℕ, ◌≡◌, refl, arith, Bool, true, false, Option, none, some}
use cfiber.Reactor.Timers.{write}
use cfiber.Reactor.State.{
  fb_parked, ParkKind, park_timer, park_async, ev_ready, ev_error, Errno, enomem, Os, Reactor,
  park_current,
}
use cfiber.Reactor.Wait.{
  Call, answers, parks, set_timer, set_timeout, park_timed, ev_sleep, ev_wait_async,
}
use cfiber.Reactor.Inv.{Inv}
use cfiber.Reactor.Inv.Same.{SameBooks, Inv-same}
use cfiber.Reactor.Inv.Grants.{is_parking, Grants, ev_sleep_granted, ev_wait_async_granted}
use cfiber.Reactor.Inv.Park.{
  Setting, park_current-Inv, TimerSet, has_timer, no_memory, HasTimerRoom, Due, OthersDue,
  set_timer-TimerSet, set_timeout-TimerSet,
}

-- Fiber `f` has parked at time `now`: the loop goes on, and can wake it.
pub record Parked {os : Os} (s : Reactor os) (f : ℕ) (kind : ParkKind) (now : ℕ)
    (timeout : Option ℕ) (t : Reactor os) : Type 0 where
  pub inv : Inv t
  pub nobody : t.current ≡ none
  pub state : t.state f ≡ fb_parked
  pub waits_for : t.park f ≡ kind
  pub queue : t.ready ≡ s.ready
  pub timer : Due now timeout t.timers f
  pub others : OthersDue f s.timers t.timers

-- What a call comes to; `P` is what else holds when the fiber parks.
pub data CallResult {os : Os} (s : Reactor os) (f : ℕ) (kind : ParkKind) (now : ℕ)
    (timeout : Option ℕ) (P : Reactor os → Type 0) : Call os → Type 0 where
  fails :
      (e : Errno) (t : Reactor os)
      → Inv t
      → SameBooks s t
      → t.timers ≡ s.timers
      → CallResult s f kind now timeout P (answers ev_error (some e) t)
  has_parked :
      (t : Reactor os)
      → Parked s f kind now timeout t
      → P t
      → CallResult s f kind now timeout P (parks t)

abbrev pub Anything : {os : Os} → Reactor os → Type 0
Anything t = Unit

Parked-now :
    {os : Os} (s t : Reactor os) (f : ℕ) (kind : ParkKind) (now : ℕ) (timeout : Option ℕ)
    → Setting t f
    → SameBooks s t
    → Due now timeout t.timers f
    → OthersDue f s.timers t.timers
    → Parked s f kind now timeout (park_current t f kind)
unfolding park_current
Parked-now s t f kind now timeout k same on others = record {
  inv = park_current-Inv t f kind k;
  nobody = refl;
  state = ground arith;
  waits_for = ground arith;
  queue = same.same_ready;
  timer = on;
  others = others;
}

timed-CallResult :
    {os : Os} (s : Reactor os) (f : ℕ) (kind : ParkKind) (now : ℕ) (timeout : Option ℕ)
    (r : Bool × Reactor os)
    → TimerSet s f now timeout r
    → CallResult s f kind now timeout Anything (park_timed f kind r)
unfolding park_timed
timed-CallResult s f kind now timeout _ (has_timer t k same reg on others) =
    has_parked (park_current t f kind) (Parked-now s t f kind now timeout k same on others) tt
timed-CallResult s f kind now timeout _ (no_memory t inv same timers) =
    fails enomem t inv same timers

-- `cfiber_ev_sleep`, with room for one more timer, parks the running fiber with a timer whose deadline
-- is the time that it reads and the duration, saturated, or answers an error at once with no timer
-- changed, which it does not do if the system grants what it is asked for. The other fibers' timers
-- are as they were, and the books are in order.
pub ev_sleep-CallResult :
    {os : Os} (s : Reactor os) (f ns : ℕ)
    → Inv s
    → s.current ≡ some f
    → HasTimerRoom s
    → CallResult s f park_timer (os.now_ns s.kernel).0 (some ns) Anything (ev_sleep s f ns)
      × (Grants os → is_parking (ev_sleep s f ns) ≡ true)
unfolding ev_sleep
ev_sleep-CallResult {os} s f ns inv e room = (result, λ grants. ev_sleep_granted grants s f ns)
  where
    result : CallResult s f park_timer (os.now_ns s.kernel).0 (some ns) Anything (ev_sleep s f ns)
    result =
        timed-CallResult s f park_timer (os.now_ns s.kernel).0 (some ns) (set_timer s f ns)
          (set_timer-TimerSet s f ns inv e room)

-- With a permit `cfiber_ev_wait_async` uses it up and answers READY at once. Without one, and with
-- room for one more timer, it parks the running fiber for a wake, with a timer exactly if the timeout
-- is not negative, whose deadline is the time that it reads and the timeout, saturated; or it answers
-- an error at once with no timer changed, which it does not do if the system grants what it is asked
-- for. The other fibers' timers are as they were, and the books are in order.
pub ev_wait_async-CallResult :
    {os : Os} (s : Reactor os) (f : ℕ) (timeout : Option ℕ)
    → Inv s
    → s.current ≡ some f
    → HasTimerRoom s
    → ((s.wake_pending f ≡ true)
        → ev_wait_async s f timeout
          ≡ answers ev_ready none (record s { wake_pending = write s.wake_pending f false }))
      × Inv (record s { wake_pending = write s.wake_pending f false })
      × ((s.wake_pending f ≡ false)
          → CallResult s f park_async
              (os.now_ns s.kernel).0
              timeout
              Anything
              (ev_wait_async s f timeout))
      × (Grants os → (s.wake_pending f ≡ false) → is_parking (ev_wait_async s f timeout) ≡ true)
unfolding ev_wait_async
ev_wait_async-CallResult {os} s f timeout inv e room = (
  λ permit. rw permit refl,
  Inv-same s (record s { wake_pending = write s.wake_pending f false }) books refl refl refl refl
      inv,
  λ no_permit. rw no_permit (
      timed-CallResult s f park_async (os.now_ns s.kernel).0 timeout (set_timeout s f timeout)
        (set_timeout-TimerSet s f timeout inv e room)),
  λ grants no_permit. ev_wait_async_granted grants s f timeout no_permit,
)
  where
    books : SameBooks s (record s { wake_pending = write s.wake_pending f false })
    books = record {
      same_ready = refl;
      same_live = refl;
      same_blocked = refl;
      same_active = refl;
      same_state = refl;
      same_current = refl;
      same_zombie = refl;
    }

-- What a fiber that waits for a descriptor has: its registration.
abbrev pub WaitsOn : ℕ → ℕ → {os : Os} → Reactor os → Type 0
WaitsOn f fd t = (t.reg_fd f ≡ some fd) × (t.wait_fd f ≡ some fd)
