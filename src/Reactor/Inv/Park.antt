-- ===== src/Reactor/Inv/Park.antt =====
-- The calls that park keep the books: `cfiber_ev_wait`, `cfiber_ev_sleep`, `cfiber_ev_wait_async`.
use cfiber.Common.{
  ℕ, ◌+◌, ◌^◌, ◌<◌, ◌≡◌, ◌∙◌, sym, refl, ap, arith, Bool, true, false, Option, none, some, ◌==◌,
  Bool-cases, inl, inr,
}
use cfiber.Reactor.Timers.{Timers, write, timer_add}
use cfiber.Reactor.Timers.Heap.{armed}
use cfiber.Reactor.Timers.Outcome.{IsHeap, AddResult, was_set, was_refused, timer_add-AddResult}
use cfiber.Reactor.Time.{deadline_after}
use cfiber.Reactor.State.{fb_parked, is_parked, ParkKind, Os, Reactor, park_current}
use cfiber.Reactor.Wait.{deadline_from, set_timer, set_timeout}
use cfiber.Reactor.Census.{is_used}
use cfiber.Reactor.Inv.{Counted, Owned, Inv}
use cfiber.Reactor.Inv.Same.{SameBooks, SameBooks-refl, Inv-kernel}
use cfiber.Reactor.Inv.Move.{park_current-Counted, current-fb_running}

-- The timers are in order but for the one that the running fiber has just set.
pub record Setting {os : Os} (s : Reactor os) (f : ℕ) : Type 0 where
  pub counted : Counted s
  pub owned : Owned s
  pub heap : IsHeap s.timers
  pub waiting :
      (g : ℕ) → armed (s.timers.timer_i g) ≡ true → (g == f) ≡ false → is_parked (s.state g) ≡ true
  pub runs : s.current ≡ some f

pub Inv-Setting : {os : Os} (s : Reactor os) (f : ℕ) → Inv s → s.current ≡ some f → Setting s f
Inv-Setting s f inv e = record {
  counted = inv.counted;
  owned = inv.owned;
  heap = inv.timed.heap;
  waiting = λ g on ne. inv.timed.waiting g on;
  runs = e;
}

-- Such a fiber can park.
pub park_current-Inv :
    {os : Os} (s : Reactor os) (f : ℕ) (kind : ParkKind) → Setting s f → Inv (park_current s f kind)
unfolding park_current
park_current-Inv s f kind k = record {
  counted = park_current-Counted s k.counted f k.runs kind;
  timed = record { heap = k.heap; waiting = waiting };
  owned = record {
    in_map = k.owned.in_map;
    in_fiber = k.owned.in_fiber;
    in_range = k.owned.in_range;
    by_used = by_used;
  };
}
  where
    waiting :
        (g : ℕ) → armed (s.timers.timer_i g) ≡ true → is_parked (write s.state f fb_parked g) ≡ true
    waiting g on = elim (Bool-cases (g == f)) [
      | inl same ↦ rw same refl
      | inr other ↦ rw other (k.waiting g on other)
    ]

    by_used : (g d : ℕ) → s.reg_fd g ≡ some d → is_used (write s.state f fb_parked g) ≡ true
    by_used g d h = elim (Bool-cases (g == f)) [
      | inl same ↦ rw same refl
      | inr other ↦ rw other (k.owned.by_used g d h)
    ]

pub not_armed : (place : Option ℕ) → (armed place ≡ true → false ≡ true) → place ≡ none
not_armed none h = refl
not_armed (some i) h = let bad : false ≡ true = h refl in absurd (cc (bad))

-- The running fiber has no timer.
pub running_off :
    {os : Os} (s : Reactor os) (f : ℕ) → Inv s → s.current ≡ some f → s.timers.timer_i f ≡ none
running_off s f inv e =
    let state = current-fb_running s inv.counted f e in
    not_armed (s.timers.timer_i f) (λ on. ap is_parked (sym state) ∙ inv.timed.waiting f on)

-- The timer that a fiber has after a call at time `now`: none without a timeout, and else one with
-- the deadline that the timeout gives.
abbrev pub Due : ℕ → Option ℕ → Timers → ℕ → Type 0
Due now none timers f = armed (timers.timer_i f) ≡ false
Due now (some ns) timers f =
    (armed (timers.timer_i f) ≡ true) × (timers.deadline_ns f ≡ deadline_after now ns)

-- The deadlines of the other fibers, and whether they have a timer.
abbrev pub OthersDue : ℕ → Timers → Timers → Type 0
OthersDue f before timers =
    (g : ℕ)
    → (g == f) ≡ false
    → (timers.deadline_ns g ≡ before.deadline_ns g)
      × (armed (timers.timer_i g) ≡ armed (before.timer_i g))

-- What an attempt to set the running fiber's timer leaves.
pub data TimerSet {os : Os} (s : Reactor os) (f now : ℕ) (timeout : Option ℕ)
    : Bool × Reactor os → Type 0 where
  has_timer :
      (t : Reactor os)
      → Setting t f
      → SameBooks s t
      → t.reg_fd ≡ s.reg_fd
      → Due now timeout t.timers f
      → OthersDue f s.timers t.timers
      → TimerSet s f now timeout (true, t)
  no_memory :
      (t : Reactor os)
      → Inv t
      → SameBooks s t
      → t.timers ≡ s.timers
      → TimerSet s f now timeout (false, t)

add-TimerSet :
    {os : Os} (s : Reactor os) (k : os.Kernel) (f now ns : ℕ) (r : Bool × Timers)
    → Inv s
    → s.current ≡ some f
    → AddResult s.timers f (deadline_after now ns) (os.realloc k) r
    → TimerSet s f now (some ns) (r.0, record s { kernel = k; timers = r.1 })
add-TimerSet s k f now ns _ inv e (was_set timers cap fits granted added) =
    has_timer (record s { kernel = k; timers = timers })
      (record {
        counted = record {
          queued = inv.counted.queued;
          listed = inv.counted.listed;
          parked = inv.counted.parked;
          running = inv.counted.running;
          is_current = inv.counted.is_current;
          is_dead = inv.counted.is_dead;
        };
        owned = record {
          in_map = inv.owned.in_map;
          in_fiber = inv.owned.in_fiber;
          in_range = inv.owned.in_range;
          by_used = inv.owned.by_used;
        };
        heap = added.heap;
        waiting = λ g on ne. inv.timed.waiting g (ground (arith, added.timers g, on, ne));
        runs = e;
      })
      (record {
        same_ready = refl;
        same_live = refl;
        same_blocked = refl;
        same_active = refl;
        same_state = refl;
        same_current = refl;
        same_zombie = refl;
      })
      refl (ground (arith, added.timers f), ground (arith, added.deadlines f))
      (λ g off. (ground (arith, added.deadlines g, off), ground (arith, added.timers g, off)))
add-TimerSet s k f now ns _ inv e (was_refused cap short fits refused) =
    no_memory (record s { kernel = k }) (Inv-kernel s k inv)
      (record {
        same_ready = refl;
        same_live = refl;
        same_blocked = refl;
        same_active = refl;
        same_state = refl;
        same_current = refl;
        same_zombie = refl;
      })
      refl

-- Room for one more timer.
abbrev pub HasTimerRoom : {os : Os} → Reactor os → Type 0
HasTimerRoom s = s.timers.heap_len + 1 < 2 ^ 60

pub set_timer-TimerSet :
    {os : Os} (s : Reactor os) (f ns : ℕ)
    → Inv s
    → s.current ≡ some f
    → HasTimerRoom s
    → TimerSet s f (os.now_ns s.kernel).0 (some ns) (set_timer s f ns)
unfolding set_timer deadline_from
set_timer-TimerSet {os} s f ns inv e room =
    let k = (os.now_ns s.kernel).1 in
    let deadline = deadline_after (os.now_ns s.kernel).0 ns in
    add-TimerSet s k f (os.now_ns s.kernel).0 ns (timer_add (os.realloc k) s.timers f deadline) inv
      e
      (timer_add-AddResult (os.realloc k) s.timers f deadline inv.timed.heap (running_off s f inv e)
        room)

pub set_timeout-TimerSet :
    {os : Os} (s : Reactor os) (f : ℕ) (timeout : Option ℕ)
    → Inv s
    → s.current ≡ some f
    → HasTimerRoom s
    → TimerSet s f (os.now_ns s.kernel).0 timeout (set_timeout s f timeout)
unfolding set_timeout
set_timeout-TimerSet s f none inv e room =
    has_timer s (Inv-Setting s f inv e) (SameBooks-refl s) refl (ap armed (running_off s f inv e))
      (λ g off. (refl, refl))
set_timeout-TimerSet s f (some ns) inv e room = set_timer-TimerSet s f ns inv e room
