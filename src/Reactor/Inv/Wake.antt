-- ===== src/Reactor/Inv/Wake.antt =====
-- What waking a parked fiber does, and what a command does.
use cfiber.Common.{
  ℕ, ◌≡◌, ◌≢◌, ◌⊎◌, ◌∙◌, refl, ap, arith, true, false, ◌&&◌, List, [], ◌∷◌, ◌++◌, Option, none,
  some, ◌==◌, if◌then◌else◌,
}
use cfiber.Reactor.Timers.{Timers, write, timer_remove}
use cfiber.Reactor.Timers.Heap.{armed}
use cfiber.Reactor.Timers.Remove.{timer_remove-Removed}
use cfiber.Reactor.State.{
  FiberState, fb_free, fb_ready, fb_running, fb_parked, fb_zombie, is_parked, is_async, Status,
  ev_ready, ev_cancelled, Os, Reactor, enqueue, resume, resume_as,
}
use cfiber.Reactor.Owner.{detach_fd, detach_from, unpark}
use cfiber.Reactor.Command.{cmd_wake, cmd_cancel, Cmd, is_gone}
use cfiber.Reactor.Inv.{Inv}
use cfiber.Reactor.Inv.Same.{SameBooks}
use cfiber.Reactor.Inv.Detach.{detach_fd-Detached}

-- Fiber `f` is put behind the ready queue with a status and without a timer, and for every other
-- fiber nothing is new.
pub record Woken {os : Os} (s : Reactor os) (f : ℕ) (status : Status) (t : Reactor os)
    : Type 0 where
  pub queue : t.ready ≡ s.ready ++ (f ∷ [])
  pub states : (g : ℕ) → t.state g ≡ (if g == f then fb_ready else s.state g)
  pub statuses : (g : ℕ) → t.wait_status g ≡ (if g == f then status else s.wait_status g)
  pub timers :
      (g : ℕ) → armed (t.timers.timer_i g) ≡ (if g == f then false else armed (s.timers.timer_i g))
  pub deadlines : (g : ℕ) → t.timers.deadline_ns g ≡ s.timers.deadline_ns g

-- `resume` on a parked fiber.
pub resume_parked :
    {os : Os} (s : Reactor os) (f : ℕ) (status : Status)
    → s.state f ≡ fb_parked
    → resume s f status ≡ resume_as s f status fb_parked
unfolding resume
resume_parked s f status e = ap (resume_as s f status) e

timers_as :
    {os : Os} (s : Reactor os) (f : ℕ) (status : Status) (v : FiberState)
    → (resume_as s f status v).timers ≡ s.timers
unfolding resume_as enqueue
timers_as s f status fb_parked = refl
timers_as s f status fb_free = refl
timers_as s f status fb_ready = refl
timers_as s f status fb_running = refl
timers_as s f status fb_zombie = refl

pub resume_timers :
    {os : Os} (s : Reactor os) (f : ℕ) (status : Status) → (resume s f status).timers ≡ s.timers
unfolding resume
resume_timers s f status = timers_as s f status (s.state f)

-- The parked fiber's timer is taken out, and it is resumed, whatever is done to its descriptor
-- between.
pub wake-Woken :
    {os : Os} (s t : Reactor os) (f : ℕ) (status : Status)
    → Inv s
    → s.state f ≡ fb_parked
    → SameBooks s t
    → t.wait_status ≡ s.wait_status
    → t.timers ≡ timer_remove s.timers f
    → Woken s f status (resume t f status)
unfolding resume_as enqueue
wake-Woken s t f status inv parked same statuses e =
    let at_f = ap (λ (st : ℕ → FiberState). st f) same.same_state ∙ parked in
    let gone = timer_remove-Removed s.timers inv.timed.heap f in
    rw (resume_parked t f status at_f) (record {
      queue = ap (λ (l : List ℕ). l ++ (f ∷ [])) same.same_ready;
      states = λ g. ap (λ (st : ℕ → FiberState). write st f fb_ready g) same.same_state;
      statuses = λ g. ap (λ (st : ℕ → Status). write st f status g) statuses;
      timers = λ g. ap (λ (h : Timers). armed (h.timer_i g)) e ∙ gone.timers g;
      deadlines = λ g. ap (λ (h : Timers). h.deadline_ns g) e ∙ gone.deadlines g;
    })

detached_status :
    {os : Os} (s : Reactor os) (f : ℕ) (r : Option ℕ)
    → (detach_from s f r).wait_status ≡ s.wait_status
unfolding detach_from
detached_status s f none = refl
detached_status s f (some fd) = ground arith

pub detach_fd_status :
    {os : Os} (s : Reactor os) (f : ℕ) → (detach_fd s f).wait_status ≡ s.wait_status
unfolding detach_fd
detach_fd_status s f = detached_status s f (s.reg_fd f)

-- With the books in order, `unpark` wakes a parked fiber.
pub unpark-Woken :
    {os : Os} (s : Reactor os) (f : ℕ) (status : Status)
    → Inv s
    → s.state f ≡ fb_parked
    → Woken s f status (unpark s f status)
unfolding unpark
unpark-Woken s f status inv parked =
    let d = detach_fd-Detached s inv.owned f in
    let t = record (detach_fd s f) { timers = timer_remove (detach_fd s f).timers f } in
    wake-Woken s t f status inv parked
      (record {
        same_ready = d.books.same_ready;
        same_live = d.books.same_live;
        same_blocked = d.books.same_blocked;
        same_active = d.books.same_active;
        same_state = d.books.same_state;
        same_current = d.books.same_current;
        same_zombie = d.books.same_zombie;
      })
      (detach_fd_status s f) (ap (λ (h : Timers). timer_remove h f) d.same_timers)

-- What a command comes to.
pub data Applied {os : Os} (s : Reactor os) (c : Cmd) : Reactor os → Type 0 where
  -- the handle is of no fiber, of an earlier one in the same struct, or of one that has returned
  stale :
      (c.target ≡ none)
        ⊎ ((f : ℕ) × (c.target ≡ some f)
            × ((c.gen ≢ s.generation f) ⊎ (is_gone (s.state f) ≡ true)))
      → Applied s c s
  cancelled :
      (f : ℕ) {t : Reactor os}
      → c.kind ≡ cmd_cancel
      → c.target ≡ some f
      → s.generation f ≡ c.gen
      → s.state f ≡ fb_parked
      → Woken s f ev_cancelled t
      → Applied s c t
  not_parked :
      (f : ℕ)
      → c.kind ≡ cmd_cancel
      → c.target ≡ some f
      → is_parked (s.state f) ≡ false
      → Applied s c s
  woken :
      (f : ℕ) {t : Reactor os}
      → c.kind ≡ cmd_wake
      → c.target ≡ some f
      → s.generation f ≡ c.gen
      → s.state f ≡ fb_parked
      → is_async (s.park f) ≡ true
      → Woken s f ev_ready t
      → Applied s c t
  -- a permit for the fiber's next `cfiber_ev_wait_async`
  permitted :
      (f : ℕ)
      → c.kind ≡ cmd_wake
      → c.target ≡ some f
      → s.generation f ≡ c.gen
      → (is_parked (s.state f) && is_async (s.park f)) ≡ false
      → Applied s c (record s { wake_pending = write s.wake_pending f true })

pub parked_state : (v : FiberState) → is_parked v ≡ true → v ≡ fb_parked
parked_state fb_parked e = refl
parked_state fb_free e = absurd (cc (e))
parked_state fb_ready e = absurd (cc (e))
parked_state fb_running e = absurd (cc (e))
parked_state fb_zombie e = absurd (cc (e))
