-- ===== src/Reactor/Inv/Detach.antt =====
-- `detach_fd` and `unpark` keep the books.
use cfiber.Common.{
  ℕ, ◌<◌, ◌≡◌, ◌≢◌, ◌∙◌, sym, refl, ap, arith, true, false, Option, none, some, ltb, ◌==◌,
  if◌then◌else◌, Bool-cases, inl, inr,
}
use cfiber.Reactor.Timers.{write, timer_remove}
use cfiber.Reactor.Timers.Heap.{armed}
use cfiber.Reactor.Timers.Remove.{Removed, timer_remove-Removed}
use cfiber.Reactor.State.{
  FiberState, fb_free, fb_ready, fb_running, fb_parked, fb_zombie, is_parked, Status, Os, Reactor,
  enqueue, resume, resume_as,
}
use cfiber.Reactor.Owner.{fd_owner_get, is_this, detach_from, detach_fd, unpark}
use cfiber.Reactor.Census.{is_used}
use cfiber.Reactor.Inv.{Timed, Owned, Inv}
use cfiber.Reactor.Inv.Move.{resume-Counted}
use cfiber.Reactor.Inv.Same.{
  SameBooks, SameFields, SameBooks-refl, SameBooks-Counted, SameBooks-Timed,
}

some_inj : (k m : ℕ) → some k ≡ some m → k ≡ m
some_inj k m e = cc (e)

-- What `detach_fd` leaves alone.
pub record Detached {os : Os} (s : Reactor os) (f : ℕ) (t : Reactor os) : Type 0 where
  pub books : SameBooks s t
  pub same_timers : t.timers ≡ s.timers
  pub owned : Owned t
  pub let_go : t.reg_fd f ≡ none

module _ {os : Os} (s : Reactor os) (o : Owned s) (f : ℕ) where
  nothing_held : s.reg_fd f ≡ none → Detached s f (detach_from s f none)
  unfolding detach_from
  nothing_held e = record { books = SameBooks-refl s; same_timers = refl; owned = o; let_go = e }

  module _ (fd : ℕ) (e : s.reg_fd f ≡ some fd) where
    in_place : s.fd_owner fd ≡ some f
    in_place = o.in_map f fd e

    found : is_this (if ltb fd s.fd_owner_cap then s.fd_owner fd else none) f ≡ true
    found =
        let near : ltb fd s.fd_owner_cap ≡ true = ground (arith, o.in_range fd f in_place) in
        rw (near, in_place) (ground arith)

    new_reg : ℕ → Option ℕ
    new_reg = write s.reg_fd f none

    new_owner : ℕ → Option ℕ
    new_owner = write s.fd_owner fd none

    new_in_map : (g d : ℕ) → new_reg g ≡ some d → new_owner d ≡ some g
    unfolding new_reg new_owner
    new_in_map g d h = elim (Bool-cases (g == f)) [
      | inl same ↦ let bad : none ≡ some d = rw same at h in absurd (cc (bad))
      | inr other ↦
          let old = o.in_map g d (rw other at h) in
          elim (Bool-cases (d == fd)) [
            | inl at_fd ↦
                let q : d ≡ fd = ground arith in
                let holder = some_inj f g (sym in_place ∙ ap s.fd_owner (sym q) ∙ old) in
                absurd (ground (arith, holder, other))
            | inr off ↦ rw off old
          ]
    ]

    new_in_fiber : (d g : ℕ) → new_owner d ≡ some g → new_reg g ≡ some d
    unfolding new_reg new_owner
    new_in_fiber d g h = elim (Bool-cases (d == fd)) [
      | inl same ↦ let bad : none ≡ some g = rw same at h in absurd (cc (bad))
      | inr other ↦
          let old = o.in_fiber d g (rw other at h) in
          elim (Bool-cases (g == f)) [
            | inl at_f ↦
                let q : g ≡ f = ground arith in
                let place = some_inj fd d (sym e ∙ ap s.reg_fd (sym q) ∙ old) in
                absurd (ground (arith, place, other))
            | inr off ↦ rw off old
          ]
    ]

    new_in_range : (d g : ℕ) → new_owner d ≡ some g → d < s.fd_owner_cap
    unfolding new_owner
    new_in_range d g h = elim (Bool-cases (d == fd)) [
      | inl same ↦ let bad : none ≡ some g = rw same at h in absurd (cc (bad))
      | inr other ↦ o.in_range d g (rw other at h)
    ]

    new_by_used : (g d : ℕ) → new_reg g ≡ some d → is_used (s.state g) ≡ true
    unfolding new_reg
    new_by_used g d h = elim (Bool-cases (g == f)) [
      | inl same ↦ let bad : none ≡ some d = rw same at h in absurd (cc (bad))
      | inr other ↦ o.by_used g d (rw other at h)
    ]

    lets_go : new_reg f ≡ none
    unfolding new_reg
    lets_go = ground arith

    something_held : Detached s f (detach_from s f (some fd))
    unfolding detach_from fd_owner_get new_reg new_owner
    something_held = rw found (record {
      books = record {
        same_ready = refl;
        same_live = refl;
        same_blocked = refl;
        same_active = refl;
        same_state = refl;
        same_current = refl;
        same_zombie = refl;
      };
      same_timers = refl;
      owned = record {
        in_map = new_in_map;
        in_fiber = new_in_fiber;
        in_range = new_in_range;
        by_used = new_by_used;
      };
      let_go = lets_go;
    })

  Detached-as : (r : Option ℕ) → s.reg_fd f ≡ r → Detached s f (detach_from s f r)
  Detached-as none e = nothing_held e
  Detached-as (some fd) e = something_held fd e

  -- When the map and the fibers agree, `detach_fd` leaves the fiber with no descriptor, the map and
  -- the fibers agree, and nothing else has changed.
  pub detach_fd-Detached : Detached s f (detach_fd s f)
  unfolding detach_fd
  detach_fd-Detached = Detached-as (s.reg_fd f) refl

-- `detach_fd` has to do with the fiber's own registration only.
pub detach_from_lem :
    {os : Os} (s : Reactor os) (f : ℕ) (r : Option ℕ)
    → SameFields s (detach_from s f r)
      × ((g : ℕ) → g ≢ f → (detach_from s f r).reg_fd g ≡ s.reg_fd g)
unfolding detach_from
detach_from_lem s f none = (
  record {
    same_generation = refl;
    same_park = refl;
    same_permit = refl;
    same_wait_fd = refl;
    same_status = refl;
    same_stack = refl;
  },
  λ g ne. refl,
)
detach_from_lem s f (some fd) = elim (Bool-cases (is_this (fd_owner_get s fd) f)) [
  | inl mine ↦ rw mine (
    record {
      same_generation = refl;
      same_park = refl;
      same_permit = refl;
      same_wait_fd = refl;
      same_status = refl;
      same_stack = refl;
    },
    off,
  )
  | inr other ↦ rw other (
    record {
      same_generation = refl;
      same_park = refl;
      same_permit = refl;
      same_wait_fd = refl;
      same_status = refl;
      same_stack = refl;
    },
    off,
  )
]
  where
    off : (g : ℕ) → g ≢ f → write s.reg_fd f none g ≡ s.reg_fd g
    off g ne = ground (arith, ne)

cap_as :
    {os : Os} (s : Reactor os) (f : ℕ) (r : Option ℕ)
    → (detach_from s f r).fd_owner_cap ≡ s.fd_owner_cap
unfolding detach_from
cap_as s f none = refl
cap_as s f (some fd) = ground arith

pub detach_fd_cap :
    {os : Os} (s : Reactor os) (f : ℕ) → (detach_fd s f).fd_owner_cap ≡ s.fd_owner_cap
unfolding detach_fd
detach_fd_cap s f = cap_as s f (s.reg_fd f)

-- A resume of a fiber with no timer, beside the queue.
resume-Timed :
    {os : Os} (s : Reactor os) (f : ℕ) (status : Status)
    → Timed s
    → armed (s.timers.timer_i f) ≡ false
    → Timed (resume s f status)
unfolding resume resume_as enqueue
resume-Timed s f status d off = go (s.state f)
  where
    waiting :
        (g : ℕ) → armed (s.timers.timer_i g) ≡ true → is_parked (write s.state f fb_ready g) ≡ true
    waiting g h = elim (Bool-cases (g == f)) [
      | inl same ↦
          let e : g ≡ f = ground arith in
          let bad : true ≡ false = sym h ∙ ap (λ (x : ℕ). armed (s.timers.timer_i x)) e ∙ off in
          absurd (cc (bad))
      | inr other ↦ rw other (d.waiting g h)
    ]

    go : (v : FiberState) → Timed (resume_as s f status v)
    go fb_parked = record { heap = d.heap; waiting = waiting }
    go fb_free = d
    go fb_ready = d
    go fb_running = d
    go fb_zombie = d

resume-Owned :
    {os : Os} (s : Reactor os) (f : ℕ) (status : Status) → Owned s → Owned (resume s f status)
unfolding resume resume_as enqueue
resume-Owned s f status o = go (s.state f)
  where
    by_used : (g d : ℕ) → s.reg_fd g ≡ some d → is_used (write s.state f fb_ready g) ≡ true
    by_used g d h = elim (Bool-cases (g == f)) [
      | inl same ↦ rw same refl
      | inr other ↦ rw other (o.by_used g d h)
    ]

    go : (v : FiberState) → Owned (resume_as s f status v)
    go fb_parked = record {
      in_map = o.in_map;
      in_fiber = o.in_fiber;
      in_range = o.in_range;
      by_used = by_used;
    }
    go fb_free = o
    go fb_ready = o
    go fb_running = o
    go fb_zombie = o

-- A resume after the timer is gone.
pub resume-Inv :
    {os : Os} (s : Reactor os) (f : ℕ) (status : Status)
    → Inv s
    → armed (s.timers.timer_i f) ≡ false
    → Inv (resume s f status)
resume-Inv s f status inv off = record {
  counted = resume-Counted s f status inv.counted;
  timed = resume-Timed s f status inv.timed off;
  owned = resume-Owned s f status inv.owned;
}

-- The timer of one fiber is taken out.
pub timer_off-Inv :
    {os : Os} (s : Reactor os) (f : ℕ)
    → Inv s
    → Inv (record s { timers = timer_remove s.timers f })
      × (armed ((timer_remove s.timers f).timer_i f) ≡ false)
timer_off-Inv s f inv = (
  record {
    counted = record {
      queued = inv.counted.queued;
      listed = inv.counted.listed;
      parked = inv.counted.parked;
      running = inv.counted.running;
      is_current = inv.counted.is_current;
      is_dead = inv.counted.is_dead;
    };
    timed = record { heap = gone.heap; waiting = λ g h. inv.timed.waiting g (still g h) };
    owned = record {
      in_map = inv.owned.in_map;
      in_fiber = inv.owned.in_fiber;
      in_range = inv.owned.in_range;
      by_used = inv.owned.by_used;
    };
  },
  off,
)
  where
    gone : Removed s.timers f (timer_remove s.timers f)
    gone = timer_remove-Removed s.timers inv.timed.heap f

    off : armed ((timer_remove s.timers f).timer_i f) ≡ false
    off = ground (arith, gone.timers f)

    still :
        (g : ℕ)
        → armed ((timer_remove s.timers f).timer_i g) ≡ true
        → armed (s.timers.timer_i g) ≡ true
    still g h = ground (arith, gone.timers g, h)

-- `detach_fd` keeps all books.
pub detach_fd-Inv : {os : Os} (s : Reactor os) (f : ℕ) → Inv s → Inv (detach_fd s f)
detach_fd-Inv s f inv =
    let d = detach_fd-Detached s inv.owned f in
    record {
      counted = SameBooks-Counted s (detach_fd s f) d.books inv.counted;
      timed = SameBooks-Timed s (detach_fd s f) d.books d.same_timers inv.timed;
      owned = d.owned;
    }

pub unpark-Inv :
    {os : Os} (s : Reactor os) (f : ℕ) (status : Status) → Inv s → Inv (unpark s f status)
unfolding unpark
unpark-Inv s f status inv =
    let (kept, off) = timer_off-Inv (detach_fd s f) f (detach_fd-Inv s f inv) in
    resume-Inv (record (detach_fd s f) { timers = timer_remove (detach_fd s f).timers f }) f status
      kept off
