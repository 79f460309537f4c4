-- ===== src/Reactor/Inv/Recycle.antt =====
-- A fiber that has returned is recycled: `fiber_recycle` in src/cfiber/reactor/reactor.c.
use cfiber.Common.{
  ℕ, ◌+◌, ◌≡◌, ◌≢◌, ◌∙◌, sym, refl, ap, arith, Bool, true, false, Option, none, some, ◌==◌, one_if,
  if◌then◌else◌, Bool-cases, inl, inr,
}
use cfiber.Core.{u64}
use cfiber.Stack.Fixed.{Stack}
use cfiber.Stack.Growable.{no_stack}
use cfiber.Reactor.Timers.{write}
use cfiber.Reactor.Timers.Heap.{armed}
use cfiber.Reactor.State.{
  FiberState, fb_free, fb_ready, fb_running, fb_parked, fb_zombie, is_parked, Os, Reactor,
}
use cfiber.Reactor.Owner.{detach_fd}
use cfiber.Reactor.Pool.{unlinked, live_unlink, release_stack, fiber_repool, fiber_recycle}
use cfiber.Reactor.Census.{
  count, census, is_active, is_used, census_absent, count-unlinked, census-unlinked,
}
use cfiber.Reactor.Inv.{is_running, is_zombie, points_to, Inv}
use cfiber.Reactor.Inv.Same.{SameBooks, SameFields}
use cfiber.Reactor.Inv.Move.{stay_out, same_mark, lose_mark}
use cfiber.Reactor.Inv.Detach.{detach_from_lem, detach_fd-Detached, detach_fd-Inv}

zombie_state : (v : FiberState) → is_zombie v ≡ true → v ≡ fb_zombie
zombie_state fb_zombie e = refl
zombie_state fb_free e = absurd (cc (e))
zombie_state fb_ready e = absurd (cc (e))
zombie_state fb_running e = absurd (cc (e))
zombie_state fb_parked e = absurd (cc (e))

-- The fiber holds no descriptor any more.
module _ {os : Os} (s : Reactor os) (inv : Inv s) (f : ℕ) (dead : s.zombie ≡ some f)
    (let_go : s.reg_fd f ≡ none) where
  marks : (g : ℕ) → is_zombie (s.state g) ≡ points_to (some f) g
  marks g = inv.counted.is_dead g ∙ ap (λ (p : Option ℕ). points_to p g) dead

  pub was : s.state f ≡ fb_zombie
  was = zombie_state (s.state f) (marks f ∙ ground arith)

  once : count f s.live ≡ 1
  once = ground (arith, inv.counted.listed f, ap is_used was)

  gone : count f (unlinked f s.live) ≡ 0
  gone = ground (arith, count-unlinked f f s.live once, once)

  listed : (g : ℕ) → count g (unlinked f s.live) ≡ one_if (is_used (write s.state f fb_free g))
  listed g = elim (Bool-cases (g == f)) [
    | inl same ↦
        let e : g ≡ f = ground (arith, same) in
        rw same (ap (λ (x : ℕ). count x (unlinked f s.live)) e ∙ gone)
    | inr other ↦
        let off : (f == g) ≡ false = ground (arith, other) in
        rw other (ground (arith, count-unlinked f g s.live once, inv.counted.listed g, off))
  ]

  recount :
      (test : FiberState → Bool)
      → test fb_zombie ≡ false
      → census test (write s.state f fb_free) (unlinked f s.live) ≡ census test s.state s.live
  recount test unmarked =
      let after = census_absent test s.state f fb_free (unlinked f s.live) gone in
      let less = census-unlinked test s.state f s.live once in
      let here = ap (λ (x : FiberState). one_if (test x)) was ∙ ap one_if unmarked in
      omega (arith, after, less, here)

  waiting :
      (g : ℕ) → armed (s.timers.timer_i g) ≡ true → is_parked (write s.state f fb_free g) ≡ true
  waiting g on = elim (Bool-cases (g == f)) [
    | inl same ↦
        let e : g ≡ f = ground (arith, same) in
        let bad : false ≡ true = sym (ap is_parked (ap s.state e ∙ was)) ∙ inv.timed.waiting g on in
        absurd (cc (bad))
    | inr other ↦ rw other (inv.timed.waiting g on)
  ]

  by_used : (g d : ℕ) → s.reg_fd g ≡ some d → is_used (write s.state f fb_free g) ≡ true
  by_used g d h = elim (Bool-cases (g == f)) [
    | inl same ↦
        let e : g ≡ f = ground (arith, same) in
        let bad : none ≡ some d = sym let_go ∙ ap s.reg_fd (sym e) ∙ h in absurd (cc (bad))
    | inr other ↦ rw other (inv.owned.by_used g d h)
  ]

  repooled-Inv : Inv (record (fiber_repool (release_stack (live_unlink s f) f) f) { zombie = none })
  unfolding fiber_repool release_stack live_unlink
  repooled-Inv = record {
    counted = record {
      queued = stay_out s inv.counted f fb_zombie was refl fb_free refl refl;
      listed = listed;
      parked = inv.counted.parked ∙ sym (recount is_parked refl);
      running = inv.counted.running ∙ sym (recount is_active refl);
      is_current =
          same_mark s inv.counted f fb_zombie was refl is_running s.current fb_free
            inv.counted.is_current refl refl;
      is_dead = lose_mark s inv.counted f fb_zombie was refl is_zombie fb_free marks refl;
    };
    timed = record { heap = inv.timed.heap; waiting = waiting };
    owned = record {
      in_map = inv.owned.in_map;
      in_fiber = inv.owned.in_fiber;
      in_range = inv.owned.in_range;
      by_used = by_used;
    };
  }

-- What the run loop has after it has recycled the fiber that returned.
pub record Recycled {os : Os} (s : Reactor os) (f : ℕ) (t : Reactor os) : Type 0 where
  pub inv : Inv t
  pub states : (g : ℕ) → t.state g ≡ (if g == f then fb_free else s.state g)
  pub generations :
      (g : ℕ) → t.generation g ≡ (if g == f then u64 (s.generation g + 1) else s.generation g)
  pub queue : t.ready ≡ s.ready
  pub same_current : t.current ≡ s.current
  pub others : (g : ℕ) → g ≢ f → count g t.live ≡ count g s.live
  pub unlisted : count f t.live ≡ 0
  pub let_go : t.reg_fd f ≡ none
  pub same_timers : t.timers ≡ s.timers
  pub same_park : t.park ≡ s.park
  pub same_permit : t.wake_pending ≡ s.wake_pending
  pub same_wait_fd : t.wait_fd ≡ s.wait_fd
  pub same_status : t.wait_status ≡ s.wait_status
  pub stacks : (g : ℕ) → t.stack g ≡ (if g == f then no_stack else s.stack g)
  pub others_reg : (g : ℕ) → g ≢ f → t.reg_fd g ≡ s.reg_fd g

repooled-Recycled :
    {os : Os} (s t : Reactor os) (f : ℕ)
    → Inv t
    → t.zombie ≡ some f
    → t.reg_fd f ≡ none
    → SameBooks s t
    → t.timers ≡ s.timers
    → SameFields s t
    → ((g : ℕ) → g ≢ f → t.reg_fd g ≡ s.reg_fd g)
    → Recycled s f (record (fiber_repool (release_stack (live_unlink t f) f) f) { zombie = none })
unfolding fiber_repool release_stack live_unlink
repooled-Recycled s t f inv dead free same timers fields regs = record {
  inv = repooled-Inv t inv f dead free;
  states = λ g. retest g;
  generations = λ g. regen g;
  queue = same.same_ready;
  same_current = same.same_current;
  others = λ g ne.
      let off : (f == g) ≡ false = ground (arith, ne) in
      let live = ap (count g) same.same_live in
      ground (arith, count-unlinked f g t.live (once t inv f dead free), off, live);
  unlisted = gone t inv f dead free;
  let_go = free;
  same_timers = timers;
  same_park = fields.same_park;
  same_permit = fields.same_permit;
  same_wait_fd = fields.same_wait_fd;
  same_status = fields.same_status;
  stacks = λ g. ap (λ (m : ℕ → Stack). write m f no_stack g) fields.same_stack;
  others_reg = regs;
}
  where
    retest : (g : ℕ) → write t.state f fb_free g ≡ (if g == f then fb_free else s.state g)
    retest g = ap (λ (m : ℕ → FiberState). write m f fb_free g) same.same_state

    regen :
        (g : ℕ)
        → write t.generation f (u64 (t.generation f + 1)) g
          ≡ (if g == f then u64 (s.generation g + 1) else s.generation g)
    regen g = elim (Bool-cases (g == f)) [
      | inl here ↦
          let e : f ≡ g = ground (arith, here) in
          rw here (
            ap (λ (x : ℕ). u64 (t.generation x + 1)) e
            ∙ ap (λ (m : ℕ → ℕ). u64 (m g + 1)) fields.same_generation)
      | inr other ↦ rw other (ap (λ (m : ℕ → ℕ). m g) fields.same_generation)
    ]

-- When the books are in order and a fiber has returned, the run loop's `fiber_recycle` makes it free
-- and its generation one more, modulo 2^64, so that no handle of it fits; it takes it off the list
-- of live fibers, and its registration and its stack away. The queue, the timers, the running fiber,
-- every park, permit and status, and of the other fibers the states, generations, registrations and
-- stacks are as they were, and the books are in order.
pub fiber_recycle-Recycled :
    {os : Os} (s : Reactor os) (f : ℕ)
    → Inv s
    → s.zombie ≡ some f
    → Recycled s f (record (fiber_recycle s f) { zombie = none })
unfolding fiber_recycle detach_fd
fiber_recycle-Recycled s f inv dead =
    let d = detach_fd-Detached s inv.owned f in
    let (fields, regs) = detach_from_lem s f (s.reg_fd f) in
    repooled-Recycled s (detach_fd s f) f (detach_fd-Inv s f inv) (d.books.same_zombie ∙ dead)
      d.let_go d.books d.same_timers fields regs
