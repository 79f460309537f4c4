-- ===== src/Reactor/Inv/Spawn.antt =====
-- A free fiber becomes ready, and a fiber that has returned becomes free: the books stay in order.
use mathlib.Core.Path.{fun_ext}
use cfiber.Common.{
  ℕ, ◌+◌, ◌-◌, ◌^◌, ◌/◌, ◌<◌, ◌≡◌, ◌≢◌, ◌∙◌, sym, refl, ap, arith, Bool, true, false, [], ◌∷◌, ◌++◌,
  Option, none, some, ◌==◌, one_if, Bool-cases, inl, inr,
}
use cfiber.Memory.Multislab.{Multislab}
use cfiber.Stack.Fixed.{Stack}
use cfiber.Stack.Cache.{Cache}
use cfiber.Reactor.Timers.{Timers, write, key}
use cfiber.Reactor.Timers.Heap.{armed}
use cfiber.Reactor.Timers.Outcome.{IsHeap}
use cfiber.Reactor.State.{FiberState, fb_free, fb_ready, is_parked, is_ready, Os, Reactor, enqueue}
use cfiber.Reactor.Pool.{wipe, live_link, start_fiber}
use cfiber.Reactor.Census.{count, census, is_active, is_used, count-append, census_absent}
use cfiber.Reactor.Inv.Same.{SameBooks, SameBooks-Counted}
use cfiber.Reactor.Inv.{is_running, is_zombie, points_to, Inv}

-- Writing what is there.
pub write_same : {A : Type 0} (m : ℕ → A) (k : ℕ) (v : A) → m k ≡ v → write m k v ≡ m
write_same m k v e = fun_ext λ j. go j
  where
    go : (j : ℕ) → write m k v j ≡ m j
    go j = elim (Bool-cases (j == k)) [
      | inl same ↦ let q : k ≡ j = ground (arith, same) in rw same (sym e ∙ ap m q)
      | inr other ↦ rw other refl
    ]

module _ {os : Os} (s : Reactor os) (inv : Inv s) (f : ℕ) (free : s.state f ≡ fb_free) where
  no_timer : s.timers.timer_i f ≡ none
  no_timer = go (s.timers.timer_i f) refl
    where
      go : (place : Option ℕ) → s.timers.timer_i f ≡ place → place ≡ none
      go none e = refl
      go (some i) e =
          let on = inv.timed.waiting f (ap armed e) in
          let bad : false ≡ true = ap is_parked (sym free) ∙ on in absurd (cc (bad))

  no_fd : s.reg_fd f ≡ none
  no_fd = go (s.reg_fd f) refl
    where
      go : (r : Option ℕ) → s.reg_fd f ≡ r → r ≡ none
      go none e = refl
      go (some d) e =
          let bad : false ≡ true = ap is_used (sym free) ∙ inv.owned.by_used f d e in
          absurd (cc (bad))

  absent : count f s.live ≡ 0
  absent = ground (arith, inv.counted.listed f, ap is_used free)

  unfoldable pub wiped_timers : Timers
  wiped_timers = record s.timers {
    timer_i = write s.timers.timer_i f none;
    deadline_ns = write s.timers.deadline_ns f 0;
  }

  not_there : (k : ℕ) → k < s.timers.heap_len → s.timers.heap k ≢ f
  not_there k lt e =
      let bad : none ≡ some k =
        sym no_timer ∙ ap s.timers.timer_i (sym e) ∙ inv.timed.heap.indexed.places k lt in
      absurd (cc (bad))

  same_key : (k : ℕ) → k < s.timers.heap_len → key wiped_timers k ≡ key s.timers k
  unfolding wiped_timers
  same_key k lt = ground (arith, not_there k lt)

  wiped-IsHeap : IsHeap wiped_timers
  unfolding wiped_timers
  wiped-IsHeap = record {
    indexed = record {
      places = λ k lt.
          ap (λ (m : ℕ → Option ℕ). m (s.timers.heap k)) still ∙ inv.timed.heap.indexed.places k lt;
      inside = λ g k e.
          inv.timed.heap.indexed.inside g k (ap (λ (m : ℕ → Option ℕ). m g) (sym still) ∙ e);
    };
    order = λ k pos lt. omega (
      arith,
      inv.timed.heap.order k pos lt,
      same_key k lt,
      same_key ((k - 1) / 2) (omega (arith, lt)),
    );
  }
    where
      still : write s.timers.timer_i f none ≡ s.timers.timer_i
      still = write_same s.timers.timer_i f none no_timer

  -- The fiber is set up, queued, and linked with the live ones.
  module _ (fibers : Multislab) (memory : os.backing.State) (stacks : Cache)
      (maps : os.mapper.State) (stack : Stack) where
    unfoldable pub set_up : Reactor os
    set_up =
        let t = wipe (record s { fibers = fibers; memory = memory }) f in
        record t { stacks = stacks; maps = maps; stack = write t.stack f stack }

    twice : write (write s.state f fb_free) f fb_ready ≡ write s.state f fb_ready
    twice = ap (λ (m : ℕ → FiberState). write m f fb_ready) (write_same s.state f fb_free free)

    counts :
        (test : FiberState → Bool)
        → census test (write s.state f fb_ready) s.live ≡ census test s.state s.live
    counts test = census_absent test s.state f fb_ready s.live absent

    new_census :
        (test : FiberState → Bool)
        → census test (write s.state f fb_ready) (f ∷ s.live)
          ≡ one_if (test fb_ready) + census test s.state s.live
    new_census test =
        let same : (f == f) ≡ true = ground arith in rw same (omega (arith, counts test))

    queued :
        (g : ℕ) → count g (s.ready ++ (f ∷ [])) ≡ one_if (is_ready (write s.state f fb_ready g))
    queued g = elim (Bool-cases (g == f)) [
      | inl same ↦
          let e : g ≡ f = ground arith in
          let at_g = ap s.state e ∙ free in
          rw same (
            ground
              (arith, count-append g s.ready (f ∷ []), inv.counted.queued g, ap is_ready at_g, e))
      | inr other ↦ rw other (ground (arith, count-append g s.ready (f ∷ []), inv.counted.queued g))
    ]

    listed : (g : ℕ) → count g (f ∷ s.live) ≡ one_if (is_used (write s.state f fb_ready g))
    listed g = elim (Bool-cases (g == f)) [
      | inl same ↦
          let e : g ≡ f = ground arith in
          let at_g = ap s.state e ∙ free in
          rw same (ground (arith, inv.counted.listed g, ap is_used at_g, e))
      | inr other ↦ rw other (ground (arith, inv.counted.listed g, other))
    ]

    mark :
        (test : FiberState → Bool) (p : Option ℕ)
        → ((g : ℕ) → test (s.state g) ≡ points_to p g)
        → test fb_free ≡ false
        → test fb_ready ≡ false
        → (g : ℕ) → test (write s.state f fb_ready g) ≡ points_to p g
    mark test p marks was now g = elim (Bool-cases (g == f)) [
      | inl same ↦
          let e : g ≡ f = ground arith in
          let at_g = ap s.state e ∙ free in rw same (now ∙ sym was ∙ ap test (sym at_g) ∙ marks g)
      | inr other ↦ rw other (marks g)
    ]

    unwritten : {A : Type 0} (m : ℕ → A) (v : A) → m f ≡ v → write (write m f v) f v ≡ m
    unwritten {A} m v e = ap (λ (n : ℕ → A). write n f v) (write_same m f v e) ∙ write_same m f v e

    holds : (g : ℕ) → write (write s.reg_fd f none) f none g ≡ s.reg_fd g
    holds g = ap (λ (m : ℕ → Option ℕ). m g) (unwritten s.reg_fd none no_fd)

    cleared : (g : ℕ) → write s.timers.timer_i g none g ≡ none
    cleared g = ground arith

    still_parked :
        (g : ℕ) → armed (s.timers.timer_i g) ≡ true → is_parked (write s.state f fb_ready g) ≡ true
    still_parked g on = elim (Bool-cases (g == f)) [
      | inl same ↦
          let e : g ≡ f = ground arith in
          let bad : false ≡ true = sym (ap armed (ap s.timers.timer_i e ∙ no_timer)) ∙ on in
          absurd (cc (bad))
      | inr other ↦ rw other (inv.timed.waiting g on)
    ]

    still_used : (g : ℕ) → is_used (s.state g) ≡ true → is_used (write s.state f fb_ready g) ≡ true
    still_used g on = elim (Bool-cases (g == f)) [
      | inl same ↦ rw same refl
      | inr other ↦ rw other on
    ]

    pub start_fiber-Inv : s.active + 1 < 2 ^ 31 → Inv (start_fiber set_up f)
    unfolding start_fiber wipe live_link enqueue set_up wiped_timers
    start_fiber-Inv small = record {
      counted = record {
        queued = λ g. queued g ∙ ap (λ (m : ℕ → FiberState). one_if (is_ready (m g))) (sym twice);
        listed = λ g. listed g ∙ ap (λ (m : ℕ → FiberState). one_if (is_used (m g))) (sym twice);
        parked =
            let more = new_census is_parked in
            let all = ap (λ (m : ℕ → FiberState). census is_parked m (f ∷ s.live)) (sym twice) in
            omega (arith, inv.counted.parked, more, all);
        running =
            let more = new_census is_active in
            let all = ap (λ (m : ℕ → FiberState). census is_active m (f ∷ s.live)) (sym twice) in
            omega (arith, inv.counted.running, more, all);
        is_current = λ g.
            ap (λ (m : ℕ → FiberState). is_running (m g)) twice
            ∙ mark is_running s.current inv.counted.is_current refl refl g;
        is_dead = λ g.
            ap (λ (m : ℕ → FiberState). is_zombie (m g)) twice
            ∙ mark is_zombie s.zombie inv.counted.is_dead refl refl g;
      };
      timed = record {
        heap = rw (write_same (write s.timers.timer_i f none) f none (cleared f)) wiped-IsHeap;
        waiting = λ g on.
            ap (λ (m : ℕ → FiberState). is_parked (m g)) twice
            ∙ still_parked g (
                ap (λ (m : ℕ → Option ℕ). armed (m g))
                  (sym (unwritten s.timers.timer_i none no_timer))
                ∙ on);
      };
      owned = record {
        in_map = λ g d e. inv.owned.in_map g d (sym (holds g) ∙ e);
        in_fiber = λ d g e. holds g ∙ inv.owned.in_fiber d g e;
        in_range = inv.owned.in_range;
        by_used = λ g d e.
            ap (λ (m : ℕ → FiberState). is_used (m g)) twice
            ∙ still_used g (inv.owned.by_used g d (sym (holds g) ∙ e));
      };
    }

  -- The struct goes back to the pool: nothing that counts has changed.
  module _ (t : Reactor os) (same : SameBooks s t) (timers : t.timers ≡ wiped_timers)
      (regs : t.reg_fd ≡ write s.reg_fd f none) (owners : t.fd_owner ≡ s.fd_owner)
      (cap : t.fd_owner_cap ≡ s.fd_owner_cap) where
    reg : (g : ℕ) → t.reg_fd g ≡ s.reg_fd g
    reg g = ap (λ (m : ℕ → Option ℕ). m g) (regs ∙ write_same s.reg_fd f none no_fd)

    owner : (d : ℕ) → t.fd_owner d ≡ s.fd_owner d
    owner d = ap (λ (m : ℕ → Option ℕ). m d) owners

    place : (g : ℕ) → t.timers.timer_i g ≡ s.timers.timer_i g
    unfolding wiped_timers
    place g =
        ap (λ (m : Timers). m.timer_i g) timers
        ∙ ap (λ (m : ℕ → Option ℕ). m g) (write_same s.timers.timer_i f none no_timer)

    pub given_back-Inv : Inv t
    given_back-Inv = record {
      counted = SameBooks-Counted s t same inv.counted;
      timed = record {
        heap = rw timers wiped-IsHeap;
        waiting = λ g on.
            ap (λ (m : ℕ → FiberState). is_parked (m g)) same.same_state
            ∙ inv.timed.waiting g (ap armed (sym (place g)) ∙ on);
      };
      owned = record {
        in_map = λ g d e. owner d ∙ inv.owned.in_map g d (sym (reg g) ∙ e);
        in_fiber = λ d g e. reg g ∙ inv.owned.in_fiber d g (sym (owner d) ∙ e);
        in_range = λ d g e. rw cap (inv.owned.in_range d g (sym (owner d) ∙ e));
        by_used = λ g d e.
            ap (λ (m : ℕ → FiberState). is_used (m g)) same.same_state
            ∙ inv.owned.by_used g d (sym (reg g) ∙ e);
      };
    }
