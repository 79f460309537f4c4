-- ===== src/Reactor/Inv/Move.antt =====
-- A fiber changes its state, and the queue and the counters with it.
use cfiber.Common.{
  ℕ, ◌+◌, ◌≡◌, ◌∙◌, sym, refl, ap, arith, Bool, true, false, List, [], ◌∷◌, ◌++◌, Option, none,
  some, ◌==◌, one_if, if◌then◌else◌, Bool-cases, inl, inr,
}
use cfiber.Reactor.Timers.{write}
use cfiber.Reactor.State.{
  FiberState, fb_free, fb_ready, fb_running, fb_parked, fb_zombie, is_parked, is_ready, ParkKind,
  Status, Os, Reactor, enqueue, resume, resume_as, park_current, enter_fiber, return_hook_of,
  ev_yield,
}
use cfiber.Reactor.Census.{count, census, is_active, is_used, count-append, census-write}
use cfiber.Reactor.Inv.{is_running, is_zombie, points_to, Counted}

module _ {os : Os} (s : Reactor os) (c : Counted s) (f : ℕ) (old : FiberState)
    (was : s.state f ≡ old) (used : is_used old ≡ true) where
  once : count f s.live ≡ 1
  once = ground (arith, c.listed f, ap is_used was)

  still_listed :
      (v : FiberState)
      → is_used v ≡ true
      → (g : ℕ) → count g s.live ≡ one_if (is_used (write s.state f v g))
  still_listed v kept g = elim (Bool-cases (g == f)) [
    | inl same ↦
        let e : g ≡ f = ground arith in
        rw same (ground (arith, ap (λ (x : ℕ). count x s.live) e, once))
    | inr other ↦ rw other (c.listed g)
  ]

  -- A count of the live fibers by a test, after the move.
  recount :
      (test : FiberState → Bool) (v : FiberState)
      → census test (write s.state f v) s.live + one_if (test old)
        ≡ census test s.state s.live + one_if (test v)
  recount test v =
      let law = census-write test s.state f v s.live once in
      let at_old = ap (λ (x : FiberState). one_if (test x)) was in omega (arith, law, at_old)

  -- A test on the states, after the move, as one on the fibers.
  retest :
      (test : FiberState → Bool) (v : FiberState) (g : ℕ)
      → test (write s.state f v g) ≡ (if g == f then test v else test (s.state g))
  retest test v g = elim (Bool-cases (g == f)) [ inl e ↦ rw e refl | inr e ↦ rw e refl ]

  -- The fiber is put behind the ready queue.
  join_queue :
      is_ready old ≡ false
      → (g : ℕ) → count g (s.ready ++ (f ∷ [])) ≡ one_if (is_ready (write s.state f fb_ready g))
  join_queue not_there g = elim (Bool-cases (g == f)) [
    | inl same ↦
        let e : g ≡ f = ground arith in
        let queued = c.queued g in
        let at_g = ap s.state e ∙ was in
        rw same (ground (arith, count-append g s.ready (f ∷ []), queued, ap is_ready at_g, e))
    | inr other ↦ rw other (ground (arith, count-append g s.ready (f ∷ []), c.queued g))
  ]

  -- The fiber was not queued, and is not.
  pub stay_out :
      (v : FiberState)
      → is_ready old ≡ false
      → is_ready v ≡ false
      → (g : ℕ) → count g s.ready ≡ one_if (is_ready (write s.state f v g))
  stay_out v not_there not_now g = elim (Bool-cases (g == f)) [
    | inl same ↦
        let e : g ≡ f = ground arith in
        let at_g = ap s.state e ∙ was in
        rw same (ground (arith, c.queued g, ap is_ready at_g, not_now))
    | inr other ↦ rw other (c.queued g)
  ]

  -- A mark on one fiber that it neither had nor gets.
  pub same_mark :
      (test : FiberState → Bool) (p : Option ℕ) (v : FiberState)
      → ((g : ℕ) → test (s.state g) ≡ points_to p g)
      → test old ≡ false
      → test v ≡ false
      → (g : ℕ) → test (write s.state f v g) ≡ points_to p g
  same_mark test p v marks no_old no_new g = elim (Bool-cases (g == f)) [
    | inl same ↦
        let e : g ≡ f = ground arith in
        let at_g = ap s.state e ∙ was in
        rw same (no_new ∙ sym no_old ∙ ap test (sym at_g) ∙ marks g)
    | inr other ↦ rw other (marks g)
  ]

  -- The mark was on this fiber, and goes.
  pub lose_mark :
      (test : FiberState → Bool) (v : FiberState)
      → ((g : ℕ) → test (s.state g) ≡ points_to (some f) g)
      → test v ≡ false
      → (g : ℕ) → test (write s.state f v g) ≡ false
  lose_mark test v marks no_new g = elim (Bool-cases (g == f)) [
    | inl same ↦ rw same no_new
    | inr other ↦ let off : (f == g) ≡ false = ground (arith, other) in rw other (marks g ∙ off)
  ]

  -- Nobody had the mark, and this fiber gets it.
  gain_mark :
      (test : FiberState → Bool) (v : FiberState)
      → ((g : ℕ) → test (s.state g) ≡ false)
      → test v ≡ true
      → (g : ℕ) → test (write s.state f v g) ≡ (f == g)
  gain_mark test v marks now g = elim (Bool-cases (g == f)) [
    | inl same ↦ let on : (f == g) ≡ true = ground (arith, same) in rw same (now ∙ sym on)
    | inr other ↦ let off : (f == g) ≡ false = ground (arith, other) in rw other (marks g ∙ sym off)
  ]

-- A parked fiber is resumed; any other is left alone.
pub resume-Counted :
    {os : Os} (s : Reactor os) (f : ℕ) (status : Status) → Counted s → Counted (resume s f status)
unfolding resume resume_as enqueue
resume-Counted s f status c = go (s.state f) refl
  where
    go : (v : FiberState) → s.state f ≡ v → Counted (resume_as s f status v)
    go fb_parked e = record {
      queued = join_queue s c f fb_parked e refl refl;
      listed = still_listed s c f fb_parked e refl fb_ready refl;
      parked = omega (arith, c.parked, recount s c f fb_parked e refl is_parked fb_ready);
      running = omega (arith, c.running, recount s c f fb_parked e refl is_active fb_ready);
      is_current =
          same_mark s c f fb_parked e refl is_running s.current fb_ready c.is_current refl refl;
      is_dead = same_mark s c f fb_parked e refl is_zombie s.zombie fb_ready c.is_dead refl refl;
    }
    go fb_free e = c
    go fb_ready e = c
    go fb_running e = c
    go fb_zombie e = c

pub running_state : (v : FiberState) → is_running v ≡ true → v ≡ fb_running
running_state fb_running e = refl
running_state fb_free e = absurd (cc (e))
running_state fb_ready e = absurd (cc (e))
running_state fb_parked e = absurd (cc (e))
running_state fb_zombie e = absurd (cc (e))

pub ready_state : (v : FiberState) → is_ready v ≡ true → v ≡ fb_ready
ready_state fb_ready e = refl
ready_state fb_free e = absurd (cc (e))
ready_state fb_running e = absurd (cc (e))
ready_state fb_parked e = absurd (cc (e))
ready_state fb_zombie e = absurd (cc (e))

-- The current fiber is marked as running, and it alone.
module _ {os : Os} (s : Reactor os) (c : Counted s) (f : ℕ) (e : s.current ≡ some f) where
  current_marks : (g : ℕ) → is_running (s.state g) ≡ points_to (some f) g
  current_marks g = c.is_current g ∙ ap (λ (p : Option ℕ). points_to p g) e

  pub current-fb_running : s.state f ≡ fb_running
  current-fb_running =
      let same : (f == f) ≡ true = ground arith in
      running_state (s.state f) (current_marks f ∙ same)

  -- It parks.
  pub park_current-Counted : (kind : ParkKind) → Counted (park_current s f kind)
  unfolding park_current
  park_current-Counted kind =
      let was = current-fb_running in
      record {
        queued = stay_out s c f fb_running was refl fb_parked refl refl;
        listed = still_listed s c f fb_running was refl fb_parked refl;
        parked = omega (arith, c.parked, recount s c f fb_running was refl is_parked fb_parked);
        running = omega (arith, c.running, recount s c f fb_running was refl is_active fb_parked);
        is_current = lose_mark s c f fb_running was refl is_running fb_parked current_marks refl;
        is_dead =
            same_mark s c f fb_running was refl is_zombie s.zombie fb_parked c.is_dead refl refl;
      }

  -- It yields.
  pub ev_yield-Counted : Counted (ev_yield s f)
  unfolding ev_yield enqueue
  ev_yield-Counted =
      let was = current-fb_running in
      record {
        queued = join_queue s c f fb_running was refl refl;
        listed = still_listed s c f fb_running was refl fb_ready refl;
        parked = omega (arith, c.parked, recount s c f fb_running was refl is_parked fb_ready);
        running = omega (arith, c.running, recount s c f fb_running was refl is_active fb_ready);
        is_current = lose_mark s c f fb_running was refl is_running fb_ready current_marks refl;
        is_dead =
            same_mark s c f fb_running was refl is_zombie s.zombie fb_ready c.is_dead refl refl;
      }

  -- It returns, when no other has and is still there.
  pub return_hook-Counted : s.zombie ≡ none → Counted (return_hook_of s f)
  unfolding return_hook_of
  return_hook-Counted alone =
      let was = current-fb_running in
      record {
        queued = stay_out s c f fb_running was refl fb_zombie refl refl;
        listed = still_listed s c f fb_running was refl fb_zombie refl;
        parked = omega (arith, c.parked, recount s c f fb_running was refl is_parked fb_zombie);
        running = omega (arith, c.running, recount s c f fb_running was refl is_active fb_zombie);
        is_current = lose_mark s c f fb_running was refl is_running fb_zombie current_marks refl;
        is_dead =
            gain_mark s c f fb_running was refl is_zombie fb_zombie
              (λ g. c.is_dead g ∙ ap (λ (p : Option ℕ). points_to p g) alone) refl;
      }

pub head-fb_ready :
    {os : Os} (s : Reactor os) (f : ℕ) (rest : List ℕ)
    → Counted s
    → s.ready ≡ f ∷ rest
    → s.state f ≡ fb_ready
head-fb_ready s f rest c e =
    let q : one_if (f == f) + count f rest ≡ one_if (is_ready (s.state f)) =
      ap (count f) (sym e) ∙ c.queued f in
    ready_state (s.state f) (ground (arith, q))

-- The first ready fiber is taken off the queue and runs.
pub enter_fiber-Counted :
    {os : Os} (s : Reactor os) (f : ℕ) (rest : List ℕ)
    → Counted s
    → s.ready ≡ f ∷ rest
    → s.current ≡ none
    → Counted (enter_fiber (record s { ready = rest }) f)
unfolding enter_fiber
enter_fiber-Counted s f rest c e none_runs = record {
  queued = queued;
  listed = still_listed s c f fb_ready was refl fb_running refl;
  parked = omega (arith, c.parked, recount s c f fb_ready was refl is_parked fb_running);
  running = omega (arith, c.running, recount s c f fb_ready was refl is_active fb_running);
  is_current =
      gain_mark s c f fb_ready was refl is_running fb_running
        (λ g. c.is_current g ∙ ap (λ (p : Option ℕ). points_to p g) none_runs) refl;
  is_dead = same_mark s c f fb_ready was refl is_zombie s.zombie fb_running c.is_dead refl refl;
}
  where
    in_queue : (g : ℕ) → one_if (f == g) + count g rest ≡ one_if (is_ready (s.state g))
    in_queue g = ap (count g) (sym e) ∙ c.queued g

    was : s.state f ≡ fb_ready
    was = head-fb_ready s f rest c e

    queued : (g : ℕ) → count g rest ≡ one_if (is_ready (write s.state f fb_running g))
    queued g = elim (Bool-cases (g == f)) [
      | inl same ↦
          let q : g ≡ f = ground arith in
          rw same (ground (arith, in_queue g, ap (λ (x : ℕ). is_ready (s.state x)) q, was))
      | inr other ↦ rw other (ground (arith, in_queue g, other))
    ]
