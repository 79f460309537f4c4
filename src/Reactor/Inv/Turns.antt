-- ===== src/Reactor/Inv/Turns.antt =====
-- A fiber's turn: it is entered, and comes back by a yield or by its return.
use cfiber.Common.{
  ℕ, ◌≡◌, ◌∙◌, sym, refl, ap, arith, true, false, List, ◌∷◌, Option, none, some, ◌==◌, Bool-cases,
  inl, inr,
}
use cfiber.Reactor.Timers.{Timers, write}
use cfiber.Reactor.Timers.Heap.{armed}
use cfiber.Reactor.State.{
  FiberState, fb_ready, fb_running, fb_zombie, is_parked, Os, Reactor, enqueue, enter_fiber,
  return_hook_of, ev_yield,
}
use cfiber.Reactor.Census.{is_used}
use cfiber.Reactor.Inv.{Counted, Inv}
use cfiber.Reactor.Inv.Move.{
  enter_fiber-Counted, ev_yield-Counted, return_hook-Counted, head-fb_ready,
}
use cfiber.Reactor.Inv.Park.{not_armed, running_off}

-- A fiber without a timer changes its state, and is in use: the timers and the descriptors agree with
-- the states.
module _ {os : Os} (s : Reactor os) (inv : Inv s) (f : ℕ) (off : s.timers.timer_i f ≡ none)
    (v : FiberState) (used : is_used v ≡ true) where
  still_waiting :
      (g : ℕ) → armed (s.timers.timer_i g) ≡ true → is_parked (write s.state f v g) ≡ true
  still_waiting g on = elim (Bool-cases (g == f)) [
    | inl same ↦
        let e : g ≡ f = ground (arith, same) in
        let bad : false ≡ true = sym (ap armed (ap s.timers.timer_i e ∙ off)) ∙ on in
        absurd (cc (bad))
    | inr other ↦ rw other (inv.timed.waiting g on)
  ]

  still_holding : (g d : ℕ) → s.reg_fd g ≡ some d → is_used (write s.state f v g) ≡ true
  still_holding g d h = elim (Bool-cases (g == f)) [
    | inl same ↦ rw same used
    | inr other ↦ rw other (inv.owned.by_used g d h)
  ]

  pub turned-Inv :
      (t : Reactor os)
      → Counted t
      → t.state ≡ write s.state f v
      → t.timers ≡ s.timers
      → t.reg_fd ≡ s.reg_fd
      → t.fd_owner ≡ s.fd_owner
      → t.fd_owner_cap ≡ s.fd_owner_cap
      → Inv t
  turned-Inv t counted states timers regs owners cap = record {
    counted = counted;
    timed = record {
      heap = rw timers inv.timed.heap;
      waiting = λ g on.
          ap (λ (m : ℕ → FiberState). is_parked (m g)) states
          ∙ still_waiting g (ap (λ (m : Timers). armed (m.timer_i g)) (sym timers) ∙ on);
    };
    owned = record {
      in_map = λ g d e.
          ap (λ (m : ℕ → Option ℕ). m d) owners
          ∙ inv.owned.in_map g d (ap (λ (m : ℕ → Option ℕ). m g) (sym regs) ∙ e);
      in_fiber = λ d g e.
          ap (λ (m : ℕ → Option ℕ). m g) regs
          ∙ inv.owned.in_fiber d g (ap (λ (m : ℕ → Option ℕ). m d) (sym owners) ∙ e);
      in_range = λ d g e.
          rw cap (inv.owned.in_range d g (ap (λ (m : ℕ → Option ℕ). m d) (sym owners) ∙ e));
      by_used = λ g d e.
          ap (λ (m : ℕ → FiberState). is_used (m g)) states
          ∙ still_holding g d (ap (λ (m : ℕ → Option ℕ). m g) (sym regs) ∙ e);
    };
  }

-- When nobody runs, the first fiber of the queue is entered: it is taken off the queue and is the
-- one that runs. The books stay in order.
pub enter_fiber-Inv :
    {os : Os} (s : Reactor os) (f : ℕ) (rest : List ℕ)
    → Inv s
    → s.ready ≡ f ∷ rest
    → s.current ≡ none
    → Inv (enter_fiber (record s { ready = rest }) f)
unfolding enter_fiber
enter_fiber-Inv s f rest inv e nobody =
    turned-Inv s inv f off fb_running refl (enter_fiber (record s { ready = rest }) f)
      (enter_fiber-Counted s f rest inv.counted e nobody) refl refl refl refl refl
  where
    off : s.timers.timer_i f ≡ none
    off =
        not_armed (s.timers.timer_i f)
          (λ on. ap is_parked (sym (head-fb_ready s f rest inv.counted e)) ∙ inv.timed.waiting f on)

module _ {os : Os} (s : Reactor os) (f : ℕ) (inv : Inv s) (runs : s.current ≡ some f) where
  -- The running fiber yields: the books stay in order.
  pub ev_yield-Inv : Inv (ev_yield s f)
  unfolding ev_yield enqueue
  ev_yield-Inv =
      turned-Inv s inv f (running_off s f inv runs) fb_ready refl (ev_yield s f)
        (ev_yield-Counted s inv.counted f runs) refl refl refl refl refl

  -- The running fiber returns, when no other has and is still there: the books stay in order.
  pub return_hook-Inv : s.zombie ≡ none → Inv (return_hook_of s f)
  unfolding return_hook_of
  return_hook-Inv alone =
      turned-Inv s inv f (running_off s f inv runs) fb_zombie refl (return_hook_of s f)
        (return_hook-Counted s inv.counted f runs alone) refl refl refl refl refl
