-- ===== src/Reactor/Loop/Waitable.antt =====
-- There is always something to wait for: the assertion in `cfiber_reactor_run`.
use cfiber.Common.{ℕ, ◌≡◌, ◌∙◌, sym, refl, ap, arith, false, List, [], ◌∷◌, Option, none, one_if}
use cfiber.Reactor.State.{
  FiberState, fb_free, fb_ready, fb_running, fb_parked, fb_zombie, is_parked, is_ready, Os, Reactor,
}
use cfiber.Reactor.Census.{count, census, is_active}
use cfiber.Reactor.Inv.{is_running, points_to, Counted}

active_state :
    (v : FiberState)
    → is_ready v ≡ false
    → is_running v ≡ false
    → one_if (is_active v) ≡ one_if (is_parked v)
active_state fb_free a b = refl
active_state fb_ready a b = absurd (cc (a))
active_state fb_running a b = absurd (cc (b))
active_state fb_parked a b = refl
active_state fb_zombie a b = refl

all_parked :
    (state : ℕ → FiberState) (l : List ℕ)
    → ((f : ℕ) → is_ready (state f) ≡ false)
    → ((f : ℕ) → is_running (state f) ≡ false)
    → census is_active state l ≡ census is_parked state l
all_parked state [] a b = refl
all_parked state (f ∷ l) a b =
    omega (arith, active_state (state f) (a f) (b f), all_parked state l a b)

not_queued : (v : FiberState) → 0 ≡ one_if (is_ready v) → is_ready v ≡ false
not_queued v e = ground (arith, e)

-- When the books are in order, nobody runs and the queue is empty, every active fiber is parked: the
-- assertion of the run loop, that there is something to wait for, holds.
pub Counted-waitable :
    {os : Os} (s : Reactor os) → Counted s → s.current ≡ none → s.ready ≡ [] → s.active ≡ s.blocked
Counted-waitable s c nobody empty = c.running ∙ all_parked s.state s.live idle still ∙ sym c.parked
  where
    idle : (f : ℕ) → is_ready (s.state f) ≡ false
    idle f = not_queued (s.state f) (ap (count f) (sym empty) ∙ c.queued f)

    still : (f : ℕ) → is_running (s.state f) ≡ false
    still f = c.is_current f ∙ ap (λ (p : Option ℕ). points_to p f) nobody
