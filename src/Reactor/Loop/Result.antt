-- ===== src/Reactor/Loop/Result.antt =====
-- What `cfiber_reactor_run` in src/cfiber/reactor/reactor.c comes to.
use cfiber.Common.{
  ℕ, ◌<◌, ◌≡◌, ◌≢◌, ◌⊎◌, ◌∙◌, sym, refl, ap, arith, false, List, [], ◌∷◌, Option, one_if,
}
use cfiber.Reactor.State.{
  FiberState, fb_free, fb_ready, fb_running, fb_parked, fb_zombie, Os, Reactor,
}
use cfiber.Reactor.Census.{count, census, is_active, is_used}
use cfiber.Reactor.Inv.{is_zombie, points_to, Counted}
use cfiber.Reactor.Loop.{Polled, poll_failed, poll, Outcome, ended, broken, unfinished}
use cfiber.Reactor.Loop.Round.{Idle, TakesTurns}

active_used : (v : FiberState) → is_zombie v ≡ false → one_if (is_active v) ≡ one_if (is_used v)
active_used fb_free e = refl
active_used fb_ready e = refl
active_used fb_running e = refl
active_used fb_parked e = refl
active_used fb_zombie e = absurd (cc (e))

-- When the books are in order and no fiber is active, none is left.
pub Idle-empty : {os : Os} (s : Reactor os) → Idle s → s.active ≡ 0 → s.live ≡ []
Idle-empty s idle zero_active = go s.live refl
  where
    counted : Counted s
    counted = idle.inv.counted

    alive : (g : ℕ) → is_zombie (s.state g) ≡ false
    alive g = counted.is_dead g ∙ ap (λ (p : Option ℕ). points_to p g) idle.clean

    go : (l : List ℕ) → s.live ≡ l → l ≡ []
    go [] e = refl
    go (g ∷ rest) e =
        let listed = sym (ap (count g) e) ∙ counted.listed g in
        let total = sym zero_active ∙ counted.running ∙ ap (census is_active s.state) e in
        absurd (ground (arith, listed, total, active_used (s.state g) (alive g)))

-- The state in which the loop polls: there is something to wait for.
pub record Pollable {os : Os} (s : Reactor os) : Type 0 where
  pub idle : Idle s
  pub some_active : s.active ≢ 0
  pub waitable : (s.ready ≢ []) ⊎ (0 < s.blocked)

module _ {os : Os} (turn : ℕ → Reactor os → Reactor os) (turns : TakesTurns turn)
    (epoll_wait : Option ℕ → os.Kernel → Polled × os.Kernel) where
  -- What a run comes to.
  pub data RunResult : Outcome turn epoll_wait → Type 0 where
    -- no fiber is left
    has_ended : (t : Reactor os) → Idle t → t.live ≡ [] → RunResult (ended t)
    -- `epoll_wait` has failed at a poll; the fibers stay as they are
    has_broken :
        (t : Reactor os)
        → Pollable t
        → (poll turn epoll_wait t).0 ≡ poll_failed
        → RunResult (broken (poll turn epoll_wait t).1)
    still_runs : (t : Reactor os) → Idle t → RunResult (unfinished t)
