-- ===== src/Reactor/Inv/Close.antt =====
-- `cfiber_ev_close` in src/cfiber/reactor/reactor.c.
use cfiber.Common.{ℕ, ◌≡◌, true, ◌&&◌, Option, none, some, false}
use cfiber.Reactor.State.{is_parked, ev_cancelled, Os, Reactor}
use cfiber.Reactor.Owner.{is_this}
use cfiber.Reactor.Inv.{Inv}
use cfiber.Reactor.Inv.Same.{SameBooks}
use cfiber.Reactor.Inv.Wake.{Woken}

-- What a close does to the fibers.
pub data Closed {os : Os} (s : Reactor os) (fd : Option ℕ) : Reactor os → Type 0 where
  -- the fiber that waits for the descriptor is woken
  cancelled :
      (f d : ℕ) (t : Reactor os)
      → fd ≡ some d
      → s.fd_owner d ≡ some f
      → (is_parked (s.state f) && is_this (s.wait_fd f) d) ≡ true
      → Inv t
      → Woken s f ev_cancelled t
      → Closed s fd t
  -- the holder, if there is one, does not wait for the descriptor, and holds none any more
  unnoticed :
      (t : Reactor os)
      → Inv t
      → SameBooks s t
      → ((f d : ℕ)
          → fd ≡ some d
          → s.fd_owner d ≡ some f
          → ((is_parked (s.state f) && is_this (s.wait_fd f) d) ≡ false) × (t.reg_fd f ≡ none))
      → Closed s fd t
