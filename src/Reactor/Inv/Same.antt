-- ===== src/Reactor/Inv/Same.antt =====
-- Steps that leave the queue, the counters and the states alone.
use cfiber.Common.{ℕ, ◌≡◌, ◌∙◌, sym, refl, ap, Bool, Option, one_if}
use cfiber.Reactor.State.{FiberState, is_parked, is_ready, Os, Reactor}
use cfiber.Reactor.Census.{count, census, is_active, is_used}
use cfiber.Reactor.Inv.{is_running, is_zombie, points_to, Counted, Timed, Owned, Inv}

pub record SameBooks {os : Os} (s t : Reactor os) : Type 0 where
  pub same_ready : t.ready ≡ s.ready
  pub same_live : t.live ≡ s.live
  pub same_blocked : t.blocked ≡ s.blocked
  pub same_active : t.active ≡ s.active
  pub same_state : t.state ≡ s.state
  pub same_current : t.current ≡ s.current
  pub same_zombie : t.zombie ≡ s.zombie

pub SameBooks-refl : {os : Os} (s : Reactor os) → SameBooks s s
SameBooks-refl s = record {
  same_ready = refl;
  same_live = refl;
  same_blocked = refl;
  same_active = refl;
  same_state = refl;
  same_current = refl;
  same_zombie = refl;
}

pub SameBooks-trans : {os : Os} (s t u : Reactor os) → SameBooks s t → SameBooks t u → SameBooks s u
SameBooks-trans s t u a c = record {
  same_ready = c.same_ready ∙ a.same_ready;
  same_live = c.same_live ∙ a.same_live;
  same_blocked = c.same_blocked ∙ a.same_blocked;
  same_active = c.same_active ∙ a.same_active;
  same_state = c.same_state ∙ a.same_state;
  same_current = c.same_current ∙ a.same_current;
  same_zombie = c.same_zombie ∙ a.same_zombie;
}

-- The fields of the fibers that have nothing to do with the books or with registrations.
pub record SameFields {os : Os} (s t : Reactor os) : Type 0 where
  pub same_generation : t.generation ≡ s.generation
  pub same_park : t.park ≡ s.park
  pub same_permit : t.wake_pending ≡ s.wake_pending
  pub same_wait_fd : t.wait_fd ≡ s.wait_fd
  pub same_status : t.wait_status ≡ s.wait_status
  pub same_stack : t.stack ≡ s.stack

pub SameFields-refl : {os : Os} (s : Reactor os) → SameFields s s
SameFields-refl s = record {
  same_generation = refl;
  same_park = refl;
  same_permit = refl;
  same_wait_fd = refl;
  same_status = refl;
  same_stack = refl;
}

pub SameFields-trans :
    {os : Os} (s t u : Reactor os) → SameFields s t → SameFields t u → SameFields s u
SameFields-trans s t u a c = record {
  same_generation = c.same_generation ∙ a.same_generation;
  same_park = c.same_park ∙ a.same_park;
  same_permit = c.same_permit ∙ a.same_permit;
  same_wait_fd = c.same_wait_fd ∙ a.same_wait_fd;
  same_status = c.same_status ∙ a.same_status;
  same_stack = c.same_stack ∙ a.same_stack;
}

module _ {os : Os} (s t : Reactor os) (same : SameBooks s t) where
  open same use {
    same_ready, same_live, same_blocked, same_active, same_state, same_current, same_zombie,
  }

  tested : (test : FiberState → Bool) (g : ℕ) → test (t.state g) ≡ test (s.state g)
  tested test g = ap (λ (st : ℕ → FiberState). test (st g)) same_state

  counted_up : (test : FiberState → Bool) → census test t.state t.live ≡ census test s.state s.live
  counted_up test =
      ap (λ (st : ℕ → FiberState). census test st t.live) same_state
      ∙ ap (census test s.state) same_live

  pub SameBooks-Counted : Counted s → Counted t
  SameBooks-Counted c = record {
    queued = λ g. ap (count g) same_ready ∙ c.queued g ∙ ap one_if (sym (tested is_ready g));
    listed = λ g. ap (count g) same_live ∙ c.listed g ∙ ap one_if (sym (tested is_used g));
    parked = same_blocked ∙ c.parked ∙ sym (counted_up is_parked);
    running = same_active ∙ c.running ∙ sym (counted_up is_active);
    is_current = λ g.
        tested is_running g
        ∙ c.is_current g
        ∙ ap (λ (p : Option ℕ). points_to p g) (sym same_current);
    is_dead = λ g.
        tested is_zombie g ∙ c.is_dead g ∙ ap (λ (p : Option ℕ). points_to p g) (sym same_zombie);
  }

  pub SameBooks-Timed : t.timers ≡ s.timers → Timed s → Timed t
  SameBooks-Timed e d = record {
    heap = rw (sym e) at (d.heap);
    waiting = λ g h. tested is_parked g ∙ d.waiting g (rw e at h);
  }

  pub SameBooks-Owned :
      t.reg_fd ≡ s.reg_fd
      → t.fd_owner ≡ s.fd_owner
      → t.fd_owner_cap ≡ s.fd_owner_cap
      → Owned s
      → Owned t
  SameBooks-Owned r o k d = record {
    in_map = λ g fd h.
        ap (λ (m : ℕ → Option ℕ). m fd) o
        ∙ d.in_map g fd (ap (λ (m : ℕ → Option ℕ). m g) (sym r) ∙ h);
    in_fiber = λ fd g h.
        ap (λ (m : ℕ → Option ℕ). m g) r
        ∙ d.in_fiber fd g (ap (λ (m : ℕ → Option ℕ). m fd) (sym o) ∙ h);
    in_range =
        λ fd g h. rw (sym k) at (d.in_range fd g (ap (λ (m : ℕ → Option ℕ). m fd) (sym o) ∙ h));
    by_used =
        λ g fd h. tested is_used g ∙ d.by_used g fd (ap (λ (m : ℕ → Option ℕ). m g) (sym r) ∙ h);
  }

-- A step that changes none of what the books speak of.
pub Inv-same :
    {os : Os} (s t : Reactor os)
    → SameBooks s t
    → t.timers ≡ s.timers
    → t.reg_fd ≡ s.reg_fd
    → t.fd_owner ≡ s.fd_owner
    → t.fd_owner_cap ≡ s.fd_owner_cap
    → Inv s
    → Inv t
Inv-same s t same d r o k inv = record {
  counted = SameBooks-Counted s t same inv.counted;
  timed = SameBooks-Timed s t same d inv.timed;
  owned = SameBooks-Owned s t same r o k inv.owned;
}

-- A call of the kernel.
pub Inv-kernel : {os : Os} (s : Reactor os) (k : os.Kernel) → Inv s → Inv (record s { kernel = k })
Inv-kernel s k inv =
    Inv-same s (record s { kernel = k })
      (record {
        same_ready = refl;
        same_live = refl;
        same_blocked = refl;
        same_active = refl;
        same_state = refl;
        same_current = refl;
        same_zombie = refl;
      })
      refl refl refl refl inv
