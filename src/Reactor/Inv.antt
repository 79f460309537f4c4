-- ===== src/Reactor/Inv.antt =====
-- When the reactor's books agree: the queue, the counters, the timers and the descriptors with the
-- states of the fibers.
pub mod Move
pub mod Same
pub mod Detach
pub mod Wake
pub mod Taking
pub mod Registers
pub mod Arm
pub mod Park
pub mod Grants
pub mod Calls
pub mod Close
pub mod Turns
pub mod Recycle
pub mod Spawn
pub mod Pooled
pub mod Repooled
use cfiber.Common.{ℕ, ◌+◌, ◌≤◌, ◌<◌, ◌≡◌, Bool, true, false, List, Option, none, some, ◌==◌, one_if}
use cfiber.Reactor.Timers.{Timers}
use cfiber.Reactor.Timers.Heap.{armed}
use cfiber.Reactor.Timers.Outcome.{IsHeap}
use cfiber.Reactor.State.{
  FiberState, fb_free, fb_ready, fb_running, fb_parked, fb_zombie, is_parked, is_ready, Os, Reactor,
}
use cfiber.Reactor.Census.{count, census, is_active, is_used}

abbrev pub is_running : FiberState → Bool
is_running fb_running = true
is_running _ = false

abbrev pub is_zombie : FiberState → Bool
is_zombie fb_zombie = true
is_zombie _ = false

-- Whether a pointer is this fiber's.
abbrev pub points_to : Option ℕ → ℕ → Bool
points_to none f = false
points_to (some g) f = g == f

-- Exactly the ready fibers are queued, once each; the fibers in use are the live ones; the counters
-- count; and one fiber at most is the current one, and one the zombie.
pub record Counted {os : Os} (s : Reactor os) : Type 0 where
  pub queued : (f : ℕ) → count f s.ready ≡ one_if (is_ready (s.state f))
  pub listed : (f : ℕ) → count f s.live ≡ one_if (is_used (s.state f))
  pub parked : s.blocked ≡ census is_parked s.state s.live
  pub running : s.active ≡ census is_active s.state s.live
  pub is_current : (f : ℕ) → is_running (s.state f) ≡ points_to s.current f
  pub is_dead : (f : ℕ) → is_zombie (s.state f) ≡ points_to s.zombie f

-- The timers are a heap, and only parked fibers have one.
pub record Timed {os : Os} (s : Reactor os) : Type 0 where
  pub heap : IsHeap s.timers
  pub waiting : (f : ℕ) → armed (s.timers.timer_i f) ≡ true → is_parked (s.state f) ≡ true

-- A fiber holds a descriptor exactly if the map says so; a free one holds none.
pub record Owned {os : Os} (s : Reactor os) : Type 0 where
  pub in_map : (f fd : ℕ) → s.reg_fd f ≡ some fd → s.fd_owner fd ≡ some f
  pub in_fiber : (fd f : ℕ) → s.fd_owner fd ≡ some f → s.reg_fd f ≡ some fd
  pub in_range : (fd f : ℕ) → s.fd_owner fd ≡ some f → fd < s.fd_owner_cap
  pub by_used : (f fd : ℕ) → s.reg_fd f ≡ some fd → is_used (s.state f) ≡ true

pub record Inv {os : Os} (s : Reactor os) : Type 0 where
  pub counted : Counted s
  pub timed : Timed s
  pub owned : Owned s
