-- ===== src/Reactor/Command.antt =====
-- Wakes and cancels of src/cfiber/reactor/reactor.c, on the loop's thread.
use cfiber.Common.{ℕ, Bool, true, false, ◌&&◌, ◌||◌, Option, none, some, ◌!=◌, if◌then◌else◌}
use cfiber.Reactor.Timers.{write}
use cfiber.Reactor.State.{
  FiberState, fb_free, fb_zombie, is_parked, is_async, ev_ready, ev_cancelled, Os, Reactor,
}
use cfiber.Reactor.Owner.{unpark}

-- `cfiber_reactor_handle_t`
pub record Handle : Type 0 where
  pub fiber : Option ℕ
  pub gen : ℕ

-- `cmd_kind_t` and `cmd_t`
pub data CmdKind : Type 0 where
  cmd_wake cmd_cancel : CmdKind

pub record Cmd : Type 0 where
  pub kind : CmdKind
  pub target : Option ℕ
  pub gen : ℕ

abbrev pub is_gone : FiberState → Bool
is_gone fb_free = true
is_gone fb_zombie = true
is_gone _ = false

-- A command for a fiber that its handle still fits.
unfoldable pub apply_to : {os : Os} → Reactor os → CmdKind → ℕ → Reactor os
apply_to s cmd_cancel f = if is_parked (s.state f) then unpark s f ev_cancelled else s
apply_to s cmd_wake f =
    if is_parked (s.state f) && is_async (s.park f)
    then unpark s f ev_ready
    else record s { wake_pending = write s.wake_pending f true }

unfoldable pub apply_target : {os : Os} → Reactor os → CmdKind → ℕ → Option ℕ → Reactor os
unfolding apply_to
apply_target s kind gen none = s
apply_target s kind gen (some f) =
    if s.generation f != gen || is_gone (s.state f) then s else apply_to s kind f

unfoldable pub apply_cmd : {os : Os} → Reactor os → Cmd → Reactor os
unfolding apply_target
apply_cmd s c = apply_target s c.kind c.gen c.target

-- `cfiber_ev_self`
unfoldable pub ev_self : {os : Os} → Reactor os → Handle
ev_self s = elim s.current [
  | none ↦ record { fiber = none; gen = 0 }
  | some f ↦ record { fiber = some f; gen = s.generation f }
]

-- `cfiber_ev_wake` and `cfiber_ev_cancel`, and `cfiber_reactor_wake` and `cfiber_reactor_cancel` on the
-- loop's own thread.
unfoldable pub ev_wake : {os : Os} → Reactor os → Handle → Reactor os
ev_wake s h = apply_cmd s (record { kind = cmd_wake; target = h.fiber; gen = h.gen })

unfoldable pub ev_cancel : {os : Os} → Reactor os → Handle → Reactor os
ev_cancel s h = apply_cmd s (record { kind = cmd_cancel; target = h.fiber; gen = h.gen })
