-- ===== src/Reactor/Wait.antt =====
-- The in-fiber calls of src/cfiber/reactor/reactor.c that park: `cfiber_ev_wait`, `cfiber_ev_sleep`
-- and `cfiber_ev_wait_async`; and `cfiber_ev_close`. `f` is the running fiber.
use cfiber.Common.{
  ℕ, ◌+◌, ◌-◌, ◌^◌, Bool, true, false, ◌&&◌, ◌||◌, Option, none, some, ◌==◌, ◌!=◌, if◌then◌else◌,
  bit_and,
}
use cfiber.Reactor.Timers.{write, timer_add}
use cfiber.Reactor.Time.{deadline_after}
use cfiber.Reactor.State.{
  is_parked, ParkKind, park_fd, park_timer, park_async, Status, ev_ready, ev_cancelled, ev_error,
  Errno, einval, enomem, Os, Reactor, park_current,
}
use cfiber.Reactor.Owner.{detach_fd, unpark, fd_owner_get, is_this, arm_fd}

-- What a call comes to: it returns at once, or the fiber has parked and the loop goes on. Then the
-- call returns, later, the status that wakes the fiber.
pub data Call (os : Os) : Type 0 where
  answers : Status → Option Errno → Reactor os → Call os
  parks : Reactor os → Call os

-- `deadline_after` of a time that is read now.
unfoldable pub deadline_from : {os : Os} → Reactor os → ℕ → ℕ × Reactor os
deadline_from {os} s ns =
    let (now, k) = os.now_ns s.kernel in (deadline_after now ns, record s { kernel = k })

-- `timer_add` for the fiber, with what the rest of the reactor becomes.
unfoldable pub set_timer : {os : Os} → Reactor os → ℕ → ℕ → Bool × Reactor os
unfolding deadline_from
set_timer {os} s f ns =
    let (deadline, s1) = deadline_from s ns in
    let (ok, timers) = timer_add (os.realloc s1.kernel) s1.timers f deadline in
    (ok, record s1 { timers = timers })

-- A timeout that is negative sets no timer.
unfoldable pub set_timeout : {os : Os} → Reactor os → ℕ → Option ℕ → Bool × Reactor os
unfolding set_timer
set_timeout s f none = (true, s)
set_timeout s f (some ns) = set_timer s f ns

-- `CFIBER_EV_IN` and `CFIBER_EV_OUT`, `EPOLLIN` and `EPOLLOUT`
abbrev pub ev_in : ℕ
ev_in = 1

abbrev pub ev_out : ℕ
ev_out = 2

abbrev pub epoll_in : ℕ
epoll_in = 1

abbrev pub epoll_out : ℕ
epoll_out = 4

abbrev pub events_of : ℕ → ℕ
events_of direction =
    (if bit_and direction ev_in != 0 then epoll_in else 0)
    + (if bit_and direction ev_out != 0 then epoll_out else 0)

-- `direction == 0 || (direction & ~(CFIBER_EV_IN | CFIBER_EV_OUT)) != 0`
abbrev pub bad_direction : ℕ → Bool
bad_direction direction = direction == 0 || bit_and direction (2 ^ 32 - 1 - (ev_in + ev_out)) != 0

-- `cfiber_ev_wait` with the descriptor armed: from the timer on.
unfoldable pub wait_timed : {os : Os} → ℕ → ℕ → Bool × Reactor os → Call os
wait_timed f fd (false, s) = answers ev_error (some enomem) (detach_fd s f)
wait_timed f fd (true, s) =
    parks (park_current (record s { wait_fd = write s.wait_fd f (some fd) }) f park_fd)

unfoldable pub wait_armed :
    {os : Os} → ℕ → Option ℕ → Option ℕ → Option Errno × Reactor os → Call os
unfolding set_timeout wait_timed
wait_armed f fd timeout (some e, s) = answers ev_error (some e) s
wait_armed f none timeout (none, s) = answers ev_error none s
wait_armed f (some fd) timeout (none, s) = wait_timed f fd (set_timeout s f timeout)

unfoldable pub ev_wait : {os : Os} → Reactor os → ℕ → Option ℕ → ℕ → Option ℕ → Call os
unfolding wait_armed
ev_wait s f fd direction timeout =
    if bad_direction direction
    then answers ev_error (some einval) s
    else wait_armed f fd timeout (arm_fd s f fd (events_of direction))

-- `f->wait_fd = -1`, after the fiber is back.
unfoldable pub after_wait : {os : Os} → Reactor os → ℕ → Reactor os
after_wait s f = record s { wait_fd = write s.wait_fd f none }

unfoldable pub park_timed : {os : Os} → ℕ → ParkKind → Bool × Reactor os → Call os
park_timed f kind (false, s) = answers ev_error (some enomem) s
park_timed f kind (true, s) = parks (park_current s f kind)

unfoldable pub ev_sleep : {os : Os} → Reactor os → ℕ → ℕ → Call os
unfolding set_timer park_timed
ev_sleep s f ns = park_timed f park_timer (set_timer s f ns)

-- A wake that came before the park is used up.
unfoldable pub ev_wait_async : {os : Os} → Reactor os → ℕ → Option ℕ → Call os
unfolding set_timeout park_timed
ev_wait_async s f timeout =
    if s.wake_pending f
    then answers ev_ready none (record s { wake_pending = write s.wake_pending f false })
    else park_timed f park_async (set_timeout s f timeout)

-- With the holder of the descriptor, if it has one.
unfoldable pub close_held : {os : Os} → Reactor os → ℕ → Option ℕ → Reactor os
close_held s fd none = s
close_held s fd (some holder) =
    if is_parked (s.state holder) && is_this (s.wait_fd holder) fd
    then unpark s holder ev_cancelled
    else detach_fd s holder

unfoldable pub drop_fd : {os : Os} → Reactor os → Option ℕ → Reactor os
unfolding close_held
drop_fd s none = s
drop_fd s (some fd) = close_held s fd (fd_owner_get s fd)

unfoldable pub ev_close : {os : Os} → Reactor os → Option ℕ → Bool × Reactor os
unfolding drop_fd
ev_close {os} s fd =
    let s1 = drop_fd s fd in let (ok, k) = os.close fd s1.kernel in (ok, record s1 { kernel = k })
