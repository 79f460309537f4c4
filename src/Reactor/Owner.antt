-- ===== src/Reactor/Owner.antt =====
-- Which fiber holds which descriptor, in src/cfiber/reactor/reactor.c: the map from descriptors to
-- fibers, and the kernel's set of registrations.
use cfiber.Common.{
  ℕ, ◌+◌, ◌*◌, ◌^◌, bit_or, Bool, true, false, ◌&&◌, Option, none, some, ltb, leb, ◌==◌, ◌!=◌,
  if◌then◌else◌,
}
use cfiber.Core.{u64}
use cfiber.Reactor.Timers.{write, grow_cap, timer_remove}
use cfiber.Reactor.State.{
  is_parked, Status, ctl_add, ctl_mod, ctl_del, CtlResult, ctl_ok, ctl_enoent, ctl_eexist,
  ctl_failed, Errno, ebadf, enomem, ebusy, from_kernel, Os, Reactor, resume,
}

abbrev pub fd_owner_init_cap : ℕ
fd_owner_init_cap = 64

-- The new entries are zeroed. The loop is that of `heap_reserve`.
unfoldable pub fd_owner_reserve : {os : Os} → Reactor os → ℕ → Bool × Reactor os
fd_owner_reserve {os} s fd =
    let need = u64 (fd + 1) in
    let start = if s.fd_owner_cap == 0 then fd_owner_init_cap else s.fd_owner_cap in
    let cap = grow_cap need need start in
    if leb need s.fd_owner_cap
    then (true, s)
    else if os.realloc s.kernel (u64 (cap * 8))
    then (
      true,
      record s {
        fd_owner = λ j. if ltb j s.fd_owner_cap then s.fd_owner j else none;
        fd_owner_cap = cap;
      },
    )
    else (false, s)

unfoldable pub fd_owner_get : {os : Os} → Reactor os → ℕ → Option ℕ
fd_owner_get s fd = if ltb fd s.fd_owner_cap then s.fd_owner fd else none

-- `a == b` on pointers that may be null, and on descriptors.
abbrev pub is_this : Option ℕ → ℕ → Bool
is_this none b = false
is_this (some a) b = a == b

-- From the field `reg_fd` on.
unfoldable pub detach_from : {os : Os} → Reactor os → ℕ → Option ℕ → Reactor os
unfolding fd_owner_get
detach_from s f none = s
detach_from {os} s f (some fd) =
    let s1 = record s { reg_fd = write s.reg_fd f none } in
    if is_this (fd_owner_get s1 fd) f
    then record s1 {
      fd_owner = write s.fd_owner fd none;
      kernel = (os.epoll_ctl ctl_del fd 0 0 s.kernel).1;
    }
    else s1

unfoldable pub detach_fd : {os : Os} → Reactor os → ℕ → Reactor os
unfolding detach_from
detach_fd s f = detach_from s f (s.reg_fd f)

unfoldable pub unpark : {os : Os} → Reactor os → ℕ → Status → Reactor os
unfolding detach_fd
unpark s f status =
    let s1 = detach_fd s f in resume (record s1 { timers = timer_remove s1.timers f }) f status

-- The entry is there: `arm_fd` after a successful `epoll_ctl`.
unfoldable pub hold_fd : {os : Os} → Reactor os → ℕ → ℕ → Reactor os
hold_fd s f fd = record s {
  fd_owner = write s.fd_owner fd (some f);
  reg_fd = write s.reg_fd f (some fd);
}

-- Both attempts have failed: the state is unknown.
unfoldable pub forget_fd : {os : Os} → Reactor os → ℕ → ℕ → Reactor os
forget_fd s f fd = record s { fd_owner = write s.fd_owner fd none; reg_fd = write s.reg_fd f none }

-- The second attempt of `arm_fd`.
unfoldable pub arm_again :
    {os : Os} → Reactor os → ℕ → ℕ → CtlResult × os.Kernel → Option Errno × Reactor os
unfolding hold_fd forget_fd
arm_again s f fd (ctl_ok, k) = (none, hold_fd (record s { kernel = k }) f fd)
arm_again s f fd (_, k) = (some from_kernel, forget_fd (record s { kernel = k }) f fd)

-- The result of the first.
unfoldable pub arm_first :
    {os : Os} → Reactor os → ℕ → ℕ → ℕ → CtlResult × os.Kernel → Option Errno × Reactor os
unfolding arm_again
arm_first s f fd events (ctl_ok, k) = (none, hold_fd (record s { kernel = k }) f fd)
arm_first {os} s f fd events (ctl_enoent, k) = arm_again s f fd (os.epoll_ctl ctl_add fd events f k)
arm_first {os} s f fd events (ctl_eexist, k) = arm_again s f fd (os.epoll_ctl ctl_mod fd events f k)
arm_first s f fd events (ctl_failed, k) =
    (some from_kernel, forget_fd (record s { kernel = k }) f fd)

-- With the holder of the descriptor: another fiber's entry is taken over, unless it waits.
unfoldable pub arm_held : {os : Os} → Reactor os → ℕ → ℕ → ℕ → Option ℕ → Option Errno × Reactor os
unfolding arm_first
arm_held {os} s f fd events none =
    arm_first s f fd events (os.epoll_ctl ctl_add fd events f s.kernel)
arm_held {os} s f fd events (some holder) =
    let s1 = if holder == f then s else record s { reg_fd = write s.reg_fd holder none } in
    if holder != f && is_parked (s.state holder) && is_this (s.wait_fd holder) fd
    then (some ebusy, s)
    else arm_first s1 f fd events (os.epoll_ctl ctl_mod fd events f s.kernel)

-- `EPOLLONESHOT`
abbrev pub epoll_oneshot : ℕ
epoll_oneshot = 2 ^ 30

-- With room for the descriptor in the map.
unfoldable pub arm_reserved : {os : Os} → Reactor os → ℕ → ℕ → ℕ → Option Errno × Reactor os
unfolding arm_held
arm_reserved s f fd events =
    let s1 = if is_this (s.reg_fd f) fd then s else detach_fd s f in
    arm_held s1 f fd (bit_or events epoll_oneshot) (s1.fd_owner fd)

-- 0 is `none`, and -1 the `errno` that it leaves.
unfoldable pub arm_fd : {os : Os} → Reactor os → ℕ → Option ℕ → ℕ → Option Errno × Reactor os
unfolding fd_owner_reserve arm_reserved
arm_fd s f none events = (some ebadf, s)
arm_fd s f (some fd) events =
    let (ok, s1) = fd_owner_reserve s fd in
    if ok then arm_reserved s1 f fd events else (some enomem, s1)
