-- ===== src/Reactor/State.antt =====
-- The state of the reactor of src/cfiber/reactor/reactor.c: the reactor, its fibers, and the kernel's
-- side of it.
-- A fiber is known by the address of its struct, and a field of the fibers is a function of it. The
-- ready queue and the list of live fibers are lists in the order of their links. A C `int` that
-- stands for a descriptor is `none` when it is negative.
use cfiber.Common.{ℕ, ◌+◌, ◌-◌, Bool, true, false, List, [], ◌∷◌, ◌++◌, Option, none, some}
use cfiber.Memory.Backing.{Backing}
use cfiber.Memory.Multislab.{Multislab}
use cfiber.Stack.Fixed.{Stack}
use cfiber.Stack.Growable.{Mapper}
use cfiber.Stack.Cache.{Cache}
use cfiber.Reactor.Timers.{Timers, write}

-- `fiber_state_t`
pub data FiberState : Type 0 where
  fb_free fb_ready fb_running fb_parked fb_zombie : FiberState

abbrev pub is_parked : FiberState → Bool
is_parked fb_parked = true
is_parked _ = false

abbrev pub is_ready : FiberState → Bool
is_ready fb_ready = true
is_ready _ = false

-- `park_kind_t`
pub data ParkKind : Type 0 where
  park_fd park_timer park_async : ParkKind

abbrev pub is_async : ParkKind → Bool
is_async park_async = true
is_async _ = false

-- `cfiber_ev_status_t`
pub data Status : Type 0 where
  ev_ready ev_timeout ev_cancelled ev_error : Status

-- The operations of `epoll_ctl`, and what it answers.
pub data CtlOp : Type 0 where
  ctl_add ctl_mod ctl_del : CtlOp

pub data CtlResult : Type 0 where
  ctl_ok ctl_enoent ctl_eexist ctl_failed : CtlResult

-- `errno`, as far as the reactor sets it; `from_kernel` is left by a system call.
pub data Errno : Type 0 where
  ebadf enomem ebusy einval eagain eio ecanceled etimedout from_kernel : Errno

-- What the reactor calls: the operating system and the C library. `realloc` says whether there is
-- memory for so many bytes, and `now_ns` is the monotonic clock.
pub record Os : Type 1 where
  pub Kernel : Type 0
  pub epoll_ctl : CtlOp → ℕ → ℕ → ℕ → Kernel → CtlResult × Kernel
  pub close : Option ℕ → Kernel → Bool × Kernel
  pub now_ns : Kernel → ℕ × Kernel
  pub realloc : Kernel → ℕ → Bool
  pub backing : Backing
  pub mapper : Mapper

-- `cfiber_reactor_t` with the fields of its fibers. `active` and `blocked` are of type `int` there: a
-- spawn counts `active` up on 32 bits, and `blocked` counts the parked fibers among them. The command ring is in Reactor/Ring.
pub record Reactor (os : Os) : Type 0 where
  pub kernel : os.Kernel
  pub memory : os.backing.State
  pub maps : os.mapper.State
  pub current : Option ℕ
  pub zombie : Option ℕ
  pub ready : List ℕ
  pub live : List ℕ
  pub fibers : Multislab
  pub stacks : Cache
  pub timers : Timers
  pub fd_owner : ℕ → Option ℕ
  pub fd_owner_cap : ℕ
  pub active : ℕ
  pub blocked : ℕ
  -- `struct cfiber_reactor_fiber`
  pub stack : ℕ → Stack
  pub state : ℕ → FiberState
  pub park : ℕ → ParkKind
  pub wake_pending : ℕ → Bool
  pub generation : ℕ → ℕ
  pub reg_fd : ℕ → Option ℕ
  pub wait_fd : ℕ → Option ℕ
  pub wait_status : ℕ → Status

unfoldable pub enqueue : {os : Os} → Reactor os → ℕ → Reactor os
enqueue s f = record s { ready = s.ready ++ (f ∷ []); state = write s.state f fb_ready }

-- The ready queue in two, `ready_head` and what is behind it.
unfoldable pub dequeue_from : {os : Os} → Reactor os → List ℕ → Option ℕ × Reactor os
dequeue_from s [] = (none, s)
dequeue_from s (f ∷ rest) = (some f, record s { ready = rest })

unfoldable pub dequeue : {os : Os} → Reactor os → Option ℕ × Reactor os
unfolding dequeue_from
dequeue s = dequeue_from s s.ready

-- `enter_fiber`, up to the switch.
unfoldable pub enter_fiber : {os : Os} → Reactor os → ℕ → Reactor os
enter_fiber s f = record s { current = some f; state = write s.state f fb_running }

-- `reactor_return_hook`, up to the switch, for the current fiber.
unfoldable pub return_hook_of : {os : Os} → Reactor os → ℕ → Reactor os
return_hook_of s dead = record s {
  current = none;
  zombie = some dead;
  state = write s.state dead fb_zombie;
  active = s.active - 1;
}

unfoldable pub resume_as : {os : Os} → Reactor os → ℕ → Status → FiberState → Reactor os
unfolding enqueue
resume_as s f status fb_parked =
    enqueue (record s { wait_status = write s.wait_status f status; blocked = s.blocked - 1 }) f
resume_as s f status _ = s

unfoldable pub resume : {os : Os} → Reactor os → ℕ → Status → Reactor os
unfolding resume_as
resume s f status = resume_as s f status (s.state f)

-- `park_current`, up to the switch, for the current fiber.
unfoldable pub park_current : {os : Os} → Reactor os → ℕ → ParkKind → Reactor os
park_current s f kind = record s {
  park = write s.park f kind;
  state = write s.state f fb_parked;
  wait_status = write s.wait_status f ev_ready;
  blocked = s.blocked + 1;
  current = none;
}

-- `cfiber_ev_yield`, up to the switch.
unfoldable pub ev_yield : {os : Os} → Reactor os → ℕ → Reactor os
unfolding enqueue
ev_yield s cur = enqueue (record s { current = none }) cur
