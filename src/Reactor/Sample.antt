-- ===== src/Reactor/Sample.antt =====
-- A reactor for the tests: fiber 20 runs, 21 waits for descriptor 5 with a timer, 22 is queued.
use cfiber.Common.{
  ℕ, ◌+◌, ◌<◌, ◌≡◌, sym, refl, ap, arith, true, false, [], ◌∷◌, Option, none, some, ◌==◌, one_if,
  if◌then◌else◌, Bool-cases, inl, inr,
}
use cfiber.Memory.Multislab.Lifetime.{initial}
use cfiber.Memory.Backing.Arena.{arena}
use cfiber.Stack.Growable.{Mapper, no_stack}
use cfiber.Reactor.Timers.{Timers}
use cfiber.Reactor.Timers.Heap.{armed}
use cfiber.Reactor.State.{
  FiberState, fb_free, fb_ready, fb_running, fb_parked, is_parked, is_ready, park_fd, ev_ready,
  ctl_ok, Os, Reactor,
}
use cfiber.Reactor.Census.{count, is_used}
use cfiber.Reactor.Inv.{is_running, is_zombie, points_to, Inv}

-- Mappings are handed out one behind the other, and never fail.
abbrev pub mapper : Mapper
mapper = record {
  State = ℕ;
  page_size = 4096;
  mmap = λ n next. (some next, next + n);
  mprotect_none = λ a n next. (true, next);
  munmap = λ a n next. next;
  madvise = λ a n next. next;
}

-- A kernel that is its clock, and where every call succeeds.
abbrev pub kind_os : Os
kind_os = record {
  Kernel = ℕ;
  epoll_ctl = λ op fd events f k. (ctl_ok, k);
  close = λ fd k. (true, k);
  now_ns = λ k. (k, k);
  realloc = λ k n. true;
  backing = arena;
  mapper = mapper;
}

abbrev state_of : ℕ → FiberState
state_of f =
    if f == 20
    then fb_running
    else if f == 21
    then fb_parked
    else if f == 22
    then fb_ready
    else fb_free

abbrev timer_of : ℕ → Option ℕ
timer_of f = if f == 21 then some 0 else none

abbrev fd_of : ℕ → Option ℕ
fd_of f = if f == 21 then some 5 else none

abbrev holder_of : ℕ → Option ℕ
holder_of fd = if fd == 5 then some 21 else none

abbrev timers : Timers
timers = record {
  heap = λ k. 21;
  heap_len = 1;
  heap_cap = 16;
  deadline_ns = λ f. 700;
  timer_i = timer_of;
}

-- At time 500.
abbrev pub sample : Reactor kind_os
sample = record {
  kernel = 500;
  memory = record { next = 4096; live = [] };
  maps = 65536;
  current = some 20;
  zombie = none;
  ready = 22 ∷ [];
  live = 20 ∷ 21 ∷ 22 ∷ [];
  fibers = initial 64 2 2 0;
  stacks = record {
    max_stack_size = 8192;
    total_size = 12288;
    cache = [];
    cache_capacity = 4;
    active_count = 3;
  };
  timers = timers;
  fd_owner = holder_of;
  fd_owner_cap = 64;
  active = 3;
  blocked = 1;
  stack = λ f. no_stack;
  state = state_of;
  park = λ f. park_fd;
  wake_pending = λ f. false;
  generation = λ f. 7;
  reg_fd = fd_of;
  wait_fd = fd_of;
  wait_status = λ f. ev_ready;
}

-- What holds of the three fibers and of every other holds of all.
all_fibers :
    {P : ℕ → Type 0}
    → P 20
    → P 21
    → P 22
    → ((f : ℕ)
        → (20 == f) ≡ false
        → (21 == f) ≡ false
        → (22 == f) ≡ false
        → (f == 20) ≡ false
        → (f == 21) ≡ false
        → (f == 22) ≡ false
        → P f)
    → (f : ℕ) → P f
all_fibers {P} a b c d f = elim (Bool-cases (f == 20)) [
  | inl e ↦ let q : 20 ≡ f = ground (arith, e) in rw q at (a)
  | inr no0 ↦ elim (Bool-cases (f == 21)) [
    | inl e ↦ let q : 21 ≡ f = ground (arith, e) in rw q at (b)
    | inr no1 ↦ elim (Bool-cases (f == 22)) [
      | inl e ↦ let q : 22 ≡ f = ground (arith, e) in rw q at (c)
      | inr no2 ↦ d f (ground (arith, no0)) (ground (arith, no1)) (ground (arith, no2)) no0 no1 no2
    ]
  ]
]

abbrev AllMarks : ℕ → Type 0
AllMarks f =
    (count f sample.ready ≡ one_if (is_ready (state_of f)))
    × (count f sample.live ≡ one_if (is_used (state_of f)))
    × (is_running (state_of f) ≡ points_to (some 20) f)
    × (is_zombie (state_of f) ≡ false)

sample_marks : (f : ℕ) → AllMarks f
sample_marks =
    all_fibers {P = AllMarks} (refl, refl, refl, refl) (refl, refl, refl, refl)
      (refl, refl, refl, refl)
      (λ f a b c no0 no1 no2. rw (a, b, c, no0, no1, no2) (refl, refl, refl, refl))

only_timer : (f k : ℕ) → timer_of f ≡ some k → (k < 1) × (21 ≡ f)
only_timer f k e = elim (Bool-cases (f == 21)) [
  | inl is21 ↦
      let q : some 0 ≡ some k = rw is21 at (e) in
      let q' : 0 ≡ k = cc (q) in (omega (arith, q'), ground (arith, is21))
  | inr other ↦ let bad : none ≡ some k = rw other at (e) in absurd (cc (bad))
]

only_fd : (f fd : ℕ) → fd_of f ≡ some fd → (21 ≡ f) × (5 ≡ fd)
only_fd f fd e = elim (Bool-cases (f == 21)) [
  | inl is21 ↦ let q : some 5 ≡ some fd = rw is21 at (e) in (ground (arith, is21), cc (q))
  | inr other ↦ let bad : none ≡ some fd = rw other at (e) in absurd (cc (bad))
]

only_holder : (fd f : ℕ) → holder_of fd ≡ some f → (21 ≡ f) × (5 ≡ fd)
only_holder fd f e = elim (Bool-cases (fd == 5)) [
  | inl is5 ↦ let q : some 21 ≡ some f = rw is5 at (e) in (cc (q), ground (arith, is5))
  | inr other ↦ let bad : none ≡ some f = rw other at (e) in absurd (cc (bad))
]

waiting : (f : ℕ) → armed (timer_of f) ≡ true → is_parked (state_of f) ≡ true
waiting f on = elim (Bool-cases (f == 21)) [
  | inl is21 ↦ let q : 21 ≡ f = ground (arith, is21) in rw (sym q) refl
  | inr other ↦ let bad : false ≡ true = rw other at (on) in absurd (cc (bad))
]

pub sample-Inv : Inv sample
sample-Inv = record {
  counted = record {
    queued = λ f. (sample_marks f).0;
    listed = λ f. (sample_marks f).1;
    parked = refl;
    running = refl;
    is_current = λ f. (sample_marks f).2;
    is_dead = λ f. (sample_marks f).3;
  };
  timed = record {
    heap = record {
      indexed = record {
        places = λ k lt. let first : 0 ≡ k = omega (arith, lt) in ap some first;
        inside = only_timer;
      };
      order = λ k pos lt. absurd (omega (arith, pos, lt));
    };
    waiting = waiting;
  };
  owned = record {
    in_map = λ f fd e. let (a, b) = only_fd f fd e in rw (sym a, sym b) refl;
    in_fiber = λ fd f e. let (a, b) = only_holder fd f e in rw (sym a, sym b) refl;
    in_range = λ fd f e. let (a, b) = only_holder fd f e in omega (arith, b);
    by_used = λ f fd e. let (a, b) = only_fd f fd e in rw (sym a) refl;
  };
}
