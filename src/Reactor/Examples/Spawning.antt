-- ===== src/Reactor/Examples/Spawning.antt =====
-- A fiber's life in a reactor that had none: it is spawned, entered, returns and is recycled.
use cfiber.Common.{
  ℕ, ◌≡◌, ◌∙◌, sym, refl, arith, Bool, false, [], ◌∷◌, Option, none, some, ◌==◌, if◌then◌else◌,
  Bool-cases, inl, inr,
}
use cfiber.Common.Bits.{ctz}
use cfiber.Memory.Slab.{slab_init, slab_alloc, index_to_ptr}
use cfiber.Memory.Slab.Bitmap.{bitmap_find_free, bitmap_set}
use cfiber.Memory.Backing.Arena.{Arena, arena, arena_laws}
use cfiber.Memory.Multislab.Lifetime.{initial, initial-Inv}
use cfiber.Memory.Multislab.{Multislab, multislab_alloc}
use cfiber.Memory.Multislab.Alloc.Outcome.{Allocated, got, failed, multislab_alloc-Allocated}
use cfiber.Reactor.Timers.{write}
use cfiber.Reactor.State.{FiberState, fb_free, fb_zombie, is_ready, Reactor}
use cfiber.Reactor.Pool.{fiber_recycle}
use cfiber.Reactor.Census.{is_used}
use cfiber.Reactor.Inv.{is_running, is_zombie, Inv}
use cfiber.Reactor.Inv.Pooled.{Pooled}
use cfiber.Reactor.Inv.Repooled.{fiber_recycle-Pooled}
use cfiber.Reactor.Sample.{kind_os, sample}

abbrev arena0 : Arena
arena0 = record { next = 4096; live = [] }

abbrev nobody : ℕ → ℕ → Bool
nobody q m = false

abbrev blank : Reactor kind_os
blank = record sample {
  memory = arena0;
  current = none;
  ready = [];
  live = [];
  timers = record {
    heap = λ k. 0;
    heap_len = 0;
    heap_cap = 0;
    deadline_ns = λ f. 0;
    timer_i = λ f. none;
  };
  fd_owner = λ d. none;
  active = 0;
  blocked = 0;
  state = λ f. fb_free;
  reg_fd = λ f. none;
  wait_fd = λ f. none;
}

blank-Pooled : Pooled arena_laws nobody blank
blank-Pooled = record {
  pool =
      initial-Inv arena_laws arena0 64 2 2 0
        (record { aligned = omega arith; in_space = omega arith; below = tt }) (omega arith);
  kept = inl (omega arith);
  blocks = λ f. refl;
}

-- One fiber, in the pool's first block, which has returned.
abbrev got_block : Option ℕ × Multislab × Arena
got_block = multislab_alloc arena (initial 64 2 2 0) arena0

abbrev dead_one : Reactor kind_os
dead_one = record blank {
  fibers = got_block.1;
  memory = got_block.2;
  zombie = some 4224;
  live = 4224 ∷ [];
  state = write (λ f. fb_free) 4224 fb_zombie;
}

first_block : got_block.0 ≡ some 4224
unfolding multislab_alloc slab_init slab_alloc bitmap_find_free ctz index_to_ptr bitmap_set
first_block = refl

in_state :
    (test : FiberState → Bool) (f : ℕ)
    → test (dead_one.state f) ≡ (if f == 4224 then test fb_zombie else test fb_free)
in_state test f = elim (Bool-cases (f == 4224)) [ inl e ↦ rw e refl | inr e ↦ rw e refl ]

dead_one-Inv : Inv dead_one
dead_one-Inv = record {
  counted = record {
    queued = λ f. ground (arith, in_state is_ready f);
    listed = λ f. ground (arith, in_state is_used f);
    parked = refl;
    running = refl;
    is_current = λ f. ground (arith, in_state is_running f);
    is_dead = λ f. ground (arith, in_state is_zombie f);
  };
  timed = record {
    heap = record {
      indexed = record {
        places = λ k lt. absurd (omega (arith, lt));
        inside = λ f k e. absurd (cc (e));
      };
      order = λ k pos lt. absurd (omega (arith, lt));
    };
    waiting = λ f on. absurd (cc (on));
  };
  owned = record {
    in_map = λ f fd e. absurd (cc (e));
    in_fiber = λ fd f e. absurd (cc (e));
    in_range = λ fd f e. absurd (cc (e));
    by_used = λ f fd e. absurd (cc (e));
  };
}

dead_one-Pooled : Pooled arena_laws nobody dead_one
dead_one-Pooled = go (
    multislab_alloc-Allocated arena_laws nobody (initial 64 2 2 0) arena0 blank-Pooled.pool
      blank-Pooled.kept (omega arith))
  where
    go :
        Allocated arena_laws nobody (initial 64 2 2 0) arena0 got_block
        → Pooled arena_laws nobody dead_one
    go (got p e pool kept fresh more) = record {
      pool = pool;
      kept = kept;
      blocks = λ f.
          let here : p ≡ 4224 = (let q : some p ≡ some 4224 = sym e ∙ first_block in cc (q)) in
          ground (arith, more f, in_state is_used f, here);
    }
    go (failed e pool kept same no_active refusal) =
        (let bad : none ≡ some 4224 = sym e ∙ first_block in absurd (cc (bad)))

fiber_recycle-Pooled_example : Pooled arena_laws nobody (fiber_recycle dead_one 4224)
fiber_recycle-Pooled_example =
    fiber_recycle-Pooled arena_laws nobody dead_one 4224 dead_one-Inv dead_one-Pooled refl
