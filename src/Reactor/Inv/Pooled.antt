-- ===== src/Reactor/Inv/Pooled.antt =====
-- The structs of the fibers in use are the blocks that the pool has handed out, and what
-- `spawn_locked` in src/cfiber/reactor/reactor.c comes to.
use cfiber.Common.{
  ℕ, ◌+◌, ◌^◌, ◌<◌, ◌≡◌, ◌⊎◌, ◌≢◌, arith, Bool, false, [], ◌∷◌, ◌++◌, Option, none, some, ◌==◌,
  one_if,
}
use cfiber.Memory.Backing.{Backing, Laws}
use cfiber.Memory.Multislab.{Multislab, multislab_alloc}
use cfiber.Memory.Multislab.Views.{handed_out}
use cfiber.Memory.Multislab.Invariant.{KeepsReserve}
use cfiber.Memory.Multislab.Release.Outcome.{Released, gave_back, ignored}
use cfiber.Memory.Multislab.Invariant
use cfiber.Stack.Fixed.{Stack}
use cfiber.Stack.Cache.{Cache, growable_stack_alloc}
use cfiber.Reactor.State.{fb_free, fb_ready, Os, Reactor}
use cfiber.Reactor.Command.{Handle}
use cfiber.Reactor.Pool.{wipe}
use cfiber.Reactor.Census.{is_used}
use cfiber.Reactor.Inv.{Inv}
use cfiber.Reactor.Inv.Same.{SameBooks}

-- What a pool is when block `f` is given back to it.
pub returned :
    {b : Backing} (laws : Laws b) (base : ℕ → ℕ → Bool) (blocks : ℕ → ℕ) (f : ℕ)
    (fibers : Multislab) (memory : b.State) (r : Multislab × b.State)
    → ((q : ℕ) → handed_out fibers q ≡ blocks q + one_if (q == f))
    → Released laws base fibers memory f r
    → Invariant.Inv laws base r.0 r.1 × KeepsReserve r.0 × ((q : ℕ) → handed_out r.0 q ≡ blocks q)
returned laws base blocks f fibers memory r more (gave_back out pool kept less) =
    (pool, kept, λ q. omega (arith, more q, less q))
returned laws base blocks f fibers memory r more (ignored none_out e) =
    absurd (ground (arith, more f, none_out))

module _ {os : Os} (laws : Laws os.backing) (base : ℕ → ℕ → Bool) where
  -- The pool is well formed, and the blocks that are handed out are the fibers in use.
  pub record Pooled (s : Reactor os) : Type 0 where
    pub pool : Invariant.Inv laws base s.fibers s.memory
    pub kept : KeepsReserve s.fibers
    pub blocks : (f : ℕ) → handed_out s.fibers f ≡ one_if (is_used (s.state f))

  -- What `spawn_locked` comes to.
  pub data Spawned (s : Reactor os) : Option Handle × Reactor os → Type 0 where
    -- no block, or no stack
    refused :
        (t : Reactor os)
        → Inv t
        → Pooled t
        → SameBooks s t
        → ((multislab_alloc os.backing s.fibers s.memory).0 ≡ none)
          ⊎ ((growable_stack_alloc os.mapper s.stacks s.maps).0.mem_base ≡ 0)
        → Spawned s (none, t)
    -- a handle that fits a fiber that was free, at the end of the queue, with the stack that it got
    started :
        (f : ℕ) (t : Reactor os)
        → Inv t
        → Pooled t
        → s.state f ≡ fb_free
        → t.state f ≡ fb_ready
        → ((g : ℕ) → g ≢ f → t.state g ≡ s.state g)
        → t.ready ≡ s.ready ++ (f ∷ [])
        → t.live ≡ f ∷ s.live
        → t.active ≡ s.active + 1
        → t.wake_pending f ≡ false
        → (multislab_alloc os.backing s.fibers s.memory).0 ≡ some f
        → t.stack f ≡ (growable_stack_alloc os.mapper s.stacks s.maps).0
        → (t.stack f).mem_base ≢ 0
        → Spawned s (some (record { fiber = some f; gen = t.generation f }), t)

  -- A block is got, for a fiber that was free.
  module _ (s : Reactor os) (inv : Inv s) (f : ℕ) (free : s.state f ≡ fb_free) (fibers : Multislab)
      (memory : os.backing.State) (pool : Invariant.Inv laws base fibers memory)
      (kept : KeepsReserve fibers)
      (one_more : (q : ℕ) → handed_out fibers q ≡ one_if (is_used (s.state q)) + one_if (q == f))
      (block : (multislab_alloc os.backing s.fibers s.memory).0 ≡ some f)
      (small : s.active + 1 < 2 ^ 31) where
    wiped : Reactor os
    wiped = wipe (record s { fibers = fibers; memory = memory }) f
