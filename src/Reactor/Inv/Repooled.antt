-- ===== src/Reactor/Inv/Repooled.antt =====
-- A fiber that is recycled goes back to the pool: `fiber_recycle` in src/cfiber/reactor/reactor.c.
use cfiber.Common.{
  ℕ, ◌+◌, ◌≡◌, ◌∙◌, ap, arith, Bool, Option, none, some, ◌==◌, one_if, Bool-cases, inl, inr,
}
use cfiber.Memory.Backing.{Laws}
use cfiber.Memory.Multislab.{multislab_release}
use cfiber.Memory.Multislab.Views.{handed_out}
use cfiber.Memory.Multislab.Release.Outcome.{multislab_release-Released}
use cfiber.Memory.Multislab.Words.{handed_out_word}
use cfiber.Reactor.Timers.{write}
use cfiber.Reactor.State.{fb_free, fb_zombie, Os, Reactor}
use cfiber.Reactor.Owner.{is_this, fd_owner_get, detach_from, detach_fd}
use cfiber.Reactor.Pool.{live_unlink, release_stack, fiber_repool, fiber_recycle}
use cfiber.Reactor.Census.{is_used}
use cfiber.Reactor.Inv.{Inv}
use cfiber.Reactor.Inv.Recycle.{was}
use cfiber.Reactor.Inv.Detach.{detach_fd-Detached, detach_fd-Inv}
use cfiber.Reactor.Inv.Pooled.{Pooled, returned}

module _ {os : Os} (laws : Laws os.backing) (base : ℕ → ℕ → Bool) where
  detached-Pooled :
      (s : Reactor os) (f : ℕ) (r : Option ℕ)
      → Pooled laws base s
      → Pooled laws base (detach_from s f r)
  unfolding detach_from
  detached-Pooled s f none p = p
  detached-Pooled s f (some fd) p = elim (Bool-cases (is_this (fd_owner_get s fd) f)) [
    | inl mine ↦ rw mine (record { pool = p.pool; kept = p.kept; blocks = p.blocks })
    | inr other ↦ rw other (record { pool = p.pool; kept = p.kept; blocks = p.blocks })
  ]

  module _ (s : Reactor os) (f : ℕ) (p : Pooled laws base s)
      (was_dead : s.state f ≡ fb_zombie) where
    fewer : ℕ → ℕ
    fewer q = one_if (is_used (write s.state f fb_free q))

    one_more : (q : ℕ) → handed_out s.fibers q ≡ fewer q + one_if (q == f)
    unfolding fewer
    one_more q = elim (Bool-cases (q == f)) [
      | inl here ↦
          let e : q ≡ f = ground (arith, here) in
          let at_q = ap is_used (ap s.state e ∙ was_dead) in
          rw here (ground (arith, p.blocks q, at_q))
      | inr other ↦ rw other (ground (arith, p.blocks q))
    ]

    repooled-Pooled : Pooled laws base (fiber_repool (release_stack (live_unlink s f) f) f)
    unfolding fiber_repool release_stack live_unlink fewer
    repooled-Pooled =
        let (pool, kept, blocks) =
          returned laws base fewer f s.fibers s.memory
            (multislab_release os.backing s.fibers f s.memory) one_more
            (multislab_release-Released laws base s.fibers s.memory f p.pool p.kept (
              handed_out_word laws base s.fibers s.memory f p.pool (ground (arith, one_more f)))) in
        record { pool = pool; kept = kept; blocks = blocks }

  -- When the books are in order and the pool's blocks are the fibers in use, then after the fiber
  -- that has returned is recycled the blocks that the pool has handed out are again exactly the
  -- fibers in use.
  pub fiber_recycle-Pooled :
      (s : Reactor os) (f : ℕ)
      → Inv s
      → Pooled laws base s
      → s.zombie ≡ some f
      → Pooled laws base (fiber_recycle s f)
  unfolding fiber_recycle detach_fd
  fiber_recycle-Pooled s f inv p dead =
      let d = detach_fd-Detached s inv.owned f in
      repooled-Pooled (detach_fd s f) f (detached-Pooled s f (s.reg_fd f) p)
        (was (detach_fd s f) (detach_fd-Inv s f inv) f (d.books.same_zombie ∙ dead) d.let_go)
