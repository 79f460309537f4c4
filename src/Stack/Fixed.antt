-- ===== src/Stack/Fixed.antt =====
-- include/cfiber/stack/stack.h, and the fixed size stacks of
-- src/cfiber/stack/fixed_size_stack_allocator.c, each a block of a multislab. This is the build
-- without AddressSanitizer, whose redzone has then no bytes, and without the stack sanitizer.
use cfiber.Common.{ℕ, ◌+◌, Bool, true, ◌&&◌, Option, none, some, ◌!=◌}
use cfiber.Core.{u64, sub64}
use cfiber.Memory.Backing.{Backing}
use cfiber.Memory.Multislab.{Multislab, multislab_alloc, multislab_release}

-- `cfiber_stack_t`
pub record Stack : Type 0 where
  pub mem_base : ℕ
  pub usable_base : ℕ
  pub stack_top : ℕ
  pub total_size : ℕ

abbrev pub stack_is_valid : Stack → Bool
stack_is_valid stack =
    stack.mem_base != 0 && stack.usable_base != 0 && stack.stack_top != 0 && stack.total_size != 0

abbrev pub stack_usable_size : Stack → ℕ
stack_usable_size stack = sub64 stack.stack_top stack.usable_base

module _ (b : Backing) where
  -- From the result of `cfiber_multislab_alloc` on; -1 is `none`.
  abbrev pub stack_at : Option ℕ × Multislab × b.State → Option Stack × Multislab × b.State
  stack_at (none, ms, st) = (none, ms, st)
  stack_at (some mem, ms, st) = (
    some (record {
      mem_base = mem;
      usable_base = mem;
      stack_top = u64 (mem + ms.block_size);
      total_size = ms.block_size;
    }),
    ms,
    st,
  )

  unfoldable pub fixed_stack_alloc : Multislab → b.State → Option Stack × Multislab × b.State
  fixed_stack_alloc ms st = stack_at (multislab_alloc b ms st)

  -- No overflow is found.
  unfoldable pub fixed_stack_release : Stack → Multislab → b.State → Bool × Multislab × b.State
  fixed_stack_release stack ms st =
      let (ms1, st1) = multislab_release b ms stack.mem_base st in (true, ms1, st1)
