-- ===== src/Stack/Growable.antt =====
-- The demand-paged stacks of src/cfiber/stack/growable_stack.c. The system calls are a parameter.
use cfiber.Common.{
  ℕ, ◌+◌, ◌-◌, ◌^◌, Bool, true, false, ◌||◌, Option, none, some, ltb, leb, ◌==◌, ◌!=◌,
  if◌then◌else◌, bit_and,
}
use cfiber.Core.{u64, sub64}
use cfiber.Stack.Fixed.{Stack, stack_usable_size}

-- The system calls, on a state of the address space. `sysconf` answers 0 when it fails; `mmap` of
-- so many bytes answers `none` then.
pub record Mapper : Type 1 where
  pub State : Type 0
  pub page_size : ℕ
  pub mmap : ℕ → State → Option ℕ × State
  pub mprotect_none : ℕ → ℕ → State → Bool × State
  pub munmap : ℕ → ℕ → State → State
  pub madvise : ℕ → ℕ → State → State

-- `(cfiber_stack_t){}`, the descriptor of no stack.
abbrev pub no_stack : Stack
no_stack = record { mem_base = 0; usable_base = 0; stack_top = 0; total_size = 0 }

module _ (m : Mapper) where
  open m use {State, page_size, mmap, mprotect_none, munmap, madvise}

  -- With the mapping there: from `mprotect` on.
  unfoldable pub guard_stack : ℕ → ℕ → Bool × State → Stack × State
  guard_stack vma total (false, st) = (no_stack, munmap vma total st)
  guard_stack vma total (true, st) = (
    record {
      mem_base = vma;
      usable_base = u64 (vma + page_size);
      stack_top = u64 (vma + total);
      total_size = total;
    },
    st,
  )

  -- From the result of `mmap` on.
  unfoldable pub map_stack : ℕ → Option ℕ × State → Stack × State
  unfolding guard_stack
  map_stack total (none, st) = (no_stack, st)
  map_stack total (some vma, st) = guard_stack vma total (mprotect_none vma page_size st)

  unfoldable pub growable_stack_create : ℕ → State → Stack × State
  unfolding map_stack
  growable_stack_create max_size st =
      if page_size == 0
      then (no_stack, st)
      else if max_size == 0
          || bit_and max_size (page_size - 1) != 0
          || ltb (2 ^ 64 - 1 - page_size) max_size
      then (no_stack, st)
      else map_stack (u64 (max_size + page_size)) (mmap (u64 (max_size + page_size)) st)

  unfoldable pub growable_stack_destroy : Stack → State → Stack × State
  growable_stack_destroy stack st = (no_stack, munmap stack.mem_base stack.total_size st)

  unfoldable pub growable_stack_recycle : Stack → State → State
  growable_stack_recycle stack st =
      if page_size == 0 || leb (stack_usable_size stack) page_size
      then st
      else madvise stack.usable_base (sub64 (stack_usable_size stack) page_size) st
