-- ===== src/Stack/Examples.antt =====
-- One stack goes back to an empty cache and comes out again.
use cfiber.Common.{ℕ, ◌+◌, ◌≡◌, arith, true, [], some}
use cfiber.Stack.Fixed.{Stack}
use cfiber.Stack.Growable.{Mapper}
use cfiber.Stack.Cache.{
  Cache, growable_stack_alloc, growable_stack_release, growable_stack_release-alloc,
}

abbrev mapper : Mapper
mapper = record {
  State = ℕ;
  page_size = 4096;
  mmap = λ n next. (some next, next + n);
  mprotect_none = λ a n next. (true, next);
  munmap = λ a n next. next;
  madvise = λ a n next. next;
}

abbrev one_out : Cache
one_out = record {
  max_stack_size = 8192;
  total_size = 12288;
  cache = [];
  cache_capacity = 4;
  active_count = 1;
}

abbrev stack : Stack
stack = record { mem_base = 65536; usable_base = 69632; stack_top = 77824; total_size = 12288 }

growable_stack_release-alloc_example :
    let r = growable_stack_release mapper one_out stack 77824 in
    growable_stack_alloc mapper r.0 r.1 ≡ (stack, one_out, r.1)
growable_stack_release-alloc_example =
    growable_stack_release-alloc mapper one_out stack 77824 (omega arith) (omega arith)
      (omega arith) (omega arith)
