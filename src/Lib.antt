-- ===== src/Lib.antt =====
-- cfiber: a library of stackful fibers in C. This development models the memory that fibers live in,
-- the slab allocator and the multislab allocator that chains slabs and gives empty ones back, the
-- scheduler, which takes every task and every stack from a multislab and runs the fibers in turn, and
-- the reactor, whose fibers park for descriptors, timers and wakes while its loop polls.
--
-- The files and the code
--   Common            notation, Boolean tests, lists, numbers and bits shared by all parts
--   Core              include/cfiber/core/macros.h and src/cfiber/core/internal.h: the constants of a
--                     64-bit host, the wrap-around of uint32_t and uint64_t, align_up
--   Memory/Slab       src/cfiber/memory/slab_alloc.c with include/cfiber/memory/slab_alloc.h.
--                     cfiber_slab_t is the record Slab, the bitmap a list of 64-bit words. Each
--                     function takes the slab and returns the result with the new slab. The word
--                     scan of bitmap_find_free recurses on the number of words left, so it ends;
--                     __builtin_ctzll is ctz, by clauses.
--   Memory/Backing    the callbacks mem_alloc and mem_free, as a parameter: a state with two functions
--                     and the laws that malloc and free document. Backing/Arena is one that keeps them.
--   Memory/Multislab  src/cfiber/memory/multislab_alloc.c with include/cfiber/memory/multislab_alloc.h.
--                     The two intrusive lists of nodes are lists in the order of the next links; a
--                     pointer to a node is its place in its list. The state of the backing allocator
--                     is passed along. The loop over the active slabs recurses on their list; the
--                     destructor recurses on both.
--   Stack/Fixed       include/cfiber/stack/stack.h and src/cfiber/stack/fixed_size_stack_allocator.c: a
--                     stack is a block of a multislab.
--   Scheduler         src/cfiber/scheduler/scheduler.c with include/cfiber/scheduler/scheduler.h. A fiber
--                     is the tree of the calls that its entry function makes: return, yield, spawn. The
--                     time between the loop's switch to a fiber and the switch back is `resume`, which
--                     recurses on that tree. The loop has fuel; Scheduler/Finish says how much is enough.
--   Reactor/Timers    the timer heap of src/cfiber/reactor/reactor.c. Its array is a function from
--                     places to fibers, and the fields deadline_ns and timer_i are functions of the
--                     fiber. The sift loops have as fuel the places that they can pass, which the proofs
--                     of order show to be enough.
--
--   Stack/Growable    src/cfiber/stack/growable_stack.c, with the system calls as the parameter Mapper.
--   Stack/Cache       src/cfiber/stack/growable_stack_allocator.c: the cache of mapped stacks as a list.
--
--   The other modules of Reactor are about src/cfiber/reactor/reactor.c too.
--   Reactor/Time      deadlines and timeouts, on the time that the clock gives.
--   Reactor/State     the record Reactor: cfiber_reactor_t with the fields of struct
--                     cfiber_reactor_fiber, each a function of the fiber's address; the parameter Os:
--                     epoll_ctl, close, the clock, realloc, the backing of the pool and the system calls
--                     of the stacks; the ready queue, and the switches up to the switch itself.
--   Reactor/Owner     fd_owner, detach_fd, arm_fd, unpark.
--   Reactor/Wait      cfiber_ev_wait, cfiber_ev_sleep, cfiber_ev_wait_async, cfiber_ev_close. A call
--                     answers at once or parks; `f` is the running fiber.
--   Reactor/Command   apply_cmd, and the wakes and cancels on the loop's thread.
--   Reactor/Pool      the pool of fibers, spawn_locked, fiber_recycle.
--   Reactor/Expire    fire_expired_timers, with the number of timers as fuel.
--   Reactor/Loop      cfiber_reactor_run. The code of a fiber is a parameter, what becomes of the reactor
--                     from the switch to it until control is back on the loop; Loop/Round says what it
--                     has to keep to. A round with fuel for the fibers that are ready at its start, or
--                     more, is whole; the loop has fuel for its rounds, since a fiber may run for ever.
--   Reactor/Stream    cfiber_ev_read, write, accept and connect for one descriptor, on fuel. The system
--                     calls and the wait, with what other fibers do meanwhile, are the parameter Io.
--                     Stream/Write says how much fuel is enough for a write.
--   Reactor/Create    cfiber_reactor_create, a function for each call that can fail; the calls of the
--                     system are the parameter Sys.
--   Reactor/Inv       when the books of a reactor agree, and that each operation keeps them; Reactor/Census
--                     counts the fibers by their state.
--   Reactor/Sample    a reactor for the tests.
--
-- What the results speak of
--   A slab is valid when its sizes are in range, its bitmap has eight words below 2^64, and its blocks
--   end below 2^64. A multislab is valid when every node is, the lists agree with the full flags and
--   with the counters, the slab limit holds, and the regions that its nodes stand on are held from the
--   backing allocator, each once. A block is handed out when its bit is set in the slab it lies in.
--
--   The books of a reactor are in order when exactly the ready fibers are queued, once each; the live
--   list holds the fibers in use; the counters count them; the timers are a heap, and only parked
--   fibers have one; the descriptor map and the fibers agree; and current and zombie are the running
--   fiber and the one that has returned. The system grants what it is asked for when realloc always
--   has memory and epoll_ctl always registers.
--
-- Bounds
--   Addresses and sizes are numbers below 2^64, and each machine operation keeps its wrap-around. The
--   hypotheses on sizes are those of an address space that does not wrap.
--
-- Builds
--   An ASSERT is absent, as under NDEBUG: where one would fail, the code runs on into its error return.
--   The run-time checks of CFIBER_DEFENSIVE are a Boolean argument of slab_release; a multislab is that of
--   the build with them.
--   AddressSanitizer's redzone and the stack sanitizer are off.
--
-- Not modelled
--   The command ring between threads of the reactor, with cfiber_reactor_wake and cfiber_reactor_cancel
--   from another thread: an event of the control channel comes with the commands.
--   cfiber_reactor_destroy.
--   The thread-local current scheduler and reactor, and the nesting of runs.
--   The context switch and the prologues of a fiber (assembly), the annotations for sanitizers, system
--   calls, tests, fuzz targets and the start-up code for Cortex-M.
pub mod Common
pub mod Core
pub mod Memory
pub mod Reactor
pub mod Scheduler
pub mod Stack
