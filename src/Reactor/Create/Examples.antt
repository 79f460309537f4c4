-- ===== src/Reactor/Create/Examples.antt =====
-- A reactor is made, on a system that counts what is out.
use cfiber.Common.{ℕ, ◌+◌, ◌-◌, ◌<◌, ◌≡◌, refl, arith, true}
use cfiber.Reactor.Sample.{mapper}
use cfiber.Reactor.Create.{
  Thing, the_struct, ring_cells, epoll_fd, event_fd, share, Sys, ReactorConfig,
}

-- A count for each thing.
abbrev one : Thing → Thing → ℕ
one the_struct the_struct = 1
one ring_cells ring_cells = 1
one epoll_fd epoll_fd = 1
one event_fd event_fd = 1
one _ _ = 0

abbrev counting : Sys
counting = record {
  State = Thing → ℕ;
  get_memory = λ t n. (true, λ u. n u + one t u);
  epoll_create = λ n. (true, λ u. n u + one epoll_fd u);
  eventfd = λ n. (true, λ u. n u + one event_fd u);
  control_add = λ n. (true, n);
  free = λ t n. (λ u. n u - one t u);
  close = λ t n. (λ u. n u - one t u);
}

one-share : (t u : Thing) → share counting mapper true t u ≡ one t u
unfolding share
one-share the_struct the_struct = refl
one-share the_struct ring_cells = refl
one-share the_struct epoll_fd = refl
one-share the_struct event_fd = refl
one-share ring_cells the_struct = refl
one-share ring_cells ring_cells = refl
one-share ring_cells epoll_fd = refl
one-share ring_cells event_fd = refl
one-share epoll_fd the_struct = refl
one-share epoll_fd ring_cells = refl
one-share epoll_fd epoll_fd = refl
one-share epoll_fd event_fd = refl
one-share event_fd the_struct = refl
one-share event_fd ring_cells = refl
one-share event_fd epoll_fd = refl
one-share event_fd event_fd = refl

taken :
    (t u : Thing) (n : Thing → ℕ) → 0 < n t → (n u - one t u) + share counting mapper true t u ≡ n u
taken the_struct the_struct n h = omega (arith, h, one-share the_struct the_struct)
taken the_struct ring_cells n h = omega (arith, one-share the_struct ring_cells)
taken the_struct epoll_fd n h = omega (arith, one-share the_struct epoll_fd)
taken the_struct event_fd n h = omega (arith, one-share the_struct event_fd)
taken ring_cells the_struct n h = omega (arith, one-share ring_cells the_struct)
taken ring_cells ring_cells n h = omega (arith, h, one-share ring_cells ring_cells)
taken ring_cells epoll_fd n h = omega (arith, one-share ring_cells epoll_fd)
taken ring_cells event_fd n h = omega (arith, one-share ring_cells event_fd)
taken epoll_fd the_struct n h = omega (arith, one-share epoll_fd the_struct)
taken epoll_fd ring_cells n h = omega (arith, one-share epoll_fd ring_cells)
taken epoll_fd epoll_fd n h = omega (arith, h, one-share epoll_fd epoll_fd)
taken epoll_fd event_fd n h = omega (arith, one-share epoll_fd event_fd)
taken event_fd the_struct n h = omega (arith, one-share event_fd the_struct)
taken event_fd ring_cells n h = omega (arith, one-share event_fd ring_cells)
taken event_fd epoll_fd n h = omega (arith, one-share event_fd epoll_fd)
taken event_fd event_fd n h = omega (arith, h, one-share event_fd event_fd)

abbrev config : ReactorConfig
config = record { stack_size = 8000; stack_cache = 0 }

abbrev nothing_out : Thing → ℕ
nothing_out t = 0
