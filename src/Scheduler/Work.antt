-- ===== src/Scheduler/Work.antt =====
-- How much the fibers can still do, which bounds how many of them are live.
use cfiber.Common.{ℕ, ◌+◌, ◌≤◌, ◌<◌, ◌≡◌, refl, ap, arith, true, false, List, [], ◌∷◌, ◌++◌, length}
use cfiber.Scheduler.{Fiber, returns, yields, spawns, Task}

-- A bound on the calls that a fiber, and the fibers that it spawns, can still make.
abbrev pub size : Fiber → ℕ
size returns = 1
size (yields k) = 1 + size k
size (spawns func k) = 1 + size func + (size (k true) + size (k false))

abbrev pub work : List Task → ℕ
work [] = 0
work (t ∷ ts) = size t.fiber + work ts

pub size_pos : (f : Fiber) → 0 < size f
size_pos returns = omega arith
size_pos (yields k) = omega arith
size_pos (spawns func k) = omega arith

pub work-append : (ts us : List Task) → work (ts ++ us) ≡ work ts + work us
work-append [] us = omega arith
work-append (t ∷ ts) us = omega (arith, work-append ts us)

pub length-append : (ts us : List Task) → length (ts ++ us) ≡ length ts + length us
length-append [] us = omega arith
length-append (t ∷ ts) us = omega (arith, length-append ts us)

pub length-work : (ts : List Task) → length ts ≤ work ts
length-work [] = omega arith
length-work (t ∷ ts) = omega (arith, length-work ts, size_pos t.fiber)

pub append_assoc : (ts us vs : List Task) → (ts ++ us) ++ vs ≡ ts ++ (us ++ vs)
append_assoc [] us vs = refl
append_assoc (t ∷ ts) us vs = ap (λ (r : List Task). t ∷ r) (append_assoc ts us vs)

pub append_nil : (ts : List Task) → ts ++ [] ≡ ts
append_nil [] = refl
append_nil (t ∷ ts) = ap (λ (r : List Task). t ∷ r) (append_nil ts)
