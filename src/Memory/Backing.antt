-- ===== src/Memory/Backing.antt =====
-- The backing allocator of a multislab: the caller's `mem_alloc` and `mem_free` of
-- include/cfiber/memory/multislab_alloc.h, with their context as a state, and what that header and
-- the C standard document of them.
pub mod Arena
use cfiber.Common.{
  ℕ, ◌+◌, ◌%◌, ◌^◌, ◌≤◌, ◌<◌, ◌≡◌, ◌⊎◌, Bool, true, false, ◌&&◌, Option, none, some, ◌==◌,
  if◌then◌else◌,
}

pub record Backing : Type 1 where
  pub State : Type 0
  -- the size; NULL is `none`
  pub mem_alloc : ℕ → State → Option ℕ × State
  -- the pointer, and the size that it was allocated with
  pub mem_free : ℕ → ℕ → State → State

-- The region of `m` bytes at `q` is that of `n` bytes at `p`.
abbrev pub same_region : ℕ → ℕ → ℕ → ℕ → Bool
same_region q m p n = q == p && m == n

-- `held st q m` says that the region of `m` bytes at `q` is allocated. `Sound` holds of the states
-- that calls can lead to.
pub record Laws (b : Backing) : Type 1 where
  pub Sound : b.State → Type 0
  pub held : b.State → ℕ → ℕ → Bool
  pub alloc-Sound :
      (n : ℕ) (st st' : b.State) (r : Option ℕ)
      → 0 < n
      → Sound st
      → b.mem_alloc n st ≡ (r, st')
      → Sound st'
  pub free-Sound :
      (p n : ℕ) (st : b.State) → held st p n ≡ true → Sound st → Sound (b.mem_free p n st)
  -- what is allocated is new, aligned, and inside the address space
  pub alloc_new :
      (n : ℕ) (st st' : b.State) (p : ℕ)
      → 0 < n
      → Sound st
      → b.mem_alloc n st ≡ (some p, st')
      → (held st p n ≡ false) × (p % 16 ≡ 0) × (p + n < 2 ^ 64)
  pub alloc_held :
      (n : ℕ) (st st' : b.State) (p q m : ℕ)
      → 0 < n
      → Sound st
      → b.mem_alloc n st ≡ (some p, st')
      → held st' q m ≡ (if same_region q m p n then true else held st q m)
  pub alloc_none :
      (n : ℕ) (st st' : b.State) (q m : ℕ)
      → b.mem_alloc n st ≡ (none, st')
      → held st' q m ≡ held st q m
  pub free_held :
      (p n : ℕ) (st : b.State) (q m : ℕ)
      → Sound st
      → held st p n ≡ true
      → held (b.mem_free p n st) q m ≡ (if same_region q m p n then false else held st q m)
  -- allocated regions do not overlap
  pub apart :
      (st : b.State) (p n q m : ℕ)
      → Sound st
      → held st p n ≡ true
      → held st q m ≡ true
      → same_region q m p n ≡ false
      → (p + n ≤ q) ⊎ (q + m ≤ p)
