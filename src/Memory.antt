-- ===== src/Memory.antt =====
-- The allocators of include/cfiber/memory and src/cfiber/memory.
pub mod Slab
pub mod Backing
pub mod Multislab
