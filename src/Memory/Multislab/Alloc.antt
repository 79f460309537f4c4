-- ===== src/Memory/Multislab/Alloc.antt =====
-- `cfiber_multislab_alloc`: a block that nobody has, or nothing when every slab is full and none can
-- be added.
mod Scan
pub mod Step
pub mod Grow
pub mod Outcome
