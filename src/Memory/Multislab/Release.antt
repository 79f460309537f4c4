-- ===== src/Memory/Multislab/Release.antt =====
-- `cfiber_multislab_release`.
pub mod Free
mod Swap
mod Hysteresis
pub mod Outcome
