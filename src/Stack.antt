-- ===== src/Stack.antt =====
-- The stacks of src/cfiber/stack and include/cfiber/stack.
pub mod Fixed
pub mod Growable
pub mod Cache
mod Examples
