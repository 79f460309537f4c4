-- ===== src/Reactor.antt =====
-- The reactor of include/cfiber/reactor/reactor.h and src/cfiber/reactor/reactor.c.
pub mod Timers
pub mod Time
pub mod State
pub mod Owner
pub mod Wait
pub mod Command
pub mod Pool
pub mod Census
pub mod Inv
pub mod Expire
pub mod Loop
pub mod Create
pub mod Stream
pub mod Sample
mod Examples
