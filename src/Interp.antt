-- ===== src/Interp.antt =====
-- src/interp.c in its -DBENCH build, one module for each group of handlers.
pub mod Outcome
pub mod Timers
pub mod Alu
pub mod Control
pub mod Transfer
pub mod Input
pub mod Draw
pub mod Step
pub mod Run
pub mod Alike
