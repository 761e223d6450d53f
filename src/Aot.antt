-- ===== src/Aot.antt =====
-- The ahead-of-time compiler.
pub mod Host
pub mod Services
pub mod Blocks
pub mod Waits
pub mod Agreement
pub mod LostErrors
