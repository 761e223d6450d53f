-- ===== src/Jit.antt =====
-- src/libgccjit_jit.c, built with -DBENCH. What libgccjit makes of a trace is a parameter.
pub mod Marks
pub mod Trace
pub mod Inline
pub mod Dispatch
pub mod Helpers
pub mod Native
pub mod Engine
