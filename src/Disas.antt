-- ===== src/Disas.antt =====
-- src/disas.c: the disassembler.
pub mod Opcodes
pub mod Analysis
pub mod Descent
pub mod Format
pub mod Printing
pub mod Listing
