-- ===== src/Asm.antt =====
-- src/asm.c: the assembler.
pub mod Result
pub mod Lexer
pub mod Values
pub mod Instruction
pub mod Passes
