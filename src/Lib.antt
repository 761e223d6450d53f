-- ===== src/Lib.antt =====
-- A CHIP-8 system: the interpreter, the libgccjit JIT, the clock, keyboard and screen of its
-- benchmark build, the recogniser of idle loops, the ahead-of-time compiler with its runtime, the
-- assembler and the disassembler.
--
-- The program. The engines (interpreter, two JITs, ahead-of-time compiler) run a ROM on one machine
-- state, declared in src/chip8.h. An engine reads the keyboard, draws, and takes its time from an I/O
-- backend: src/ncurses_io.c for a terminal, src/bench_io.c for a benchmark, where the clock is the
-- number of retired instructions (and of polls, where an instruction waits), so that all engines
-- see the same time. The interpreter is modelled in that build, -DBENCH, which is the one that the other
-- engines are compared with.
--
-- The files.
--   Clock      src/bench_io.c, src/bench.h: the clock, the limits of a run, the synthetic keyboard and
--              the safepoints of the JITs. Clock/Laws, Clock/Keys: its properties.
--   Screen     src/bench_io.c: `draw_io` and `clearscreen_io`. Screen/Pixels and
--              Screen/Collisions: the pixels and the flag.
--   Machine    src/chip8.h, src/chip8.c: the state, with the clock and the screen beside it, its
--              well-formedness, and the accesses to memory. Machine/Font: the bytes of the font;
--              Machine/Digits: the pictures that they are to show.
--   Interp     src/interp.c. Interp/Outcome is what a handler returns. Timers, Alu, Control, Transfer,
--              Input and Draw hold one function for each handler, under the handler's name; Step is
--              `basic_block`, and Run the main loop. The properties of a group stand in its Laws; those
--              of every instruction in Step/WellFormed and Step/Errors. Alike tells when two machines differ only
--              in what an engine is free to choose, and Run/Instructions is the loop without its tests.
--   Idle       src/idle.h: `chip8_idle_delay_loop`.
--   Aot        src/aot.c, src/aot_runtime.c. Host: the runtime's timers and keys; Services: what a
--              compiled block calls; Blocks: the blocks that the compiler emits, as a list of the texts
--              that it prints, with their meaning in LLVM, and the dispatcher round them. Agreement and
--              LostErrors compare a block with the interpreter; Host/Keys is about the key history, and Waits
--              about the wait for a tick.
--   Asm        src/asm.c. Result: how a function ends; Lexer: the tokens of a line; Values: the symbol table
--              and the operands; Instruction: the opcode of a line; Passes: the directives and the two
--              passes of `main`, from the lines that `fgets` reads to the bytes that are printed.
--              Lexer/Comments is about a property of the tokens, Passes/Sizes and Passes/Agree about
--              the addresses of the two passes, and Instruction/Fields and Instruction/Opcodes about
--              the opcodes.
--   Disas      src/disas.c. Opcodes: `valid_opcode` and `labelable`; Analysis: `analyze` and
--              `glue_unreachable`; Descent: `descend`; Format: the conversions of `printf`; Printing: the text
--              of an instruction, `disassemble`; Listing: the output of `main`. Format/Reading,
--              Format/Numbers and the modules under Printing/Reads show how the assembler reads that text,
--              those under Listing how its two passes read the listing; Analysis/Leaders is about
--              the places of the labels, and Descent/Ends and Descent/Closed about the descent.
--   Jit        src/libgccjit_jit.c. Marks: `mark_code` and `note_store`; Trace: `codegen`, as the
--              list of the pieces that it emits; Inline: the straight-line code of an opcode, as
--              statements of libgccjit; Dispatch: the helpers that store, and what the loop of
--              `main` does round a trace; Helpers: the other functions that a trace calls; Native:
--              how a trace runs, with its blocks, safepoints and back edges; Engine: the loop of
--              `main` with the trace cache. Trace/Ends, Trace/Grows, Trace/Reads and Trace/Anywhere
--              are about codegen, Inline/Agreement is about that code, Dispatch/Stores,
--              Dispatch/Coherent, Engine/Helpers, Engine/Keeps and Engine/Coherent about the cache,
--              and the modules under Native about a trace against the interpreter: Straight, Calls,
--              Jumps and Skips about the instructions, Shape and Found about the blocks, Whole about
--              the loops, and Charges, Limits, Stops and Advances about their end. Engine/Agrees,
--              Engine/Counts and Engine/Ends are about the whole loop.
--   Tests      runs at concrete inputs.
--   Common     Booleans, arrays, bits and the lemmas on them.
--
-- The model. A function of C that changes the global state takes a `Machine` and returns one; an
-- `Outcome` says whether the handler returned 0, an error code, is undefined in C, or does not return.
-- An array is a function from its index. Numbers are natural, and the wrap-around of `uint8_t` and
-- `uint16_t` is written `% u8` and `% u16`; `IsWellFormed` keeps each variable in its type's range.
-- The values that `rand ()` will return are a sequence in the machine.
--
-- Fuel. The wait of Fx0A has one round for each step of the clock up to its cap, since every poll
-- advances it; the loop that schedules a safepoint one for each retired instruction; the main loop is
-- run with one round more than the budget has instructions left, and ends with its own results for an
-- overflow of `inst_count` and for an instruction that never returns. The waits
-- of the AOT runtime, for a key and for a wall-clock tick, have no bound in the program: their fuel is an
-- argument, and `waits` the result when it runs out. The descent of the disassembler has one round more than the
-- ROM has words, and a path one step more than the ROM has bytes.
-- A trace of the JIT has one round more than the 4,096 addresses that can have a block; its run has fuel for
-- the branches that it takes, of which each counts an instruction.
--
-- A text is the list of its characters' codes. `strtoul`, `isspace` and the other functions of the C
-- library are taken as the C standard describes them, in the C locale.
--
-- Not modelled: the terminal backend, the options and the report of a run, the interactive build
-- of the interpreter, the LLVM JIT, and the report of the disassembler. Of the libgccjit JIT, what
-- the operations of libgccjit compute is a parameter, which a hypothesis compares with its
-- documentation. A shift `1 << k` of an `int` is taken as gcc defines it for k up to 31. The count
-- `inst_count` of the interpreter stops at INT_MAX, where C leaves its overflow undefined. The stack
-- pointer and the clock are numbers that their limits keep within their C types. So are the ticks
-- while the budget is at most 67,108,864,000: a run with a larger one, whose ticks the cast to `int`
-- in `bench_tick` would cut, is beyond the model.
pub mod Common
pub mod Clock
pub mod Screen
pub mod Machine
pub mod Interp
pub mod Idle
pub mod Aot
pub mod Asm
pub mod Disas
pub mod Jit
pub mod Tests
