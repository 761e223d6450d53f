-- ===== src/Tests.antt =====
-- Runs at concrete programs: the machines that they start from.
pub mod Loop
pub mod Handlers
pub mod Devices
pub mod Aot
pub mod Asm
pub mod Disas
pub mod Jit
pub mod Native
use chip_eight_jit.Common.{ℕ, ◌<◌, List, arith}
use chip_eight_jit.Clock.{keys_rotate}
use chip_eight_jit.Machine.{Machine, IsWellFormed, u8}
use chip_eight_jit.Interp.Run.{start}
use chip_eight_jit.Interp.Run.Start.{AllBytes, start-IsWellFormed}

-- The program `rom`, about to run for a hundred instructions, with `v` in every register.
abbrev pub machine : List ℕ → ℕ → Machine
machine rom v = record (start rom (λ _. 7) 100 keys_rotate) { regs = λ _. v; delay_timer = 5 }

pub machine-IsWellFormed :
    (rom : List ℕ) (v : ℕ) → AllBytes rom → v < u8 → IsWellFormed (machine rom v)
machine-IsWellFormed rom v h k =
    let w = start-IsWellFormed rom (λ _. 7) 100 keys_rotate h in ground (arith, w)
