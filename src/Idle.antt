-- ===== src/Idle.antt =====
-- src/idle.h: the loop that polls the delay timer.
pub mod Laws
use chip_eight_jit.Common.{ℕ, ◌+◌, ◌&&◌, Option, none, some, Array, ◌==◌, if◌then◌else◌}
use chip_eight_jit.Machine.{opcode_at, x_of, high_nibble, immediate_eight, immediate_twelve}

-- `chip8_idle_delay_loop`: `some x` is the result 6 with `*reg` set to `x`. The masks 0xf0ff and 0xf000
-- compare the high nibble and the low byte, and the high nibble.
unfoldable pub idle_delay_loop : Array → ℕ → Option ℕ
idle_delay_loop memory pc =
    let a = opcode_at memory pc in
    let b = opcode_at memory (pc + 2) in
    let c = opcode_at memory (pc + 4) in
    let x = x_of a in
    if high_nibble a == 0xf && immediate_eight a == 0x07
    then (if high_nibble b == 0x3 && immediate_eight b == 0x00 && x_of b == x
        then (if high_nibble c == 0x1 && immediate_twelve c == pc then some x else none)
        else none)
    else none
