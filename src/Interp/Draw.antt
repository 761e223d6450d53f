-- ===== src/Interp/Draw.antt =====
-- The handlers of src/interp.c that change the screen. The frame sync is not in a -DBENCH build, and
-- `refresh_io` does nothing there.
use chip_eight_jit.Common.{ℕ, ◌+◌, Array}
use chip_eight_jit.Screen.{draw_io, clearscreen_io}
use chip_eight_jit.Machine.{Machine, x_of, y_of, immediate_four, mem_at, set_flags}
use chip_eight_jit.Interp.Outcome.{Outcome, step_on}
use chip_eight_jit.Interp.Timers.{interrupt}

unfoldable pub clearscreen : ℕ → Machine → Outcome
clearscreen op m = step_on (record m { display = clearscreen_io })

-- The bytes of `sprite`, of which `draw_io` reads the first `immediate`.
abbrev pub sprite : Array → ℕ → Array
sprite memory addr i = mem_at memory (addr + i)

unfoldable pub draw : ℕ → Machine → Outcome
draw op m =
    let s = interrupt m in
    let drawn =
      draw_io (s.regs (x_of op)) (s.regs (y_of op)) (immediate_four op) (sprite s.memory s.addr)
        s.display in
    step_on (set_flags drawn.vf (record s { display = drawn.display }))
