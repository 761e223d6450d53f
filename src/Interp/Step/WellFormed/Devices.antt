-- ===== src/Interp/Step/WellFormed/Devices.antt =====
-- Each handler on memory, keyboard and screen keeps the invariant.
use chip_eight_jit.Common.{
  ℕ, zero, suc, ◌+◌, ◌-◌, ◌*◌, ◌/◌, ◌%◌, ◌≤◌, ◌<◌, ◌≡◌, Bool, Array, Below, Below-update, arith,
  bit_xor, leb, some, Option-cases, inl, inr, Bool-cases,
}
use chip_eight_jit.Common.Bits.{bit_or-lt, bit_xor-lt}
use chip_eight_jit.Clock.{Clock, bench_now, bench_keys_now, bench_clear_key, bench_poll_keys}
use chip_eight_jit.Screen.{
  clearscreen_io, Canvas, sprite_bit, plot, plot_row, plot_rows, draw_io, height, width,
}
use chip_eight_jit.Machine.{
  Machine, IsWellFormed, u8, set_reg, x_of, y_of, immediate_four, memory_size,
}
use chip_eight_jit.Interp.Timers.{interrupt}
use chip_eight_jit.Interp.Transfer.{
  load_addr_immediate, add_addr, load_sprite_addr, store_bcd, save_from, save_registers,
  restore_from, restore_registers,
}
use chip_eight_jit.Interp.Input.{
  all_keys_down, clear_key, skip_key_x, poll, latch, take_keys, load_on_key,
}
use chip_eight_jit.Interp.Draw.{clearscreen, draw, sprite}
use chip_eight_jit.Interp.Step.WellFormed.Parts.{
  Keeps, Ends, Keeps-refl, set_reg-IsWellFormed, interrupt-Keeps, Ends-Keeps,
}

save_from-Below :
    (regs : Array) (addr left i : ℕ) (memory : Array)
    → Below u8 regs
    → Below u8 memory
    → Below u8 (save_from regs addr left i memory)
unfolding save_from
save_from-Below regs addr zero i memory h k = k
save_from-Below regs addr (suc left) i memory h k =
    save_from-Below regs addr left (i + 1) _ h (Below-update u8 memory _ _ k (h i))

restore_from-Below :
    (memory : Array) (addr left i : ℕ) (regs : Array)
    → Below u8 memory
    → Below u8 regs
    → Below u8 (restore_from memory addr left i regs)
unfolding restore_from
restore_from-Below memory addr zero i regs h k = k
restore_from-Below memory addr (suc left) i regs h k =
    restore_from-Below memory addr left (i + 1) _ h (Below-update u8 regs _ _ k (h _))

-- A canvas of pixels, with a flag.
record IsCanvas (c : Canvas) : Type 0 where
  pixels : Below 2 c.display
  flag : c.vf < 2

sprite_bit-lt : (byte i : ℕ) → sprite_bit byte i < 2
unfolding sprite_bit
sprite_bit-lt byte i = ground arith

plot-IsCanvas : (byte y2 x i : ℕ) (c : Canvas) → IsCanvas c → IsCanvas (plot byte y2 x i c)
unfolding plot
plot-IsCanvas byte y2 x i c v =
    let p = i + x + y2 * width in
    let bit = sprite_bit byte i in
    ground (
      arith,
      Below-update 2 c.display p (bit_xor (c.display p) bit) v.pixels
          (bit_xor-lt 1 (c.display p) bit (v.pixels p) (sprite_bit-lt byte i)),
      bit_or-lt 1 c.vf 1,
    )

plot_row-IsCanvas :
    (byte y2 x left i : ℕ) (c : Canvas) → IsCanvas c → IsCanvas (plot_row byte y2 x left i c)
unfolding plot_row
plot_row-IsCanvas byte y2 x zero i c v = v
plot_row-IsCanvas byte y2 x (suc left) i c v =
    plot_row-IsCanvas byte y2 x left (i + 1) _ (plot-IsCanvas byte y2 x i c v)

plot_rows-IsCanvas :
    (mem : Array) (x y left j : ℕ) (c : Canvas) → IsCanvas c → IsCanvas (plot_rows mem x y left j c)
unfolding plot_rows
plot_rows-IsCanvas mem x y zero j c v = v
plot_rows-IsCanvas mem x y (suc left) j c v = elim (Bool-cases (leb height (j + y))) [
  | inl out ↦ rw out (plot_rows-IsCanvas mem x y left (j + 1) c v)
  | inr inside ↦
      rw inside
        (plot_rows-IsCanvas mem x y left (j + 1) _ (plot_row-IsCanvas (mem j) (j + y) x 8 0 c v))
]

draw_io-IsCanvas :
    (x y n : ℕ) (mem display : Array) → Below 2 display → IsCanvas (draw_io x y n mem display)
unfolding draw_io
draw_io-IsCanvas x y n mem display h =
    plot_rows-IsCanvas mem (x % width) (y % height) n 0 (record { display = display; vf = 0 })
      (record { pixels = h; flag = omega arith })

-- The keyboard moves only its own part of the clock.
record KeepsClock (c d : Clock) : Type 0 where
  retired_eq : d.retired ≡ c.retired
  budget_eq : d.budget ≡ c.budget
  clock_cap_eq : d.clock_cap ≡ c.clock_cap
  key_mode_eq : d.key_mode ≡ c.key_mode

with_clock-Keeps :
    (m : Machine) (d : Clock)
    → IsWellFormed m
    → KeepsClock m.clock d
    → Keeps m (record m { clock = d })
with_clock-Keeps m d w k = ground arith

bench_keys_now-KeepsClock : (c : Clock) → KeepsClock c (bench_keys_now c).1
unfolding bench_keys_now
bench_keys_now-KeepsClock c = ground arith

bench_clear_key-KeepsClock : (key : ℕ) (c : Clock) → KeepsClock c (bench_clear_key key c)
unfolding bench_clear_key
bench_clear_key-KeepsClock key c = ground arith

bench_poll_keys-KeepsClock : (c : Clock) → KeepsClock c (bench_poll_keys c).1
unfolding bench_poll_keys
bench_poll_keys-KeepsClock c = ground arith

clear_key-Keeps : (key : ℕ) (m : Machine) → IsWellFormed m → Keeps m (clear_key key m)
unfolding clear_key
clear_key-Keeps key m w = with_clock-Keeps m _ w (bench_clear_key-KeepsClock key m.clock)

poll-KeepsClock :
    (fuel : ℕ) (c d : Clock) (keys : ℕ) → poll fuel c ≡ some (keys, d) → KeepsClock c d
unfolding poll
poll-KeepsClock zero c d keys e = cc
poll-KeepsClock (suc fuel) c d keys e =
    ground (arith, bench_poll_keys-KeepsClock c, poll-KeepsClock fuel (bench_poll_keys c).1 d keys)

latch-Keeps :
    (keys x left i : ℕ) (m : Machine)
    → left + i ≤ 16
    → IsWellFormed m
    → Keeps m (latch keys x left i m)
unfolding latch
latch-Keeps keys x zero i m h w = Keeps-refl m w
latch-Keeps keys x (suc left) i m h w =
    let cleared = clear_key-Keeps i m w in
    let set = set_reg-IsWellFormed x i (omega arith) cleared.well_formed in
    ground (
      arith,
      cleared,
      set,
      latch-Keeps keys x left (i + 1) (set_reg x i (clear_key i m)),
      latch-Keeps keys x left (i + 1) (clear_key i m),
    )

pub all_keys_down-Keeps : (m : Machine) → IsWellFormed m → Keeps m (all_keys_down m).1
unfolding all_keys_down
all_keys_down-Keeps m w = with_clock-Keeps m _ w (bench_keys_now-KeepsClock m.clock)

take_keys-Keeps :
    (op keys : ℕ) (m : Machine) → IsWellFormed m → Ends (Keeps m) (take_keys op keys m)
unfolding take_keys
take_keys-Keeps op keys m w = ground (arith, latch-Keeps keys (x_of op) 16 0 m)

module _ (op : ℕ) (m : Machine) (w : IsWellFormed m) where
  pub load_addr_immediate-Keeps : Ends (Keeps m) (load_addr_immediate op m)
  unfolding load_addr_immediate
  load_addr_immediate-Keeps = ground arith

  pub add_addr-Keeps : Ends (Keeps m) (add_addr op m)
  unfolding add_addr
  add_addr-Keeps = ground arith

  pub load_sprite_addr-Keeps : Ends (Keeps m) (load_sprite_addr op m)
  unfolding load_sprite_addr
  load_sprite_addr-Keeps = ground arith

  pub store_bcd-Keeps : Ends (Keeps m) (store_bcd op m)
  unfolding store_bcd
  store_bcd-Keeps =
      let v = m.regs (x_of op) in
      let hundreds-Below =
        Below-update u8 m.memory ((m.addr + 0) % memory_size) (v / 100) w.memory_bytes
          (omega (arith, w.reg_bytes (x_of op))) in
      let tens-Below =
        Below-update u8 _ ((m.addr + 1) % memory_size) (v % 100 / 10) hundreds-Below
          (omega arith) in
      let units-Below =
        Below-update u8 _ ((m.addr + 2) % memory_size) (v % 100 % 10) tens-Below (omega arith) in
      ground (arith, units-Below)

  pub save_registers-Keeps : Ends (Keeps m) (save_registers op m)
  unfolding save_registers
  save_registers-Keeps =
      ground
        (arith, save_from-Below m.regs m.addr (suc (x_of op)) 0 m.memory w.reg_bytes w.memory_bytes)

  pub restore_registers-Keeps : Ends (Keeps m) (restore_registers op m)
  unfolding restore_registers
  restore_registers-Keeps = ground (
    arith,
    restore_from-Below m.memory m.addr (suc (x_of op)) 0 m.regs w.memory_bytes w.reg_bytes,
  )

  pub clearscreen-Keeps : Ends (Keeps m) (clearscreen op m)
  unfolding clearscreen
  clearscreen-Keeps = let blank : Below 2 clearscreen_io = λ i. omega arith in ground (arith, blank)

  pub draw-Keeps : Ends (Keeps m) (draw op m)
  unfolding draw
  draw-Keeps =
      let s = interrupt m in
      let k = interrupt-Keeps m w in
      let drawn =
        draw_io-IsCanvas (s.regs (x_of op)) (s.regs (y_of op)) (immediate_four op)
          (sprite s.memory s.addr) s.display k.well_formed.pixels in
      ground (
        arith,
        k,
        drawn,
        Below-update u8 s.regs 15
            (draw_io (s.regs (x_of op)) (s.regs (y_of op)) (immediate_four op)
              (sprite s.memory s.addr) s.display).vf
            k.well_formed.reg_bytes,
      )

  pub skip_key_x-Keeps : (up : Bool) → Ends (Keeps m) (skip_key_x up op m)
  unfolding skip_key_x
  skip_key_x-Keeps up =
      let (keys, s) = all_keys_down m in
      let k = all_keys_down-Keeps m w in
      ground (arith, k, clear_key-Keeps (m.regs (x_of op)) (all_keys_down m).1 k.well_formed)

  pub load_on_key-Keeps : Ends (Keeps m) (load_on_key op m)
  unfolding load_on_key
  load_on_key-Keeps =
      elim (Option-cases (poll (suc (m.clock.clock_cap - bench_now m.clock)) m.clock)) [
        | inl out ↦ rw (out, load_on_key) tt
        | inr ((keys, d), got) ↦
            let moved =
              with_clock-Keeps m d w (
                poll-KeepsClock (suc (m.clock.clock_cap - bench_now m.clock)) m.clock d keys got) in
            rw (got, load_on_key)
              (Ends-Keeps (take_keys op keys (record m { clock = d })) moved
                (take_keys-Keeps op keys (record m { clock = d }) moved.well_formed))
      ]
