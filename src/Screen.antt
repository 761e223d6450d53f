-- ===== src/Screen.antt =====
-- The screen of src/bench_io.c, whose pixels are those of src/ncurses_io.c: `draw_io` and
-- `clearscreen_io` on the 64 by 32 framebuffer that every engine asks for by `init_io (64, 32)`.
pub mod Pixels
pub mod Collisions
use chip_eight_jit.Common.{
  ℕ, zero, suc, ◌+◌, ◌*◌, ◌/◌, ◌%◌, ◌^◌, ◌&&◌, not, Array, update, leb, ◌==◌, if◌then◌else◌,
  bit_and, bit_or, bit_xor,
}

abbrev pub width : ℕ
width = 64

abbrev pub height : ℕ
height = 32

-- The framebuffer and `vf`.
pub record Canvas : Type 0 where
  pub display : Array
  pub vf : ℕ

-- `(byte & (0x80 >> i)) ? 1 : 0`
unfoldable pub sprite_bit : ℕ → ℕ → ℕ
sprite_bit byte i = if bit_and byte (0x80 / 2 ^ i) == 0 then 0 else 1

-- The body of the inner loop: one pixel.
unfoldable pub plot : ℕ → ℕ → ℕ → ℕ → Canvas → Canvas
plot byte y2 x i c =
    let x2 = i + x in
    let bit = sprite_bit byte i in
    let old_pixel = c.display (x2 + y2 * width) in
    if leb width x2 then c else record {
      display = update c.display (x2 + y2 * width) (bit_xor old_pixel bit);
      vf = if not (old_pixel == 0) && not (bit == 0) then bit_or c.vf 1 else c.vf;
    }

-- The inner loop from column `i` on, with `left` rounds to go.
unfoldable pub plot_row : ℕ → ℕ → ℕ → ℕ → ℕ → Canvas → Canvas
plot_row byte y2 x zero i c = c
plot_row byte y2 x (suc left) i c = plot_row byte y2 x left (i + 1) (plot byte y2 x i c)

-- The outer loop from row `j` on.
unfoldable pub plot_rows : Array → ℕ → ℕ → ℕ → ℕ → Canvas → Canvas
plot_rows mem x y zero j c = c
plot_rows mem x y (suc left) j c =
    let y2 = j + y in
    plot_rows mem x y left (j + 1) (if leb height y2 then c else plot_row (mem j) y2 x 8 0 c)

unfoldable pub draw_io : ℕ → ℕ → ℕ → Array → Array → Canvas
draw_io x y n mem display =
    plot_rows mem (x % width) (y % height) n 0 (record { display = display; vf = 0 })

abbrev pub clearscreen_io : Array
clearscreen_io _ = 0
