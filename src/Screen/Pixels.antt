-- ===== src/Screen/Pixels.antt =====
-- What `draw_io` does to each pixel of the screen.
use chip_eight_jit.Common.{
  ℕ, zero, suc, ◌+◌, ◌-◌, ◌*◌, ◌%◌, ◌<◌, ◌≡◌, refl, Bool, ◌&&◌, Array, Below, arith, ltb, leb, ◌==◌,
  if◌then◌else◌, bit_xor, Bool-cases, inl, inr,
}
use chip_eight_jit.Screen.{width, height, Canvas, sprite_bit, plot, plot_row, plot_rows, draw_io}

-- The index of the pixel in column `px` of row `py`.
abbrev pub at : ℕ → ℕ → ℕ
at px py = px + py * width

pub sprite_bit-lt : (byte i : ℕ) → sprite_bit byte i < 2
unfolding sprite_bit
sprite_bit-lt byte i = ground arith

module _ (px py : ℕ) (visible : px < width) where
  pub plot_lem :
      (byte y2 x i : ℕ) (c : Canvas)
      → (plot byte y2 x i c).display (at px py) ≡ (
          if py == y2 && px == i + x
          then bit_xor (c.display (at px py)) (sprite_bit byte i)
          else c.display (at px py))
  unfolding plot
  plot_lem byte y2 x i c = ground arith

  pub plot_row_lem :
      (byte y2 x left i : ℕ) (c : Canvas)
      → (plot_row byte y2 x left i c).display (at px py) ≡ (
          if py == y2 && leb (i + x) px && ltb px (i + x + left)
          then bit_xor (c.display (at px py)) (sprite_bit byte (px - x))
          else c.display (at px py))
  unfolding plot_row
  plot_row_lem byte y2 x zero i c = ground arith
  plot_row_lem byte y2 x (suc left) i c =
      ground
        (arith, plot_lem byte y2 x i c, plot_row_lem byte y2 x left (i + 1) (plot byte y2 x i c))

  -- Whether the rectangle of 8 by `left` pixels from column `x` and row `top` on has the pixel.
  abbrev in_box : ℕ → ℕ → ℕ → Bool
  in_box x top left = leb top py && ltb py (top + left) && leb x px && ltb px (x + 8)

  plot_rows_lem :
      (mem : Array) (x y left j : ℕ) (c : Canvas)
      → py < height
      → (plot_rows mem x y left j c).display (at px py) ≡ (
          if in_box x (j + y) left
          then bit_xor (c.display (at px py)) (sprite_bit (mem (py - y)) (px - x))
          else c.display (at px py))
  unfolding plot_rows
  plot_rows_lem mem x y zero j c h = ground arith
  plot_rows_lem mem x y (suc left) j c h = elim (Bool-cases (leb height (j + y))) [
    | inl out ↦ rw (out, plot_rows) (ground (arith, plot_rows_lem mem x y left (j + 1) c h))
    | inr inside ↦
        rw (inside, plot_rows)
          (ground (
            arith,
            plot_row_lem (mem j) (j + y) x 8 0 c,
            plot_rows_lem mem x y left (j + 1) (plot_row (mem j) (j + y) x 8 0 c) h,
          ))
  ]

  -- `draw_io` wraps the corner of the sprite into the screen, and clips the sprite there: each visible
  -- pixel under the sprite's `n` rows of 8 bits is exclusive-ored with its bit, and every other visible
  -- pixel stays.
  pub draw_io_lem :
      (x y n : ℕ) (mem display : Array)
      → py < height
      → (draw_io x y n mem display).display (at px py) ≡ (
          if in_box (x % width) (y % height) n
          then bit_xor (display (at px py)) (sprite_bit (mem (py - y % height)) (px - x % width))
          else display (at px py))
  unfolding draw_io
  draw_io_lem x y n mem display h = ground (
    arith,
    plot_rows_lem mem (x % width) (y % height) n 0 (record { display = display; vf = 0 }) h,
  )

bit_xor_twice : (a b : ℕ) → a < 2 → b < 2 → bit_xor (bit_xor a b) b ≡ a
bit_xor_twice zero zero h k = refl
bit_xor_twice zero (suc zero) h k = refl
bit_xor_twice (suc zero) zero h k = refl
bit_xor_twice (suc zero) (suc zero) h k = refl
bit_xor_twice (suc (suc a)) b h k = absurd (omega arith)
bit_xor_twice zero (suc (suc b)) h k = absurd (omega arith)
bit_xor_twice (suc zero) (suc (suc b)) h k = absurd (omega arith)

-- Drawing a sprite twice at one place leaves every visible pixel as it was.
pub draw_io_twice :
    (x y n px py : ℕ) (mem display : Array)
    → Below 2 display
    → px < width
    → py < height
    → (draw_io x y n mem (draw_io x y n mem display).display).display (at px py)
      ≡ display (at px py)
draw_io_twice x y n px py mem display h p q =
    let d = (draw_io x y n mem display).display in
    let bit = sprite_bit (mem (py - y % height)) (px - x % width) in
    ground (
      arith,
      draw_io_lem px py p x y n mem display q,
      draw_io_lem px py p x y n mem d q,
      bit_xor_twice (display (at px py)) bit (h (at px py)) (sprite_bit-lt _ _),
    )
