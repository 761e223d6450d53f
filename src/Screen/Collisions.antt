-- ===== src/Screen/Collisions.antt =====
-- The collision flag that `draw_io` returns.
use chip_eight_jit.Common.{
  ℕ, zero, suc, ◌+◌, ◌%◌, ◌≤◌, ◌<◌, ◌≡◌, refl, ◌∙◌, Bool, true, false, not, ◌&&◌, ◌||◌, Array,
  arith, ltb, leb, ◌==◌, if◌then◌else◌, Bool-cases, inl, inr,
}
use chip_eight_jit.Common.Bits.{bit_or_step}
use chip_eight_jit.Screen.{width, height, Canvas, sprite_bit, plot, plot_row, plot_rows, draw_io}
use chip_eight_jit.Screen.Pixels.{at, plot_lem, plot_row_lem}

-- Whether a set bit of a sprite's row, from column `i` of the sprite on, lies over a lit pixel.
abbrev pub row_hits : Array → ℕ → ℕ → ℕ → ℕ → ℕ → Bool
row_hits display byte y2 x zero i = false
row_hits display byte y2 x (suc left) i =
    (ltb (i + x) width && not (display (at (i + x) y2) == 0) && not (sprite_bit byte i == 0))
    || row_hits display byte y2 x left (i + 1)

-- Likewise of the rows from row `j` of the sprite on.
abbrev pub sprite_hits : Array → Array → ℕ → ℕ → ℕ → ℕ → Bool
sprite_hits display mem x y zero j = false
sprite_hits display mem x y (suc left) j =
    (ltb (j + y) height && row_hits display (mem j) (j + y) x 8 0)
    || sprite_hits display mem x y left (j + 1)

abbrev flag : Bool → ℕ → ℕ
flag b v = if b then 1 else v

row_hits-eq :
    (d e : Array) (byte y2 x left i : ℕ)
    → ((k : ℕ) → i ≤ k → k + x < width → d (at (k + x) y2) ≡ e (at (k + x) y2))
    → row_hits d byte y2 x left i ≡ row_hits e byte y2 x left i
row_hits-eq d e byte y2 x zero i h = refl
row_hits-eq d e byte y2 x (suc left) i h =
    let rest = row_hits-eq d e byte y2 x left (i + 1) (λ k p q. h k (omega arith) q) in
    ground (arith, h i (omega arith))

plot-vf :
    (byte y2 x i : ℕ) (c : Canvas)
    → c.vf < 2
    → (plot byte y2 x i c).vf
      ≡ flag
          (ltb (i + x) width
            && not (c.display (at (i + x) y2) == 0)
            && not (sprite_bit byte i == 0))
          c.vf
unfolding plot
plot-vf byte y2 x i c lt = ground (arith, bit_or_step c.vf 1)

flag-lt : (b : Bool) (v : ℕ) → v < 2 → flag b v < 2
flag-lt b v h = ground arith

flag_twice : (a b : Bool) (v : ℕ) → flag b (flag a v) ≡ flag (a || b) v
flag_twice a b v = ground arith

plot_row-vf :
    (byte y2 x left i : ℕ) (c : Canvas)
    → c.vf < 2
    → (plot_row byte y2 x left i c).vf ≡ flag (row_hits c.display byte y2 x left i) c.vf
unfolding plot_row
plot_row-vf byte y2 x zero i c lt = refl
plot_row-vf byte y2 x (suc left) i c lt =
    let d = plot byte y2 x i c in
    let one = plot-vf byte y2 x i c lt in
    let low : d.vf < 2 = rw one (flag-lt _ c.vf lt) in
    let same =
      row_hits-eq d.display c.display byte y2 x left (i + 1)
        (λ k p q. ground (arith, plot_lem (k + x) y2 q byte y2 x i c)) in
    plot_row-vf byte y2 x left (i + 1) d low ∙ rw (one, same) (flag_twice _ _ c.vf)

sprite_hits-eq :
    (d e mem : Array) (x y left j : ℕ)
    → ((px py : ℕ) → px < width → j + y ≤ py → d (at px py) ≡ e (at px py))
    → sprite_hits d mem x y left j ≡ sprite_hits e mem x y left j
sprite_hits-eq d e mem x y zero j h = refl
sprite_hits-eq d e mem x y (suc left) j h =
    let row = row_hits-eq d e (mem j) (j + y) x 8 0 (λ k p q. h (k + x) (j + y) q (omega arith)) in
    let rest = sprite_hits-eq d e mem x y left (j + 1) (λ px py p q. h px py p (omega arith)) in
    rw (row, rest) refl

plot_rows-vf :
    (mem : Array) (x y left j : ℕ) (c : Canvas)
    → c.vf < 2
    → (plot_rows mem x y left j c).vf ≡ flag (sprite_hits c.display mem x y left j) c.vf
unfolding plot_rows
plot_rows-vf mem x y zero j c lt = refl
plot_rows-vf mem x y (suc left) j c lt = elim (Bool-cases (leb height (j + y))) [
  | inl out ↦
      let below : ltb (j + y) height ≡ false = ground arith in
      rw (out, plot_rows) (rw below (plot_rows-vf mem x y left (j + 1) c lt))
  | inr inside ↦
      let above : ltb (j + y) height ≡ true = ground arith in
      let d = plot_row (mem j) (j + y) x 8 0 c in
      let one = plot_row-vf (mem j) (j + y) x 8 0 c lt in
      let low : d.vf < 2 = rw one (flag-lt _ c.vf lt) in
      let same =
        sprite_hits-eq d.display c.display mem x y left (j + 1)
          (λ px py p q. ground (arith, plot_row_lem px py p (mem j) (j + y) x 8 0 c)) in
      rw (inside, plot_rows)
        (rw above (plot_rows-vf mem x y left (j + 1) d low ∙ rw (one, same) (flag_twice _ _ c.vf)))
]

-- `draw_io` returns 1 if some set bit of the sprite's `n` rows, with the corner wrapped into the screen,
-- lies on the screen and over a pixel that was lit before the drawing, and 0 if none does.
pub draw_io-vf :
    (x y n : ℕ) (mem display : Array)
    → (draw_io x y n mem display).vf
      ≡ (if sprite_hits display mem (x % width) (y % height) n 0 then 1 else 0)
unfolding draw_io
draw_io-vf x y n mem display =
    plot_rows-vf mem (x % width) (y % height) n 0 (record { display = display; vf = 0 })
      (omega arith)
