-- ===== src/Tests/Devices.antt =====
-- Runs of the clock, the keyboard and the screen.
use chip_eight_jit.Common.{ℕ, ◌^◌, ◌<◌, ◌≡◌, refl, not, ◌&&◌, ◌==◌, some, arith}
use chip_eight_jit.Common.Bits.{test_bit}
use chip_eight_jit.Clock.{
  Clock, fresh_clock, keys_rotate, bench_tick, bench_done, bench_keys_now, bench_clear_key,
  bench_advance_safepoint,
}
use chip_eight_jit.Clock.Laws.{NextSafepoint, bench_advance_safepoint_lem, bench_tick-lt-int_max}
use chip_eight_jit.Clock.Keys.{bench_keys_now-bench_clear_key}
use chip_eight_jit.Screen.{sprite_bit, draw_io}
use chip_eight_jit.Screen.Collisions.{draw_io-vf}
use chip_eight_jit.Screen.Pixels.{draw_io_lem, draw_io_twice}
use chip_eight_jit.Interp.Input.{poll}
use chip_eight_jit.Interp.Input.Laws.{LastPoll, poll_ends}

-- The clock of a run of 300 instructions, after 200 of them.
abbrev running : Clock
running = record (fresh_clock 300 keys_rotate) { retired = 200 }

-- The safepoint at 64 is followed by the one at 256.
bench_advance_safepoint_lem_example :
    (next : ℕ) × (bench_advance_safepoint running ≡ some (record running { next_safepoint = next }))
    × NextSafepoint 64 200 next
bench_advance_safepoint_lem_example = bench_advance_safepoint_lem running

bench_tick-lt-int_max_example : bench_tick running < 2 ^ 31
unfolding bench_done
bench_tick-lt-int_max_example = bench_tick-lt-int_max running refl (omega arith) refl

-- Key 0, which is down in the first tick, is cleared.
bench_keys_now-bench_clear_key_example :
    test_bit (bench_keys_now (bench_clear_key 0 running)).0 0
    ≡ (test_bit (bench_keys_now running).0 0 && not (0 == 0))
bench_keys_now-bench_clear_key_example =
    bench_keys_now-bench_clear_key running 0 0 (omega arith) (omega arith) (omega arith)

poll_ends_example :
    (keys : ℕ) × (d : Clock) × (poll 20000 running ≡ some (keys, d))
    × (n : ℕ) × (n < 20000)
    × LastPoll running keys d n
poll_ends_example = poll_ends 20000 running (omega arith)

-- Two rows of eight lit pixels, in the lower right corner: the pixel (63, 31) turns on.
draw_io_lem_example : (draw_io 60 31 2 (λ _. 0xff) (λ _. 0)).display 2047 ≡ 1
unfolding sprite_bit
draw_io_lem_example = draw_io_lem 63 31 (omega arith) 60 31 2 (λ _. 0xff) (λ _. 0) (omega arith)

draw_io_twice_example :
    (draw_io 60 31 2 (λ _. 0xff) (draw_io 60 31 2 (λ _. 0xff) (λ _. 0)).display).display 2047 ≡ 0
draw_io_twice_example =
    draw_io_twice 60 31 2 63 31 (λ _. 0xff) (λ _. 0) (λ i. omega arith) (omega arith) (omega arith)

-- A lit screen: the sprite hits it.
draw_io-vf_example : (draw_io 60 31 2 (λ _. 0xff) (λ _. 1)).vf ≡ 1
unfolding sprite_bit
draw_io-vf_example = draw_io-vf 60 31 2 (λ _. 0xff) (λ _. 1)
