-- ===== src/Tests/Aot.antt =====
-- Runs of compiled blocks and of their runtime.
use chip_eight_jit.Common.{◌/◌, ◌≡◌, ◌≢◌, refl, [], ◌&&◌, not, ◌==◌, arith}
use chip_eight_jit.Common.Bits.{test_bit}
use chip_eight_jit.Clock.{bench_tick}
use chip_eight_jit.Machine.{set_reg, set_flags, skip}
use chip_eight_jit.Interp.Timers.{sync_timers}
use chip_eight_jit.Interp.Alu.{add_register}
use chip_eight_jit.Interp.Step.{arithmetic, dispatch, execute}
use chip_eight_jit.Interp.Step.Errors.Verdicts.{verdict, fails}
use chip_eight_jit.Aot.Services.{served, aot_draw}
use chip_eight_jit.Aot.Waits.{aot_draw_returns}
use chip_eight_jit.Aot.Host.{Host, service_timers, poll_keys_if_due, keys, release_key}
use chip_eight_jit.Aot.Host.Keys.{keys-release_key}
use chip_eight_jit.Aot.Blocks.{block, dispatched, with_machine, set_pc, exec_all}
use chip_eight_jit.Aot.Agreement.{execute-block}
use chip_eight_jit.Aot.LostErrors.{block_goes_on}
use chip_eight_jit.Tests.{machine}

-- 200 in every register, and key 3 down in every poll of the history.
abbrev host : Host
host = record {
  machine = machine [] 200;
  retired = 0;
  key_history = λ _. 8;
  key_slot = 0;
  last_key_poll = 0;
  ticks = λ _. 0;
  times = λ _. 0;
  key_reads = λ _. 8;
}

execute-block_example :
    exec_all 0 (block 0x200 0x8124) host
    ≡ dispatched (with_machine host (skip (set_flags 1 (set_reg 1 144 host.machine))))
unfolding execute dispatch arithmetic add_register sync_timers bench_tick
execute-block_example =
    execute-block 0 0x8124 host (skip (set_flags 1 (set_reg 1 144 host.machine))) (omega arith)
      (omega arith) refl refl refl

block_goes_on_example :
    (verdict (execute 0x8129 host.machine) ≡ fails)
    × (exec_all 0 (block 0x200 0x8129) host ≡ dispatched (set_pc 0x202 host))
block_goes_on_example = block_goes_on 0 0x8129 host (omega arith) refl (omega arith)

keys-release_key_example :
    test_bit (keys (release_key 3 host)) 3 ≡ (test_bit (keys host) 3 && not (3 == 3))
keys-release_key_example = keys-release_key host 3 3 (omega arith) (omega arith)

-- The clock moves on at the fourth reading.
abbrev ticking : Host
ticking = record host { ticks = λ i. i / 4 }

aot_draw_returns_example :
    (t : Host) × (aot_draw 4 1 2 5 ticking ≡ served t)
    × (t.machine.last_tick ≢ (service_timers (poll_keys_if_due ticking)).machine.last_tick)
unfolding service_timers poll_keys_if_due bench_tick
aot_draw_returns_example = aot_draw_returns 3 1 2 5 ticking (omega arith)
