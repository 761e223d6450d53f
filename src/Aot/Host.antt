-- ===== src/Aot/Host.antt =====
-- src/aot_runtime.c: what the runtime of a compiled program keeps, its timers and its keys.
pub mod Keys
use chip_eight_jit.Common.{
  ℕ, zero, suc, ◌+◌, ◌-◌, ◌*◌, ◌/◌, ◌%◌, ◌^◌, Bool, Array, update, leb, ◌==◌, if◌then◌else◌,
  bit_and, bit_or,
}
use chip_eight_jit.Common.Bits.{test_bit}
use chip_eight_jit.Machine.{Machine}

abbrev pub input_ticks : ℕ
input_ticks = 10

-- `NANOS_PER_TICK / 10`
abbrev pub nanos_per_input_tick : ℕ
nanos_per_input_tick = 16_666_666 / 10

-- `machine` is the state of src/chip8.h with the runtime's timers, its `last_tick` and the screen; its
-- virtual clock is not used. `ticks`, `times` and `key_reads` hold what the calls of `tick ()`, of
-- `clock_gettime` in `poll_keys_if_due` and of `read_keys_io ()` will return, in order.
pub record Host : Type 0 where
  pub machine : Machine
  pub retired : ℕ
  pub key_history : Array
  pub key_slot : ℕ
  pub last_key_poll : ℕ
  pub ticks : Array
  pub times : Array
  pub key_reads : Array

-- The readings after the next one.
abbrev pub later : Array → Array
later a i = a (suc i)

-- A timer at 0 stays there, as `◌-◌` does.
unfoldable pub service_timers : Host → Host
service_timers h =
    let m = h.machine in
    let now = h.ticks 0 in
    let read = record h { ticks = later h.ticks } in
    if now == m.last_tick then read else record read {
      machine = record m {
        delay_timer = m.delay_timer - 1;
        sound_timer = m.sound_timer - 1;
        last_tick = now;
      };
    }

unfoldable pub poll_keys : Host → Host
poll_keys h = record h {
  key_history = update h.key_history h.key_slot (h.key_reads 0);
  key_slot = (h.key_slot + 1) % input_ticks;
  key_reads = later h.key_reads;
}

-- `now - last_key_poll >= NANOS_PER_INPUT_TICK`, on a clock that does not go back.
unfoldable pub poll_keys_if_due : Host → Host
unfolding poll_keys
poll_keys_if_due h =
    let now = h.times 0 in
    let read = record h { times = later h.times } in
    if leb (h.last_key_poll + nanos_per_input_tick) now
    then record (poll_keys read) { last_key_poll = now }
    else read

-- The loop of `keys`, from entry `i` on, with `left` entries to go.
unfoldable pub keys_from : Array → ℕ → ℕ → ℕ → ℕ
keys_from history zero i down = down
keys_from history (suc left) i down = keys_from history left (i + 1) (bit_or down (history i))

unfoldable pub keys : Host → ℕ
keys h = keys_from h.key_history input_ticks 0 0

-- The loop of `clear_key` likewise, for a key below 32.
unfoldable pub clear_from : ℕ → ℕ → ℕ → Array → Array
clear_from key zero i history = history
clear_from key (suc left) i history =
    clear_from key left (i + 1) (update history i (bit_and (history i) (2 ^ 32 - 1 - 2 ^ key)))

unfoldable pub release_key : ℕ → Host → Host
release_key key h = record h { key_history = clear_from key input_ticks 0 h.key_history }

-- `chip8_aot_retire`: whether to stop, as the quit key is down.
unfoldable pub aot_retire : Host → Bool × Host
aot_retire h =
    let counted = record h { retired = (h.retired + 1) % 2 ^ 32 } in
    let polled = poll_keys_if_due counted in
    let served = if polled.retired % 32 == 0 then service_timers polled else polled in
    (test_bit (keys served) 31, served)
