-- ===== src/Examples/Waits.antt =====
-- A device that is busy for some milliseconds, on a clock of 32 bits that comes round while the
-- driver waits, and the runs of the two waits on it.
use max.Prelude.{
  [], ◌∷◌, List, ℕ, ◌+◌, ◌%◌, ◌≡◌, refl, true, false, none, ltb, ◌&&◌, ◌==◌, get_or, arith,
  if◌then◌else◌,
}
use max.Status.{ready, converting}
use max.Driver.{Transport, Context, operation_at, no_session, reset_local_state}
use max.Driver.Clock.{
  raise_timeout, now_ms, lock_bus, unlock_bus, set_chip_select, transfer, sleep_ms, delay_us,
  deadline_expired, deadline_remaining_ms, check_deadline, after_deadline, sleep_within_deadline,
}
use max.Driver.Action.{◌>>=◌}
use max.Driver.Bus.{
  try_lock, restart, deasserted, deassert_first, release, synchronize_chip_select, asserted, select,
  open_session, transfer_in_session, frame_closed, frame_open, close_frame, close_session,
  frame_result, transact,
}
use max.Protocol.{encode_read_frame}
use max.Driver.Normalize.{
  normalize_chip_select_status, normalize_transfer_status, normalize_required_deassert_status,
}
use max.Driver.Access.{read_registers_internal}
use max.Driver.FaultCycle.{read_config_register, wait_cycle, wait_for_fault_cycle}
use max.Driver.Readiness.{update_timed_readiness}
use max.Driver.Conversions.{
  read_fault_register, observe_fault_register, confirm_timed, timed_ready, data_ready_internal,
  await_next, wait_ready, wait_for_ready_internal,
}
use max.Driver.Deadline.{IsClock}

-- What the clock shows `w` milliseconds after its reading of 4294967294.
abbrev reading : ℕ → ℕ
reading w = (4294967294 + w) % 4294967296

-- A fault-detection cycle runs for three milliseconds.
abbrev answer : List ℕ → ℕ → List ℕ
answer tx w = if (get_or tx 0 1 == 0) && ltb w 3 then 0 ∷ 4 ∷ [] else tx

-- The world is the time in milliseconds since the operation started.
abbrev pub wrapping : Transport ℕ
wrapping = record {
  has_lock_bus = false;
  has_unlock_bus = false;
  has_set_chip_select = true;
  has_transfer = true;
  has_read_pin = false;
  has_now_ms = true;
  has_sleep_ms = true;
  has_delay_us = true;
  has_now_us = false;
  has_drdy = false;
  lock_bus = λ ms w. (none, w);
  unlock_bus = λ w. w;
  set_chip_select = λ on w. (none, w);
  transfer = λ tx ms w. (none, answer tx w, w);
  read_pin = λ w. (none, false, w);
  now_ms = λ w. (reading w, w);
  now_us = λ w. (0, w);
  sleep_ms = λ ms w. w + ms;
  delay_us = λ us w. w;
}

pub wrapping-IsClock : IsClock wrapping 4294967294 (λ w. w)
wrapping-IsClock = record {
  word = omega arith;
  shown = λ w. ground arith;
  now = λ w. omega arith;
  slept = λ ms w. omega arith;
  delayed = λ us w. omega arith;
  unlocked = λ w. omega arith;
  locked = λ ms w. omega arith;
  selected = λ on w. omega arith;
  transferred = λ tx ms w. omega arith;
  pin = λ w. omega arith;
}

abbrev pub cycling : Context ℕ
cycling = record {
  driver = record reset_local_state { state = ready; configuration_known = true };
  operation = operation_at 4294967294 250;
  session = no_session;
  world = 0;
}

-- A conversion whose result is due four milliseconds after the start, past the wrap.
abbrev pub awaiting : Context ℕ
awaiting = record cycling {
  driver = record cycling.driver {
    state = converting;
    conversion = record cycling.driver.conversion {
      continuous = true;
      fresh_result_armed = true;
      next_ready_ms = 2;
    };
  };
}

pub cycled : (wait_for_fault_cycle wrapping cycling).1.world ≡ 3
unfolding ◌>>=◌ wait_for_fault_cycle wait_for_ready_internal raise_timeout now_ms lock_bus
    unlock_bus set_chip_select transfer sleep_ms delay_us deadline_expired deadline_remaining_ms
    check_deadline after_deadline sleep_within_deadline try_lock restart deasserted deassert_first
    release synchronize_chip_select asserted select open_session transfer_in_session frame_closed
    frame_open close_frame close_session frame_result transact read_registers_internal
    read_config_register wait_cycle update_timed_readiness read_fault_register
    observe_fault_register confirm_timed timed_ready data_ready_internal await_next wait_ready
    encode_read_frame normalize_chip_select_status normalize_transfer_status
    normalize_required_deassert_status
cycled = refl

pub awaited : (wait_for_ready_internal wrapping awaiting).1.world ≡ 4
unfolding ◌>>=◌ wait_for_fault_cycle wait_for_ready_internal raise_timeout now_ms lock_bus
    unlock_bus set_chip_select transfer sleep_ms delay_us deadline_expired deadline_remaining_ms
    check_deadline after_deadline sleep_within_deadline try_lock restart deasserted deassert_first
    release synchronize_chip_select asserted select open_session transfer_in_session frame_closed
    frame_open close_frame close_session frame_result transact read_registers_internal
    read_config_register wait_cycle update_timed_readiness read_fault_register
    observe_fault_register confirm_timed timed_ready data_ready_internal await_next wait_ready
    encode_read_frame normalize_chip_select_status normalize_transfer_status
    normalize_required_deassert_status
awaited = refl
