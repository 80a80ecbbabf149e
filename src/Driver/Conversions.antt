-- ===== src/Driver/Conversions.antt =====
-- Conversion readiness (src/MAX31865.cpp, `dataReadyInternal` and `waitForReadyInternal`).
pub mod Rules
pub mod Fuel
use max.Prelude.{
  ℕ, zero, suc, ◌+◌, Bool, true, false, not, ◌&&◌, ◌||◌, pos, bit_and, ◌==◌, get_or, if◌then◌else◌,
  add32,
}
use max.Status.{
  Error, gpio_failed, device_fault, invalid_state, no_data, drdy_timeout, operation_timeout,
  has_code, err,
}
use max.Commands.{reg_fault_status, fault_over_under_voltage}
use max.Config.{single_conversion_time_ms}
use max.Driver.{Transport, Counters, Conversion, Stamps, saturating_increment}
use max.Driver.Action.{
  ◌>>=◌, Step, pure, lift, raise, gets, attempt, ◌>>◌, on_status, modify_driver, modify_counters,
  modify_conversion, modify_stamps, skip, when,
}
use max.Driver.Normalize.{normalize_gpio_status}
use max.Driver.Clock.{
  now_ms, read_pin, time_reached, check_deadline, raise_timeout, sleep_within_deadline,
}
use max.Driver.Access.{read_registers_internal}
use max.Driver.Faults.{decode_fault_status, record_fault_observation}
use max.Driver.Readiness.{is_converting, update_timed_readiness}

abbrev pub count_gpio_failure : Counters → Counters
count_gpio_failure c = record c { gpio_failure = saturating_increment c.gpio_failure }

abbrev pub count_no_data : Counters → Counters
count_no_data c = record c { no_data = saturating_increment c.no_data }

-- `_hasLastFaultStatus = true; _lastFaultStatus = raw;`
abbrev pub fault_noted : ℕ → Stamps → Stamps
fault_noted raw x = record x { has_last_fault_status = true; last_fault_status = raw }

-- The protected-input voltage bit, D2.
abbrev pub is_voltage_fault : ℕ → Bool
is_voltage_fault raw = not (bit_and raw fault_over_under_voltage == 0)

abbrev pub halted : Conversion → Conversion
halted c = record c { timed_readiness_halted = true }

-- A fresh full conversion horizon from `now` on, one millisecond longer than the conversion.
abbrev pub rearmed : ℕ → ℕ → Conversion → Conversion
rearmed now conversion_ms c = record c {
  conversion_start_ms = now;
  next_ready_ms = add32 (add32 now conversion_ms) 1;
  ready_latched = false;
  timed_readiness_halted = false;
}

-- A conversion that starts at `now`, continuous or single; the command of a single one may be
-- pending or uncertain.
abbrev pub conversion_started : Bool → Bool → Bool → ℕ → ℕ → Conversion
conversion_started continuous pending uncertain now conversion_ms = record {
  continuous = continuous;
  one_shot_armed = not continuous;
  one_shot_commit_pending = pending;
  one_shot_commit_uncertain = uncertain;
  fresh_result_armed = true;
  ready_latched = false;
  timed_readiness_halted = false;
  conversion_start_ms = now;
  next_ready_ms = add32 (add32 now conversion_ms) 1;
}

module _ {W : Type 0} (t : Transport W) where
  -- The DRDY level, unless the deadline has passed or the callback fails, which is counted.
  unfoldable pub read_level : Step W Bool
  read_level = do
    status ← attempt do
      check_deadline t
      (raw, level) ← read_pin t
      on_status (normalize_gpio_status raw) (λ _. pure level) λ f. lift (err f)
    when (has_code gpio_failed status) (modify_counters count_gpio_failure)
    lift status

  -- The same with the deadline looked at again; a timeout takes the place of a failed read.
  unfoldable pub read_drdy : Step W Bool
  read_drdy = do status ← attempt read_level; check_deadline t; lift status

  unfoldable pub read_fault_register : Step W ℕ
  read_fault_register = do
    bytes ← read_registers_internal t reg_fault_status 1
    pure (get_or bytes 0 0)

  -- The register with its documented bits kept as the last observation.
  unfoldable pub observe_fault_register : Step W ℕ
  observe_fault_register = do
    raw ← read_fault_register
    modify_stamps (fault_noted (decode_fault_status raw).raw)
    pure raw

  unfoldable pub rearm : Step W (Unit {0})
  rearm = do
    now ← now_ms t
    d ← gets (λ s. s.driver)
    modify_conversion (rearmed now (single_conversion_time_ms d.desired.filter))

  unfoldable pub note_halt : ℕ → Step W (Unit {0})
  note_halt raw = do
    modify_counters (record_fault_observation (decode_fault_status raw))
    modify_conversion halted

  -- DRDY high past the documented maximum: a voltage fault may have halted the converter.
  unfoldable pub inspect_late_drdy : Step W Bool
  inspect_late_drdy = do
    raw ← observe_fault_register
    if is_voltage_fault raw
        then note_halt raw
          >> raise device_fault "voltage fault halted DRDY conversion readiness" (pos raw)
        else pure false

  unfoldable pub drdy_ready : Step W Bool
  drdy_ready = do
    level ← read_drdy
    if not level then pure true else do
      now ← now_ms t
      check_deadline t
      d ← gets (λ s. s.driver)
      if time_reached now d.conversion.next_ready_ms then inspect_late_drdy else pure false

  -- A latched result without DRDY counts only while no voltage fault has halted the converter.
  unfoldable pub confirm_timed : Bool → Step W Bool
  confirm_timed was_halted = do
    raw ← observe_fault_register
    if is_voltage_fault raw
        then note_halt raw
          >> raise device_fault "voltage fault halted elapsed-time conversion readiness" (pos raw)
        else if was_halted
        then rearm >> check_deadline t >> pure false
        else pure true

  unfoldable pub timed_ready : Step W Bool
  timed_ready = do
    before ← gets (λ s. s.driver)
    now ← now_ms t
    modify_driver (update_timed_readiness now)
    check_deadline t
    d ← gets (λ s. s.driver)
    if not d.conversion.ready_latched
        then pure false
        else confirm_timed before.conversion.timed_readiness_halted

  unfoldable pub data_ready_internal : Step W Bool
  data_ready_internal = do
    d ← gets (λ s. s.driver)
    let c = d.conversion
    if c.one_shot_armed && (c.one_shot_commit_pending || c.one_shot_commit_uncertain)
        then raise invalid_state "uncertain one-shot command requires stop or recover" (pos 0)
        else if not c.fresh_result_armed || (not (is_converting d.state) && not c.one_shot_armed)
        then pure false
        else if t.has_drdy
        then drdy_ready
        else timed_ready

  -- The deadline of a wait for DRDY, or for the elapsed time.
  abbrev pub readiness_timeout : Error
  readiness_timeout = if t.has_drdy then drdy_timeout else operation_timeout

  -- What follows a look that found no result: without a timeout the caller is told so.
  unfoldable pub await_next : Step W (Unit {0})
  await_next = do
    o ← gets (λ s. s.operation)
    if o.timeout_ms == 0
        then modify_counters count_no_data >> raise no_data "fresh conversion is not ready" (pos 0)
        else sleep_within_deadline t 1000 readiness_timeout

  -- The loop of `waitForReadyInternal`, at most `fuel` times.
  unfoldable pub wait_ready : ℕ → Step W (Unit {0})
  wait_ready zero = raise_timeout readiness_timeout
  wait_ready (suc fuel) = do
    ready ← data_ready_internal
    if ready then skip else await_next >> wait_ready fuel

  -- Each round but the last sleeps a millisecond of the timeout.
  unfoldable pub wait_for_ready_internal : Step W (Unit {0})
  wait_for_ready_internal = do o ← gets (λ s. s.operation); wait_ready (o.timeout_ms + 1)
