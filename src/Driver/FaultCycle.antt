-- ===== src/Driver/FaultCycle.antt =====
-- A fault-detection cycle or a conversion command that the device may still run
-- (src/MAX31865.cpp, `waitForFaultCycle` and `resolveFaultCycleInternal`).
pub mod Rules
pub mod Fuel
use max.Prelude.{
  ℕ, zero, suc, ◌+◌, ◌*◌, Bool, true, false, not, ◌&&◌, ◌||◌, pos, bit_and, ◌==◌, get_or, u32,
  if◌then◌else◌,
}
use max.Status.{operation_timeout, register_verify_failed}
use max.Commands.{
  reg_config, reg_rtd_msb, config_one_shot, config_fault_cycle_mask, config_fault_cycle_none,
  config_fault_cycle_manual_1, config_fault_cycle_manual_2, manual_fault_step1_to_open_us,
  manual_fault_step2_max_us, manual_fault_settle_multiplier,
}
use max.Config.{persistent_config_byte, persistent_byte_matches, single_conversion_time_ms}
use max.Driver.{Transport}
use max.Driver.Action.{
  ◌>>=◌, Step, pure, raise, gets, ◌>>◌, modify_conversion, modify_operation, skip, when,
}
use max.Driver.Clock.{now_ms, raise_timeout, sleep_within_deadline}
use max.Driver.Access.{read_registers_internal}
use max.Driver.Apply.{write_runtime_config}
use max.Driver.Conversions.{conversion_started}
use max.Driver.Stop.{unsafe_observed, stop_internal}

module _ {W : Type 0} (t : Transport W) where
  unfoldable pub read_config_register : Step W ℕ
  read_config_register = do bytes ← read_registers_internal t reg_config 1; pure (get_or bytes 0 0)

  abbrev sleep_us : ℕ → Step W (Unit {0})
  sleep_us us = sleep_within_deadline t us operation_timeout

  -- The loop of `waitForFaultCycle`, at most `fuel` times.
  unfoldable pub wait_cycle : ℕ → Step W (Unit {0})
  wait_cycle zero = raise_timeout operation_timeout
  wait_cycle (suc fuel) = do
    config ← read_config_register
    if bit_and config config_fault_cycle_mask == config_fault_cycle_none
        then skip
        else sleep_us 1000 >> wait_cycle fuel

  -- Each round but the last sleeps a millisecond of the timeout.
  unfoldable pub wait_for_fault_cycle : Step W (Unit {0})
  wait_for_fault_cycle = do o ← gets (λ s. s.operation); wait_cycle (o.timeout_ms + 1)

  -- The wait for the input filter with FORCE- open; the product is a `uint32_t`.
  unfoldable pub settle_input : Step W (Unit {0})
  settle_input = do
    d ← gets (λ s. s.driver)
    sleep_us (u32 (d.input_filter_time_constant_us * manual_fault_settle_multiplier))

  -- The second step of a manual cycle whose first one has been commanded.
  unfoldable pub complete_manual_cycle : Step W (Unit {0})
  complete_manual_cycle = do
    sleep_us manual_fault_step1_to_open_us
    settle_input
    write_runtime_config t true false config_fault_cycle_manual_2
    sleep_us manual_fault_step2_max_us

  -- `_conversionStartMs = nowMs(); _nextReadyMs = …` with the other members of a start.
  unfoldable pub start_conversion : Bool → Bool → Bool → Step W (Unit {0})
  start_conversion continuous pending uncertain = do
    now ← now_ms t
    d ← gets (λ s. s.driver)
    modify_conversion (λ _.
        conversion_started continuous pending uncertain now
          (single_conversion_time_ms d.desired.filter))

  -- A one-shot command that the driver did not give: its result is thrown away.
  unfoldable pub quarantine_one_shot : Step W ℕ
  quarantine_one_shot = do
    modify_operation unsafe_observed
    read_registers_internal t reg_rtd_msb 2
    start_conversion false false true
    stop_internal t
    read_config_register

  unfoldable pub resolve_cycle : ℕ → Step W (Unit {0})
  resolve_cycle config = do
    d ← gets (λ s. s.driver)
    let c = d.conversion
    let cycle = bit_and config config_fault_cycle_mask
    let bias = c.continuous || c.one_shot_armed || d.desired.bias_enabled
    let expected = persistent_config_byte d.desired bias c.continuous
    when
        (not (cycle == config_fault_cycle_none)
          || not (bit_and config config_one_shot == 0)
          || not (persistent_byte_matches reg_config config expected))
        (modify_operation unsafe_observed)
    when (cycle == config_fault_cycle_manual_1) complete_manual_cycle
    when (not (cycle == config_fault_cycle_none)) wait_for_fault_cycle
    again ← read_config_register
    if bit_and again config_fault_cycle_mask == config_fault_cycle_none
        then skip
        else raise register_verify_failed "fault-cycle state did not return to idle" (pos again)

  unfoldable pub resolve_fault_cycle_internal : Step W (Unit {0})
  resolve_fault_cycle_internal = do
    config ← read_config_register
    d ← gets (λ s. s.driver)
    settled ←
        if not (bit_and config config_one_shot == 0) && not d.conversion.one_shot_armed
        then quarantine_one_shot
        else pure config
    resolve_cycle settled
