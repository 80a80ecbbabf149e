-- ===== src/Driver/Start.antt =====
-- Starting a conversion, and the requests that start and stop one (src/MAX31865.cpp,
-- `flushRtdReadyState`, `startContinuousInternal`, `triggerSingleInternal`, `startContinuous`,
-- `triggerSingleConversion`, `stop` and `dataReady`).
use max.Prelude.{ℕ, Bool, true, false, not, ◌&&◌, ◌||◌, pos, bit_and, ◌==◌, get_or, if◌then◌else◌}
use max.Status.{
  device_fault, gpio_failed, operation_timeout, same_code, any, Status, err, is_ok, status_of,
  converting,
}
use max.Commands.{reg_rtd_msb, rtd_fault_bit, config_one_shot}
use max.Config.{bias_settle_us_for, single_conversion_time_ms}
use max.Driver.{Transport, Driver, Operation, Counters, operation_at, saturating_increment}
use max.Driver.Action.{
  Step, pure, lift, raise, gets, attempt, ◌>>=◌, ◌>>◌, on_status, modify, modify_driver,
  modify_counters, modify_operation, skip, when,
}
use max.Driver.Clock.{now_ms, check_deadline, sleep_within_deadline}
use max.Driver.Access.{read_registers_internal}
use max.Driver.Apply.{write_runtime_config, clear_faults_internal}
use max.Driver.Health.{
  TrackingOutcome, untracked, tracked_success, tracking_for, finish_operation, finish,
}
use max.Driver.Requests.{validate_timeout, require_ready, require_operational, make_operation}
use max.Driver.Faults.{read_fault_status_internal}
use max.Driver.Conversions.{count_gpio_failure, conversion_started, read_level, data_ready_internal}
use max.Driver.Stop.{stop_internal, restore_idle_after_primary_failure}

abbrev pub count_fault_observation : Counters → Counters
count_fault_observation c = record c {
  fault_observation = saturating_increment c.fault_observation;
}

-- The members that the start of a conversion sets.
abbrev pub conversion_running : Bool → Bool → Bool → ℕ → Driver → Driver
conversion_running continuous pending uncertain now d = record d {
  conversion =
      conversion_started continuous pending uncertain now
        (single_conversion_time_ms d.desired.filter);
  state = converting;
}

module _ {W : Type 0} (t : Transport W) where
  abbrev undocumented_fault : Step W (Unit {0})
  undocumented_fault = do
    modify_counters count_fault_observation
    raise device_fault "RTD flush reports a fault with no documented status bit" (pos 0)

  -- The fault bit of a flushed frame: the categories are read, and the fault reported.
  unfoldable pub flush_fault : Step W (Unit {0})
  flush_fault = do
    outcome ← attempt (read_fault_status_internal t true)
    on_status outcome (λ found. if any found.0 then lift found.1 else undocumented_fault)
        λ f.
          if same_code f.code device_fault
          then undocumented_fault
          else modify_counters count_fault_observation >> lift (err f)

  -- DRDY goes high when the data is read.
  unfoldable pub flush_level : Step W (Unit {0})
  flush_level = do
    status ← attempt do
      level ← read_level t
      if level
          then skip
          else modify_counters count_gpio_failure
            >> raise gpio_failed "DRDY remained low after RTD acknowledgement" (pos 0)
    check_deadline t
    lift status

  unfoldable pub flush_rtd_ready_state : Step W (Unit {0})
  flush_rtd_ready_state = do
    discarded ← read_registers_internal t reg_rtd_msb 2
    if not (bit_and (get_or discarded 1 0) rtd_fault_bit == 0)
        then flush_fault
        else when t.has_drdy flush_level

  -- The bias is on; the step after it, and whether a write may have changed the device.
  unfoldable pub with_bias : Step W (Unit {0}) → Step W (Bool × Status)
  with_bias start = do
    clear_faults_internal t
    biased ← attempt (write_runtime_config t true false 0)
    o ← gets (λ s. s.operation)
    status ← attempt do
      lift biased
      d ← gets (λ s. s.driver)
      sleep_within_deadline t (bias_settle_us_for d.input_filter_time_constant_us) operation_timeout
      start
    pure (is_ok biased || o.last_transfer_attempted, status)

  unfoldable pub run_conversion : Bool → Bool → Bool → Step W (Unit {0})
  run_conversion continuous pending uncertain = do
    now ← now_ms t
    modify_driver (conversion_running continuous pending uncertain now)

  -- The end of both starts: the conversion runs, unless the deadline has passed.
  unfoldable pub conclude_start : Bool → Bool × Status → Step W (Unit {0})
  conclude_start continuous outcome =
      on_status (outcome.1)
        (λ _. do
          run_conversion continuous false false
          late ← attempt (check_deadline t)
          on_status late (λ _. skip) (restore_idle_after_primary_failure t))
        λ f. if outcome.0 then restore_idle_after_primary_failure t f else lift (err f)

  unfoldable pub start_continuous_internal : Step W (Unit {0})
  start_continuous_internal = do
    outcome ← with_bias do flush_rtd_ready_state; write_runtime_config t true true 0
    conclude_start true outcome

  -- A failed one-shot command that may have reached the device counts as running.
  unfoldable pub command_one_shot : Step W (Unit {0})
  command_one_shot = do
    status ← attempt (write_runtime_config t true false config_one_shot)
    o ← gets (λ s. s.operation)
    when (not (is_ok status) && o.last_transfer_attempted)
        (run_conversion false o.last_deassert_unknown (not o.last_transfer_applied))
    lift status

  unfoldable pub trigger_single_internal : Step W (Unit {0})
  trigger_single_internal = do
    outcome ← with_bias (flush_rtd_ready_state >> command_one_shot)
    conclude_start false outcome

  -- The head of a public operation: its guards, and then the operation's clock.
  unfoldable pub request : {A : Type 0} → (Driver → Status) → ℕ → Bool → Step W A → Step W A
  request guard timeout_ms allow_zero body = do
    modify_operation (λ _. operation_at 0 0)
    d ← gets (λ s. s.driver)
    lift (guard d)
    lift (validate_timeout timeout_ms allow_zero)
    make_operation t timeout_ms
    body

  unfoldable pub start_continuous : ℕ → Step W (Unit {0})
  start_continuous timeout_ms =
      finish true (request require_ready timeout_ms false start_continuous_internal)

  unfoldable pub trigger_single_conversion : ℕ → Step W (Unit {0})
  trigger_single_conversion timeout_ms =
      finish true (request require_ready timeout_ms false trigger_single_internal)

  unfoldable pub stop : ℕ → Step W (Unit {0})
  stop timeout_ms = finish true (request require_operational timeout_ms false (stop_internal t))

  -- A look at the device counts as a success only where a frame went through.
  abbrev pub track_look : Status → Operation → TrackingOutcome
  track_look status o =
      if is_ok status
      then (if o.last_frame_committed then tracked_success else untracked)
      else tracking_for status false

  -- Without an expected result the answer is known, and no callback is called.
  unfoldable pub look : ℕ → Step W Bool
  look timeout_ms = do
    modify_operation (λ _. operation_at 0 0)
    d ← gets (λ s. s.driver)
    lift (require_operational d)
    lift (validate_timeout timeout_ms false)
    if not d.conversion.fresh_result_armed
        then pure false
        else make_operation t timeout_ms >> data_ready_internal t

  unfoldable pub data_ready : ℕ → Step W Bool
  data_ready timeout_ms = do
    result ← attempt (look timeout_ms)
    modify (λ s. record s {
      driver =
          finish_operation (status_of result) (track_look (status_of result) s.operation)
            s.operation s.driver;
    })
    lift result
