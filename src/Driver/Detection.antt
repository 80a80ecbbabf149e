-- ===== src/Driver/Detection.antt =====
-- The fault-detection cycles and the fault requests (src/MAX31865.cpp, `readFaultStatus`,
-- `clearFaults`, `runAutomaticFaultDetection`, `runManualFaultDetection`,
-- `setFaultThresholdsRaw` and `readFaultThresholdsRaw`).
use max.Prelude.{ℕ, true, false, ◌||◌, Option, some, none, String, ltb, to_int32, if◌then◌else◌}
use max.Status.{
  operation_timeout, unsupported_command, restore_failed, device_fault, FaultStatus, Status, Result,
  ok, err, success, fail, is_ok, has_code, combined_failure_detail,
}
use max.Commands.{
  reg_high_fault_msb, config_fault_cycle_auto, config_fault_cycle_manual_1,
  auto_fault_detection_max_us, auto_fault_max_rc_us,
}
use max.Config.{
  FaultThresholds, validate_device_config, bias_settle_us_for, post_fault_settle_us_for,
}
use max.Config.Bytes.{threshold_bytes}
use max.Protocol.{decode_threshold}
use max.Driver.{Transport, Driver, operation_at}
use max.Driver.Action.{
  Step, pure, lift, raise, gets, attempt, ◌>>=◌, ◌>>◌, on_status, modify, modify_driver,
  modify_operation, when,
}
use max.Driver.Clock.{deadline_expired, sleep_within_deadline}
use max.Driver.Bus.{faulted}
use max.Driver.Access.{read_registers_internal, verify_desired_image}
use max.Driver.Apply.{
  configured, write_runtime_config, clear_faults_internal, apply_configuration_internal,
}
use max.Driver.Health.{finish_operation, tracking_for, finish}
use max.Driver.Requests.{validate_timeout, require_ready, require_operational, make_operation}
use max.Driver.Faults.{decode_fault_status, read_fault_status_internal}
use max.Driver.Stop.{in_cleanup, expired_result}
use max.Driver.FaultCycle.{
  wait_for_fault_cycle, complete_manual_cycle, resolve_fault_cycle_internal,
}
use max.Driver.Start.{request}

-- The status of an operation that has an output beside it.
abbrev pub joined : {A : Type 0} → Result (A × Status) → Status
joined (ok found) = found.1
joined (err f) = err f

-- The output that an operation started with, or the one that it found.
abbrev pub found_or : {A : Type 0} → A → Result (A × Status) → A
found_or a (ok found) = found.0
found_or a (err f) = a

-- `if (status.ok() || status.code == DeviceFault) out = candidate;`
abbrev pub published : {A : Type 0} → A → Status → Option A
published candidate status =
    if is_ok status || has_code device_fault status then some candidate else none

-- `MAX31865FaultStatus{}`.
abbrev pub no_fault : FaultStatus
no_fault = decode_fault_status 0

module _ {W A : Type 0} where
  -- `return finishOperation(status, trackingFor(status, true), operation)` with an output.
  abbrev pub finish_output : A → Step W (A × Status) → Step W (Option A × Status)
  finish_output initial m = do
    outcome ← attempt m
    modify (λ s. record s {
      driver =
          finish_operation (joined outcome) (tracking_for (joined outcome) true) s.operation
            s.driver;
    })
    pure (published (found_or initial outcome) (joined outcome), joined outcome)

module _ {W : Type 0} (t : Transport W) where
  unfoldable pub read_fault_status : ℕ → Step W (Option FaultStatus × Status)
  read_fault_status timeout_ms =
      finish_output no_fault
        (request t require_operational timeout_ms true (read_fault_status_internal t true))

  unfoldable pub clear_faults : ℕ → Step W (Unit {0})
  clear_faults timeout_ms =
      finish true (request t require_ready timeout_ms false (clear_faults_internal t))

  -- The desired image again, once no cycle and no command is left in the device.
  unfoldable pub restore_image : Step W (Unit {0})
  restore_image = do
    resolve_fault_cycle_internal t
    d ← gets (λ s. s.driver)
    write_runtime_config t d.desired.bias_enabled false 0
    when d.desired.bias_enabled (
        sleep_within_deadline t (post_fault_settle_us_for d.input_filter_time_constant_us)
          operation_timeout)
    verify_desired_image t

  -- The cleanup of a cycle that may have changed the device; `message` tells which cycle it was.
  unfoldable pub conclude_cycle : String → Status → Step W (Unit {0})
  conclude_cycle message status = do
    expired ← deadline_expired t
    result ← attempt (expired_result t expired status)
    cleanup ← in_cleanup t expired restore_image
    on_status cleanup (λ _. modify_driver configured >> lift result)
        λ c. do
          modify_driver faulted
          on_status result (λ _. lift (err c))
              λ f. raise restore_failed message (combined_failure_detail f.code c.code)

  -- The part of a cycle that follows the bias: its commands and waits, and then its result.
  unfoldable pub run_cycle : Status → Step W (Unit {0}) → Step W (FaultStatus × Status)
  run_cycle biased commands = do
    lift biased
    d ← gets (λ s. s.driver)
    sleep_within_deadline t (bias_settle_us_for d.input_filter_time_constant_us) operation_timeout
    commands
    wait_for_fault_cycle t
    read_fault_status_internal t true

  -- Both detections, which differ in their commands and in a message.
  unfoldable pub detect_faults : String → Step W (Unit {0}) → Step W (FaultStatus × Status)
  detect_faults message commands = do
    clear_faults_internal t
    biased ← attempt (write_runtime_config t true false 0)
    o ← gets (λ s. s.operation)
    outcome ← attempt (run_cycle biased commands)
    status ← attempt (
        if is_ok biased || o.last_transfer_attempted
        then conclude_cycle message (joined outcome)
        else lift (joined outcome))
    pure (found_or no_fault outcome, status)

  unfoldable pub automatic_commands : Step W (Unit {0})
  automatic_commands = do
    write_runtime_config t true false config_fault_cycle_auto
    sleep_within_deadline t auto_fault_detection_max_us operation_timeout

  unfoldable pub manual_commands : Step W (Unit {0})
  manual_commands = do
    write_runtime_config t true false config_fault_cycle_manual_1
    complete_manual_cycle t

  abbrev require_short_filter : Driver → Status
  require_short_filter d =
      if ltb auto_fault_max_rc_us d.input_filter_time_constant_us
      then fail unsupported_command "automatic fault detection requires RC <= 100 us"
          (to_int32 d.input_filter_time_constant_us)
      else success

  unfoldable pub automatic_request : ℕ → Step W (FaultStatus × Status)
  automatic_request timeout_ms = do
    modify_operation (λ _. operation_at 0 0)
    d ← gets (λ s. s.driver)
    lift (require_ready d)
    lift (validate_timeout timeout_ms false)
    lift (require_short_filter d)
    make_operation t timeout_ms
    detect_faults "fault cycle and configuration restore both failed" automatic_commands

  unfoldable pub run_automatic_fault_detection : ℕ → Step W (Option FaultStatus × Status)
  run_automatic_fault_detection timeout_ms = finish_output no_fault (automatic_request timeout_ms)

  unfoldable pub run_manual_fault_detection : ℕ → Step W (Option FaultStatus × Status)
  run_manual_fault_detection timeout_ms = finish_output no_fault (
      request t require_ready timeout_ms false
        (detect_faults "manual fault cycle and restore both failed" manual_commands))

  unfoldable pub thresholds_request : FaultThresholds → ℕ → Step W (Unit {0})
  thresholds_request thresholds timeout_ms = do
    modify_operation (λ _. operation_at 0 0)
    d ← gets (λ s. s.driver)
    let candidate = record d.desired { thresholds = thresholds }
    lift (require_ready d)
    lift (validate_timeout timeout_ms false)
    lift (validate_device_config candidate)
    make_operation t timeout_ms
    apply_configuration_internal t candidate

  unfoldable pub set_fault_thresholds_raw : FaultThresholds → ℕ → Step W (Unit {0})
  set_fault_thresholds_raw thresholds timeout_ms =
      finish true (thresholds_request thresholds timeout_ms)

  unfoldable pub read_thresholds : Step W FaultThresholds
  read_thresholds = do
    bytes ← read_registers_internal t reg_high_fault_msb 4
    let read = threshold_bytes bytes
    pure (record {
      low_code = decode_threshold read.low_msb read.low_lsb;
      high_code = decode_threshold read.high_msb read.high_lsb;
    })

  unfoldable pub read_fault_thresholds_raw : ℕ → Step W FaultThresholds
  read_fault_thresholds_raw timeout_ms =
      finish true (request t require_ready timeout_ms false read_thresholds)
