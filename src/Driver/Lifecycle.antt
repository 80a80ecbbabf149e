-- ===== src/Driver/Lifecycle.antt =====
-- Beginning, ending and recovering (src/MAX31865.cpp, `begin`, `end` and
-- `recover`).
pub mod Verified
pub mod Outcomes
use max.Prelude.{[], ℕ, Bool, true, false, not, ◌&&◌, ◌||◌, ◌∷◌, pos, ltb, if◌then◌else◌}
use max.Status.{
  Error, invalid_state, not_initialized, timing_unavailable, bus_lock_timeout, bus_lock_failed,
  spi_transfer_failed, operation_timeout, same_code, Status, Failure, fail, err, State,
  uninitialized, ready,
}
use max.Commands.{reg_config, config_reset}
use max.Driver.{Transport, Driver, Operation, operation_at, reset_local_state}
use max.Driver.Action.{
  ◌>>=◌, Step, lift, raise, gets, attempt, ◌>>◌, on_status, modify_driver, modify_operation, skip,
  when,
}
use max.Driver.Binding.{BeginConfig, begin_refusal}
use max.Driver.Clock.{now_ms, sleep_ms, elapsed_ms}
use max.Driver.Bus.{faulted, synchronize_chip_select}
use max.Driver.Access.{idle, write_registers_internal, verify_desired_image}
use max.Driver.Apply.{apply_configuration_internal, clear_faults_internal}
use max.Driver.Health.{finish}
use max.Driver.Requests.{validate_timeout, make_operation}
use max.Driver.Stop.{stop_internal}
use max.Driver.FaultCycle.{resolve_fault_cycle_internal}

abbrev pub is_uninitialized : State → Bool
is_uninitialized uninitialized = true
is_uninitialized _ = false

-- The members that `begin` sets before it talks to the device.
abbrev pub bound : BeginConfig → Driver → Driver
bound config d = faulted (record d {
  desired = config.initial_device_config;
  input_filter_time_constant_us = config.input_filter_time_constant_us;
  default_operation_timeout_ms = config.default_operation_timeout_ms;
  offline_threshold = config.offline_threshold;
})

abbrev pub begun : Driver → Driver
begun d = record d { state = ready; configuration_known = true }

abbrev pub recovered : Driver → Driver
recovered d = record d { state = ready; conversion = idle d.conversion; configuration_known = true }

-- What `recover` may put back of the driver that it started from.
abbrev pub restored : Driver → Driver → Driver
restored baseline d = record d {
  state = baseline.state;
  configuration_known = baseline.configuration_known;
  conversion = baseline.conversion;
  observed_valid_mask = baseline.observed_valid_mask;
  observed = baseline.observed;
}

abbrev pub refused_with : Status → Driver → Driver
refused_with status d = record d { last_operation = status }

-- The failures after which the transport alone may be at fault.
abbrev pub is_transport_failure : Error → Bool
is_transport_failure code =
    same_code code invalid_state
    || same_code code bus_lock_timeout
    || same_code code bus_lock_failed
    || same_code code spi_transfer_failed
    || same_code code operation_timeout
    || same_code code timing_unavailable

-- `stateProvablyUnchanged`.
unfoldable pub provably_unchanged : Driver → Operation → Failure → Bool
provably_unchanged baseline o f =
    is_transport_failure f.code
    && not o.any_write_may_have_applied
    && not baseline.conversion.one_shot_commit_pending
    && not o.last_deassert_unknown
    && not o.unsafe_state_observed

module _ {W : Type 0} (t : Transport W) where
  unfoldable pub refuse : Status → Step W (Unit {0})
  refuse status = modify_driver (refused_with status) >> lift status

  -- The delay before the device is ready, outside the deadline of `begin`.
  unfoldable pub power_ready : BeginConfig → Step W (Unit {0})
  power_ready config = do
    before ← now_ms t
    modify_operation
        (λ o. record o { start_ms = before; timeout_ms = config.default_operation_timeout_ms })
    sleep_ms t config.power_ready_delay_ms
    after ← now_ms t
    if ltb (elapsed_ms after before) config.power_ready_delay_ms
        then raise timing_unavailable "power-ready sleep did not advance the monotonic clock"
            (pos 0)
        else skip

  unfoldable pub bring_up : BeginConfig → Step W (Unit {0})
  bring_up config = do
    when (ltb 0 config.power_ready_delay_ms) (power_ready config)
    make_operation t config.default_operation_timeout_ms
    synchronize_chip_select t
    resolve_fault_cycle_internal t
    d ← gets (λ s. s.driver)
    apply_configuration_internal t d.desired
    clear_faults_internal t
    verify_desired_image t

  unfoldable pub begin_bound : BeginConfig → Step W (Unit {0})
  begin_bound config = do
    modify_driver (bound config)
    modify_operation (λ _. operation_at 0 0)
    status ← attempt (bring_up config)
    on_status status (λ _. modify_driver begun) λ f. modify_driver faulted >> lift (err f)

  unfoldable pub begin : BeginConfig → Step W (Unit {0})
  begin config = do
    d ← gets (λ s. s.driver)
    if not (is_uninitialized d.state)
        then refuse (fail invalid_state "begin is legal only while Uninitialized" (pos 0))
        else on_status (begin_refusal t config) (λ _. finish true (begin_bound config))
            λ f. refuse (err f)

  unfoldable pub end : Step W (Unit {0})
  end = modify_driver (λ _. reset_local_state)

  unfoldable pub recover_device : Step W (Unit {0})
  recover_device = do
    synchronize_chip_select t
    d ← gets (λ s. s.driver)
    when d.conversion.one_shot_armed (stop_internal t)
    resolve_fault_cycle_internal t
    write_registers_internal t reg_config (config_reset ∷ []) 1
    now ← gets (λ s. s.driver)
    apply_configuration_internal t now.desired
    clear_faults_internal t

  -- After a failure the driver keeps what it knew only where nothing can have changed.
  unfoldable pub recover_failed : Driver → Failure → Step W (Unit {0})
  recover_failed baseline f = do
    o ← gets (λ s. s.operation)
    modify_driver (if provably_unchanged baseline o f then restored baseline else faulted)
    lift (err f)

  unfoldable pub recover_request : ℕ → Step W (Unit {0})
  recover_request timeout_ms = do
    modify_operation (λ _. operation_at 0 0)
    lift (validate_timeout timeout_ms false)
    make_operation t timeout_ms
    baseline ← gets (λ s. s.driver)
    status ← attempt recover_device
    on_status status (λ _. modify_driver recovered) (recover_failed baseline)

  unfoldable pub recover : ℕ → Step W (Unit {0})
  recover timeout_ms = do
    d ← gets (λ s. s.driver)
    if is_uninitialized d.state
        then refuse (fail not_initialized "driver is not initialized" (pos 0))
        else finish true (recover_request timeout_ms)
