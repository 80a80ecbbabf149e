-- ===== src/Examples/Operations.antt =====
-- Concrete runs of the theorems on the lifecycle, the loops and the raw access: a transport whose
-- clock stands still but for the sleeps, and whose callbacks all succeed.
use max.Prelude.{ℕ, ◌+◌, ◌≡◌, refl, true, false, none, arith, bit_and, ◌==◌, ◌⊎◌}
use max.Status.{success, ok, err, Failure, unsupported_command}
use max.Commands.{reg_config}
use max.Config.{
  DeviceConfig, default_device_config, persistent_config_byte, persistent_byte_matches,
}
use max.Driver.{Transport, Context, operation_at, no_session, reset_local_state}
use max.Driver.Action.Ends.{Outcome}
use max.Driver.Binding.{BeginConfig}
use max.Driver.Conversions.{wait_ready, wait_for_ready_internal}
use max.Driver.Conversions.Fuel.{wait_for_ready_internal-terminates}
use max.Driver.FaultCycle.{wait_cycle, wait_for_fault_cycle}
use max.Driver.FaultCycle.Fuel.{wait_for_fault_cycle-terminates}
use max.Driver.Stop.{stop_loop, no_wait_stop_pass_limit}
use max.Driver.Stop.NoWait.{stop_loop-no_wait}
use max.Driver.Lifecycle.{recover_request}
use max.Driver.Lifecycle.Outcomes.{IsRecovered, IsSettled, recover_request-Outcome}
use max.Driver.Raw.Candidate.{prepare_register_write_candidate}
use max.Driver.Raw.Written.{prepare_register_write_candidate-matches}
use max.Examples.Temperature.{millionths, plain}
use max.Examples.Waits.{wrapping, wrapping-IsClock, cycling, awaiting, cycled, awaited}
use max.Driver.Consistency.{is_consistent}
use max.Driver.Consistency.Reachable.{
  run, begin_with, start_it, constructed, called, Reachable-consistent,
}

-- The world is the time in milliseconds.
abbrev quiet_bench : Transport ℕ
quiet_bench = record {
  has_lock_bus = false;
  has_unlock_bus = false;
  has_set_chip_select = true;
  has_transfer = true;
  has_read_pin = false;
  has_now_ms = true;
  has_sleep_ms = true;
  has_delay_us = true;
  has_now_us = false;
  has_drdy = false;
  lock_bus = λ ms w. (none, w);
  unlock_bus = λ w. w;
  set_chip_select = λ on w. (none, w);
  transfer = λ tx ms w. (none, tx, w);
  read_pin = λ w. (none, false, w);
  now_ms = λ w. (w, w);
  now_us = λ w. (0, w);
  sleep_ms = λ ms w. w + ms;
  delay_us = λ us w. w;
}

abbrev first : Context ℕ
first = record {
  driver = reset_local_state;
  operation = operation_at 0 250;
  session = no_session;
  world = 0;
}

abbrev begin_config : BeginConfig
begin_config = record {
  initial_device_config = default_device_config;
  input_filter_time_constant_us = 100;
  rtd_status = success;
  power_ready_delay_ms = 10;
  default_operation_timeout_ms = 250;
  offline_threshold = 5;
}

Reachable-consistent_example :
    is_consistent
      (run quiet_bench plain
        (start_it 250)
        (run quiet_bench plain (begin_with begin_config) first)).driver
    ≡ true
Reachable-consistent_example =
    Reachable-consistent quiet_bench plain
      (run quiet_bench plain (start_it 250) (run quiet_bench plain (begin_with begin_config) first))
      (called (start_it 250) (run quiet_bench plain (begin_with begin_config) first)
        (called (begin_with begin_config) first (constructed first refl)))

wait_for_fault_cycle-terminates_example :
    wait_for_fault_cycle wrapping cycling ≡ wait_cycle wrapping 1000 cycling
wait_for_fault_cycle-terminates_example =
    wait_for_fault_cycle-terminates wrapping (λ w. w) 1000 cycling wrapping-IsClock (omega arith)
      (omega (arith, cycled))

wait_for_ready_internal-terminates_example :
    wait_for_ready_internal wrapping awaiting ≡ wait_ready wrapping 1000 awaiting
wait_for_ready_internal-terminates_example =
    wait_for_ready_internal-terminates wrapping (λ w. w) 1000 awaiting wrapping-IsClock
      (omega arith) (omega (arith, awaited))

recover_request-Outcome_example :
    Outcome
      (λ _. IsRecovered)
      (IsSettled first.driver 250)
      (recover_request quiet_bench 250 first).0
      (recover_request quiet_bench 250 first).1
recover_request-Outcome_example = recover_request-Outcome quiet_bench 250 first

prepare_register_write_candidate-matches_example :
    (((bit_and 0x91 0x6e == 0) ≡ true)
      × ((c : DeviceConfig) × (prepare_register_write_candidate default_device_config reg_config
              0x91
            ≡ ok c)
          × (c.thresholds ≡ default_device_config.thresholds)
          × (persistent_byte_matches reg_config (persistent_config_byte c c.bias_enabled false) 0x91
              ≡ true)))
    ⊎ (((bit_and 0x91 0x6e == 0) ≡ false)
        × ((f : Failure) × (prepare_register_write_candidate default_device_config reg_config 0x91
              ≡ err f)
            × (f.code ≡ unsupported_command)))
prepare_register_write_candidate-matches_example =
    prepare_register_write_candidate-matches default_device_config 0x91 (omega arith)

-- An operation that waits for nothing.
abbrev untimed : Context ℕ
untimed = record first { operation = operation_at 0 0 }

stop_loop-no_wait_example :
    stop_loop quiet_bench 3 no_wait_stop_pass_limit untimed
    ≡ stop_loop quiet_bench 5 no_wait_stop_pass_limit untimed
stop_loop-no_wait_example =
    stop_loop-no_wait quiet_bench 3 5 untimed refl (omega arith) (omega arith)
