-- ===== src/Driver.antt =====
-- The driver object (class `MAX31865`, include/MAX31865/MAX31865.h and src/MAX31865.cpp). The
-- members of the class are grouped into records; the context of an operation and the bus session,
-- which are locals of the source handed down by reference, stand beside them in `Context`.
pub mod Action
pub mod Normalize
pub mod Clock
pub mod Bus
pub mod Access
pub mod Apply
pub mod Health
pub mod Readiness
pub mod Requests
pub mod Faults
pub mod Probe
pub mod Conversions
pub mod Stop
pub mod FaultCycle
pub mod Start
pub mod Detection
pub mod Binding
pub mod Lifecycle
pub mod Samples
pub mod Sampling
pub mod Calls
pub mod Raw
pub mod Consistency
pub mod Deadline
use max.Prelude.{ℕ, ◌+◌, ◌-◌, Bool, false, Option, List, ltb, if◌then◌else◌, u32_max}
use max.Status.{Failure, Status, success, State, uninitialized}
use max.Config.{DeviceConfig, default_device_config, default_input_filter_time_constant_us}

-- The application's callbacks over whatever state `W` they share. A callback that can be null in
-- the source has a flag that says whether it is present; a null one is never called. A callback's
-- status is `none` for `Ok`, or the failure that it reports.
pub record Transport (W : Type 0) : Type 0 where
  pub has_lock_bus : Bool
  pub has_unlock_bus : Bool
  pub has_set_chip_select : Bool
  pub has_transfer : Bool
  pub has_read_pin : Bool
  pub has_now_ms : Bool
  pub has_sleep_ms : Bool
  pub has_delay_us : Bool
  pub has_now_us : Bool
  -- `capabilities.hasDrdy`
  pub has_drdy : Bool
  pub lock_bus : ℕ → W → Option Failure × W
  pub unlock_bus : W → W
  pub set_chip_select : Bool → W → Option Failure × W
  -- the bytes sent and the time left; the second part of the result is what was received
  pub transfer : List ℕ → ℕ → W → Option Failure × List ℕ × W
  pub read_pin : W → Option Failure × Bool × W
  pub now_ms : W → ℕ × W
  pub now_us : W → ℕ × W
  pub sleep_ms : ℕ → W → W
  pub delay_us : ℕ → W → W

-- `_observedRegisters`.
pub record Registers : Type 0 where
  pub config : ℕ
  pub rtd_msb : ℕ
  pub rtd_lsb : ℕ
  pub high_fault_msb : ℕ
  pub high_fault_lsb : ℕ
  pub low_fault_msb : ℕ
  pub low_fault_lsb : ℕ
  pub fault_status : ℕ

-- The members that follow a conversion.
pub record Conversion : Type 0 where
  pub continuous : Bool
  pub one_shot_armed : Bool
  pub one_shot_commit_pending : Bool
  pub one_shot_commit_uncertain : Bool
  pub fresh_result_armed : Bool
  pub ready_latched : Bool
  pub timed_readiness_halted : Bool
  pub conversion_start_ms : ℕ
  pub next_ready_ms : ℕ

pub record Counters : Type 0 where
  pub tracked_success : ℕ
  pub tracked_failure : ℕ
  pub sample_frame_attempt : ℕ
  pub sample_frame_success : ℕ
  pub sample_frame_failure : ℕ
  pub no_data : ℕ
  pub dropped_sample : ℕ
  pub overrun : ℕ
  pub bus_lock_timeout : ℕ
  pub bus_lock_failure : ℕ
  pub spi_transfer_failure : ℕ
  pub chip_select_failure : ℕ
  pub gpio_failure : ℕ
  pub drdy_timeout : ℕ
  pub operation_timeout : ℕ
  pub fault_observation : ℕ
  pub threshold_fault_observation : ℕ
  pub reference_fault_observation : ℕ
  pub voltage_fault_observation : ℕ

-- The last observations and the time stamps.
pub record Stamps : Type 0 where
  pub has_last_fault_status : Bool
  pub last_fault_status : ℕ
  pub has_last_ok_ms : Bool
  pub has_last_error_ms : Bool
  pub has_last_sample_timestamp : Bool
  pub last_ok_ms : ℕ
  pub last_error_ms : ℕ
  pub last_sample_timestamp_us : ℕ

pub record Driver : Type 0 where
  pub desired : DeviceConfig
  pub input_filter_time_constant_us : ℕ
  pub observed : Registers
  pub observed_valid_mask : ℕ
  pub configuration_known : Bool
  pub conversion : Conversion
  pub chip_select_uncertain : Bool
  pub default_operation_timeout_ms : ℕ
  pub state : State
  pub last_operation : Status
  pub offline_threshold : ℕ
  pub consecutive_failures : ℕ
  pub sample_counter : ℕ
  pub counters : Counters
  pub stamps : Stamps

-- `MAX31865BusSession`.
pub record Session : Type 0 where
  pub locked : Bool
  pub selected : Bool

-- `MAX31865OperationContext`.
pub record Operation : Type 0 where
  pub start_ms : ℕ
  pub timeout_ms : ℕ
  pub last_transfer_attempted : Bool
  pub last_transfer_applied : Bool
  pub last_frame_committed : Bool
  pub last_deassert_unknown : Bool
  pub any_write_may_have_applied : Bool
  pub unsafe_state_observed : Bool
  pub saw_drdy_timeout : Bool
  pub saw_operation_timeout : Bool

pub record Context (W : Type 0) : Type 0 where
  pub driver : Driver
  pub operation : Operation
  pub session : Session
  pub world : W

abbrev pub no_registers : Registers
no_registers = record {
  config = 0;
  rtd_msb = 0;
  rtd_lsb = 0;
  high_fault_msb = 0;
  high_fault_lsb = 0;
  low_fault_msb = 0;
  low_fault_lsb = 0;
  fault_status = 0;
}

abbrev pub no_conversion : Conversion
no_conversion = record {
  continuous = false;
  one_shot_armed = false;
  one_shot_commit_pending = false;
  one_shot_commit_uncertain = false;
  fresh_result_armed = false;
  ready_latched = false;
  timed_readiness_halted = false;
  conversion_start_ms = 0;
  next_ready_ms = 0;
}

abbrev pub no_counters : Counters
no_counters = record {
  tracked_success = 0;
  tracked_failure = 0;
  sample_frame_attempt = 0;
  sample_frame_success = 0;
  sample_frame_failure = 0;
  no_data = 0;
  dropped_sample = 0;
  overrun = 0;
  bus_lock_timeout = 0;
  bus_lock_failure = 0;
  spi_transfer_failure = 0;
  chip_select_failure = 0;
  gpio_failure = 0;
  drdy_timeout = 0;
  operation_timeout = 0;
  fault_observation = 0;
  threshold_fault_observation = 0;
  reference_fault_observation = 0;
  voltage_fault_observation = 0;
}

abbrev pub no_stamps : Stamps
no_stamps = record {
  has_last_fault_status = false;
  last_fault_status = 0;
  has_last_ok_ms = false;
  has_last_error_ms = false;
  has_last_sample_timestamp = false;
  last_ok_ms = 0;
  last_error_ms = 0;
  last_sample_timestamp_us = 0;
}

-- `MAX31865OperationContext{}`, and the one of `makeOperation`.
abbrev pub operation_at : ℕ → ℕ → Operation
operation_at start_ms timeout_ms = record {
  start_ms = start_ms;
  timeout_ms = timeout_ms;
  last_transfer_attempted = false;
  last_transfer_applied = false;
  last_frame_committed = false;
  last_deassert_unknown = false;
  any_write_may_have_applied = false;
  unsafe_state_observed = false;
  saw_drdy_timeout = false;
  saw_operation_timeout = false;
}

abbrev pub no_session : Session
no_session = record { locked = false; selected = false }

-- `resetLocalState`, which the constructor and `end` call; the transport is unbound elsewhere.
abbrev pub reset_local_state : Driver
reset_local_state = record {
  desired = default_device_config;
  input_filter_time_constant_us = default_input_filter_time_constant_us;
  observed = no_registers;
  observed_valid_mask = 0;
  configuration_known = false;
  conversion = no_conversion;
  chip_select_uncertain = false;
  default_operation_timeout_ms = 250;
  state = uninitialized;
  last_operation = success;
  offline_threshold = 5;
  consecutive_failures = 0;
  sample_counter = 0;
  counters = no_counters;
  stamps = no_stamps;
}

-- `saturatingIncrement` and `saturatingAdd`.
unfoldable pub saturating_increment : ℕ → ℕ
saturating_increment value = if ltb value u32_max then value + 1 else value

unfoldable pub saturating_add : ℕ → ℕ → ℕ
saturating_add value amount =
    let available = u32_max - value in value + (if ltb available amount then available else amount)
