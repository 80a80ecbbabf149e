-- ===== src/Driver/Health.antt =====
-- The health record of the driver (src/MAX31865.cpp, `isTrackedFailure`, `trackingFor`,
-- `finishOperation`, `derivedDriverState`, `clearLifetimeCounters` and `setOfflineThreshold`).
pub mod Bounds
pub mod Offline
pub mod Snapshot
use max.Prelude.{ℕ, ◌+◌, Bool, true, false, ◌||◌, pos, ltb, leb, ◌==◌, if◌then◌else◌, u8_max}
use max.Status.{
  Error, invalid_argument, operation_timeout, drdy_timeout, bus_lock_timeout, bus_lock_failed,
  spi_transfer_failed, chip_select_failed, gpio_failed, register_verify_failed, probe_mismatch,
  device_fault, restore_failed, Status, ok, err, success, fail, status_of, status_contains_timeout,
  State, uninitialized, ready, converting, fault, DriverState, uninit, operational, degraded,
  offline,
}
use max.Driver.{Driver, Operation, Counters, no_counters, saturating_increment}
use max.Driver.Action.{◌>>◌, ◌>>=◌, Step, lift, attempt, modify}

-- `MAX31865TrackingOutcome`.
pub data TrackingOutcome : Type 0 where
  untracked tracked_success tracked_failure : TrackingOutcome

abbrev pub is_tracked_failure : Error → Bool
is_tracked_failure bus_lock_timeout = true
is_tracked_failure bus_lock_failed = true
is_tracked_failure spi_transfer_failed = true
is_tracked_failure chip_select_failed = true
is_tracked_failure gpio_failed = true
is_tracked_failure operation_timeout = true
is_tracked_failure drdy_timeout = true
is_tracked_failure register_verify_failed = true
is_tracked_failure probe_mismatch = true
is_tracked_failure device_fault = true
is_tracked_failure restore_failed = true
is_tracked_failure _ = false

abbrev pub tracking_for : Status → Bool → TrackingOutcome
tracking_for (ok _) tracked = if tracked then tracked_success else untracked
tracking_for (err f) tracked = if is_tracked_failure f.code then tracked_failure else untracked

-- The timeout counters: each deadline that passed counts once.
unfoldable pub count_timeouts : Status → Operation → Counters → Counters
count_timeouts status o c = record c {
  drdy_timeout =
      if o.saw_drdy_timeout || status_contains_timeout status drdy_timeout
      then saturating_increment c.drdy_timeout
      else c.drdy_timeout;
  operation_timeout =
      if o.saw_operation_timeout || status_contains_timeout status operation_timeout
      then saturating_increment c.operation_timeout
      else c.operation_timeout;
}

-- The health members for an outcome.
abbrev pub track : TrackingOutcome → ℕ → Driver → Driver
track untracked start_ms d = d
track tracked_success start_ms d = record d {
  consecutive_failures = 0;
  counters = record d.counters {
    tracked_success = saturating_increment d.counters.tracked_success;
  };
  stamps = record d.stamps { has_last_ok_ms = true; last_ok_ms = start_ms };
}
track tracked_failure start_ms d = record d {
  consecutive_failures =
      if ltb d.consecutive_failures u8_max
      then d.consecutive_failures + 1
      else d.consecutive_failures;
  counters = record d.counters {
    tracked_failure = saturating_increment d.counters.tracked_failure;
  };
  stamps = record d.stamps { has_last_error_ms = true; last_error_ms = start_ms };
}

unfoldable pub finish_operation : Status → TrackingOutcome → Operation → Driver → Driver
finish_operation status tracking o d =
    track tracking o.start_ms
      (record d { last_operation = status; counters = count_timeouts status o d.counters })

-- `derivedDriverState` of an initialised driver that is not in fault.
abbrev pub by_failures : ℕ → ℕ → DriverState
by_failures threshold failures =
    if leb threshold failures then offline else if failures == 0 then operational else degraded

abbrev derive : State → ℕ → ℕ → DriverState
derive uninitialized threshold failures = uninit
derive fault threshold failures = offline
derive ready threshold failures = by_failures threshold failures
derive converting threshold failures = by_failures threshold failures

unfoldable pub derived_driver_state : Driver → DriverState
derived_driver_state d = derive d.state d.offline_threshold d.consecutive_failures

unfoldable pub clear_lifetime_counters : Driver → Driver
clear_lifetime_counters d = record d { counters = no_counters }

unfoldable pub set_offline_threshold : ℕ → Driver → Status × Driver
set_offline_threshold threshold d =
    if threshold == 0
    then refused (fail invalid_argument "offline threshold must be nonzero" (pos 0))
    else (success, record d { offline_threshold = threshold; last_operation = success })
  where
    refused : Status → Status × Driver
    refused status = (status, record d { last_operation = status })

-- The end of a public operation, `return finishOperation(status, trackingFor(status, tracked), …)`.
abbrev pub finish : {W A : Type 0} → Bool → Step W A → Step W A
finish tracked m = do
  result ← attempt m
  modify (λ s. record s {
    driver =
        finish_operation (status_of result) (tracking_for (status_of result) tracked) s.operation
          s.driver;
  })
  lift result
