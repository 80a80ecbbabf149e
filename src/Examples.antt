-- ===== src/Examples.antt =====
-- Concrete runs of the theorems: a bench whose callbacks all succeed, and a driver on it.
pub mod Codec
pub mod Arduino
pub mod Temperature
pub mod Waits
pub mod Operations
pub mod Calls
use max.Prelude.{
  [], ℕ, ◌+◌, ◌*◌, ◌≤◌, ◌<◌, ◌||◌, if◌then◌else◌, sub32, add32, ◌≡◌, inl, refl, Bool, true, false,
  none, some, ◌∷◌, replicate, arith, pos, not, ◌==◌,
}
use max.Status.{
  Failure, operation_timeout, drdy_timeout, status_contains_timeout, err, success, ready,
  converting, operational, offline, invalid_argument, any,
}
use max.Config.{default_device_config, continuous_conversion_time_ms}
use max.Driver.{
  Transport, Driver, Context, operation_at, no_session, reset_local_state, saturating_add,
}
use max.Driver.Action.Moves.{Moves}
use max.Driver.Action.Ends.{Outcome}
use max.Driver.Bus.{transact}
use max.Driver.Bus.Quiet.{Quiet, transact-Quiet}
use max.Driver.Bus.Level.{ChipSelectLaws}
use max.Driver.Bus.ChipSelect.{IsSafe}
use max.Driver.Bus.ChipSelect.Frame.{transact-IsSafe}
use max.Driver.Apply.{apply_configuration_internal}
use max.Driver.Apply.Outcomes.{IsConfigured, IsRetained, apply_configuration_internal-Ends}
use max.Driver.Health.{tracked_failure, tracking_for, finish_operation, derived_driver_state}
use max.Driver.Health.Bounds.{IsBounded, IsTracked, IsCountedIf, finish_operation-IsCounted}
use max.Driver.Health.Offline.{
  TrackedFailure, finish_failures, derived-finish_failures, derived-recovered,
}
use max.Driver.Readiness.{tick, update_timed_readiness}
use max.Driver.Readiness.Horizon.{IsAhead, update_timed_readiness-idempotent, tick-IsAhead}
use max.Driver.Requests.{require_ready, validate_timeout, apply_configuration}
use max.Driver.Requests.Refused.{apply_configuration-refused}
use max.Driver.Faults.{decode_fault_status}
use max.Driver.Faults.Decoding.{flag_bits, decode_fault_status_lem}
use max.Driver.Probe.{probe}
use max.Driver.Probe.Untracked.{IsUntracked, probe-IsUntracked}

-- The level of chip select and a clock that moves by one at each reading.
abbrev bench : Transport (Bool × ℕ)
bench = record {
  has_lock_bus = true;
  has_unlock_bus = true;
  has_set_chip_select = true;
  has_transfer = true;
  has_read_pin = false;
  has_now_ms = true;
  has_sleep_ms = true;
  has_delay_us = true;
  has_now_us = false;
  has_drdy = false;
  lock_bus = λ ms w. (none, w);
  unlock_bus = λ w. w;
  set_chip_select = λ on w. (none, (on, w.1));
  transfer = λ tx ms w. (none, tx, w);
  read_pin = λ w. (none, false, w);
  now_ms = λ w. (w.1, (w.0, w.1 + 1));
  now_us = λ w. (0, w);
  sleep_ms = λ ms w. (w.0, w.1 + ms);
  delay_us = λ us w. w;
}

bench-laws : ChipSelectLaws bench (λ w. w.0)
bench-laws = record {
  applied = λ on w h. refl;
  rejected = λ on w f h i. cc;
  lock = λ ms w. refl;
  unlock = λ w. refl;
  bytes = λ tx ms w. refl;
  pin = λ w. refl;
  clock = λ w. refl;
  micros = λ w. refl;
  sleep = λ ms w. refl;
  delay = λ us w. refl;
}

abbrev initialised : Driver
initialised = record reset_local_state { state = ready; configuration_known = true }

abbrev running : Driver
running = record initialised {
  state = converting;
  conversion = record initialised.conversion {
    continuous = true;
    fresh_result_armed = true;
    ready_latched = true;
    next_ready_ms = 100;
  };
}

abbrev start : Context (Bool × ℕ)
start = record {
  driver = initialised;
  operation = operation_at 0 250;
  session = no_session;
  world = (false, 0);
}

-- A deadline that passed, with no message.
abbrev timed_out : Failure
timed_out = record { code = operation_timeout; msg = none; detail = pos 0 }

abbrev one_failure : TrackedFailure
one_failure = record { failure = timed_out; operation = operation_at 0 250; is_tracked = refl }

transact-IsSafe_example : IsSafe (λ w. w.0) (transact bench (1 ∷ 0 ∷ []) start).1
transact-IsSafe_example = transact-IsSafe bench bench-laws (1 ∷ 0 ∷ []) start start-IsSafe
  where
    start-IsSafe : IsSafe (λ w. w.0) start
    start-IsSafe = record { high = λ h. refl }

transact-Quiet_example : Moves Quiet (transact bench (1 ∷ 0 ∷ []))
transact-Quiet_example = transact-Quiet bench (1 ∷ 0 ∷ [])

apply_configuration_internal-Ends_example :
    Outcome
      (λ _. IsConfigured default_device_config)
      (λ _. IsRetained start)
      (apply_configuration_internal bench default_device_config start).0
      (apply_configuration_internal bench default_device_config start).1
apply_configuration_internal-Ends_example =
    apply_configuration_internal-Ends bench default_device_config start

probe-IsUntracked_example : Moves IsUntracked (probe bench 250)
probe-IsUntracked_example = probe-IsUntracked bench 250

tick-IsAhead_example :
    let u = tick bench 145 running in
    let period = continuous_conversion_time_ms running.desired.filter in
    (u.conversion.ready_latched ≡ true)
    × IsAhead 145 u.conversion.next_ready_ms period
    × ((n : ℕ) × (n * period ≤ sub32 145 running.conversion.next_ready_ms)
        × (sub32 145 running.conversion.next_ready_ms < (1 + n) * period)
        × (u.conversion.next_ready_ms ≡ add32 running.conversion.next_ready_ms ((1 + n) * period))
        × (u.counters.overrun
            ≡ saturating_add running.counters.overrun
                (if running.conversion.ready_latched then 1 + n else n)))
tick-IsAhead_example =
    tick-IsAhead 145 running (omega arith) (omega arith) bench refl refl refl refl

update_timed_readiness-idempotent_example :
    update_timed_readiness 145 (update_timed_readiness 145 running)
    ≡ update_timed_readiness 145 running
update_timed_readiness-idempotent_example =
    update_timed_readiness-idempotent 145 running (omega arith) (omega arith)

derived-finish_failures_example :
    derived_driver_state (finish_failures (replicate 5 one_failure) initialised) ≡ offline
derived-finish_failures_example =
    derived-finish_failures (replicate 5 one_failure) initialised refl (inl refl) (omega arith)
      (omega arith)

derived-recovered_example :
    derived_driver_state (
      finish_operation success
        (tracking_for success true)
        (operation_at 0 250)
        (finish_failures (replicate 5 one_failure) initialised))
    ≡ operational
derived-recovered_example =
    derived-recovered (replicate 5 one_failure) (operation_at 0 250) initialised refl (inl refl)
      (omega arith)

finish_operation-IsCounted_example :
    let o = operation_at 0 250 in
    let e = finish_operation (err timed_out) tracked_failure o initialised in
    IsTracked tracked_failure initialised e
    × IsCountedIf
        (o.saw_drdy_timeout || status_contains_timeout (err timed_out) drdy_timeout)
        initialised.counters.drdy_timeout
        e.counters.drdy_timeout
    × IsCountedIf
        (o.saw_operation_timeout || status_contains_timeout (err timed_out) operation_timeout)
        initialised.counters.operation_timeout
        e.counters.operation_timeout
    × IsBounded e
finish_operation-IsCounted_example =
    finish_operation-IsCounted (err timed_out) tracked_failure (operation_at 0 250) initialised
      bounded
  where
    bounded : IsBounded initialised
    bounded = record {
      failures = omega arith;
      tracked_success = omega arith;
      tracked_failure = omega arith;
      drdy_timeout = omega arith;
      operation_timeout = omega arith;
    }

-- A deadline of zero, which `applyConfiguration` refuses.
abbrev no_timeout : Failure
no_timeout = record {
  code = invalid_argument;
  msg = some "invalid operation timeout";
  detail = pos 0;
}

apply_configuration-refused_example : apply_configuration bench default_device_config 0 start ≡ (
  err no_timeout,
  record start {
    driver = record start.driver { last_operation = err no_timeout };
    operation = operation_at 0 0;
  },
)
unfolding require_ready validate_timeout
apply_configuration-refused_example =
    apply_configuration-refused bench default_device_config 0 start no_timeout refl

decode_fault_status_lem_example :
    let f = decode_fault_status 0x87 in
    (f.raw ≡ 0x84) × (f.raw ≡ flag_bits f) × (any f ≡ not (f.raw == 0))
decode_fault_status_lem_example = decode_fault_status_lem 0x87 (omega arith)
