-- ===== src/Examples/Calls.antt =====
-- Concrete runs of the theorems on every call: a lock that is refused while it is held, a count of
-- the calls that are made without it, and the level of chip select.
use max.Prelude.{
  ◌≢◌, Bool, ℕ, ◌+◌, ◌-◌, ◌≡◌, refl, true, false, none, some, pos, ◌==◌, if◌then◌else◌, arith,
}
use max.Status.{bus_lock_timeout, Failure, success}
use max.Config.{default_device_config}
use max.Driver.{Transport, Context, operation_at, no_session, reset_local_state}
use max.Driver.Binding.{BeginConfig}
use max.Driver.Bus.Locks.{LockLaws}
use max.Driver.Bus.Locks.Guard.{GuardLaws}
use max.Driver.Calls.Locks.{run-guarded}
use max.Driver.Calls.ChipSelect.{run-IsSafe}
use max.Driver.Bus.Level.{ChipSelectLaws}
use max.Driver.Bus.ChipSelect.{IsSafe}
use max.Driver.Consistency.Reachable.{Call, run, begin_with, end_it}
use max.Examples.Temperature.{millionths, plain}

-- The time in milliseconds, the locks that are held, the unguarded calls, and whether chip select
-- is low.
record Bench : Type 0 where
  pub time : ℕ
  pub locks : ℕ
  pub outside : ℕ
  pub low : Bool

abbrev taken_already : Failure
taken_already = record { code = bus_lock_timeout; msg = none; detail = pos 0 }

-- A call of the bus.
abbrev bus_call : Bench → Bench
bus_call w = if w.locks == 0 then record w { outside = w.outside + 1 } else w

abbrev shared_bench : Transport Bench
shared_bench = record {
  has_lock_bus = true;
  has_unlock_bus = true;
  has_set_chip_select = true;
  has_transfer = true;
  has_read_pin = false;
  has_now_ms = true;
  has_sleep_ms = true;
  has_delay_us = true;
  has_now_us = false;
  has_drdy = false;
  lock_bus = λ ms w.
      if w.locks == 0 then (none, record w { locks = w.locks + 1 }) else (some taken_already, w);
  unlock_bus = λ w. record w { locks = w.locks - 1 };
  set_chip_select = λ on w. (none, record (bus_call w) { low = on });
  transfer = λ tx ms w. (none, tx, bus_call w);
  read_pin = λ w. (none, false, w);
  now_ms = λ w. (w.time, w);
  now_us = λ w. (0, w);
  sleep_ms = λ ms w. record w { time = w.time + ms };
  delay_us = λ us w. w;
}

shared_bench-LockLaws : LockLaws shared_bench (λ w. w.locks)
shared_bench-LockLaws = record {
  taken = λ ms w h. ground arith;
  refused = λ ms w f h. ground arith;
  given = λ w. refl;
  selects = λ on w. ground arith;
  bytes = λ tx ms w. ground arith;
  pin = λ w. refl;
  clock = λ w. refl;
  micros = λ w. refl;
  sleep = λ ms w. refl;
  delay = λ us w. refl;
}

shared_bench-GuardLaws : GuardLaws shared_bench (λ w. w.locks) (λ w. w.outside)
shared_bench-GuardLaws = record {
  selects = λ on w h. ground arith;
  bytes = λ tx ms w h. ground arith;
  lock = λ ms w. ground arith;
  unlock = λ w. refl;
  pin = λ w. refl;
  clock = λ w. refl;
  micros = λ w. refl;
  sleep = λ ms w. refl;
  delay = λ us w. refl;
}

shared_bench-ChipSelectLaws : ChipSelectLaws shared_bench (λ w. w.low)
shared_bench-ChipSelectLaws = record {
  applied = λ on w h. refl;
  rejected = λ on w f h i. cc;
  lock = λ ms w. ground arith;
  unlock = λ w. refl;
  bytes = λ tx ms w. ground arith;
  pin = λ w. refl;
  clock = λ w. refl;
  micros = λ w. refl;
  sleep = λ ms w. refl;
  delay = λ us w. refl;
}

abbrev beginning : BeginConfig
beginning = record {
  initial_device_config = default_device_config;
  input_filter_time_constant_us = 100;
  rtd_status = success;
  power_ready_delay_ms = 10;
  default_operation_timeout_ms = 250;
  offline_threshold = 5;
}

abbrev first_call : Call ℕ
first_call = begin_with beginning

abbrev unbound : Context Bench
unbound = record {
  driver = reset_local_state;
  operation = operation_at 0 250;
  session = no_session;
  world = record { time = 0; locks = 0; outside = 0; low = false };
}

run-guarded_example :
    ((run shared_bench plain first_call unbound).world.locks ≡ 0)
    × ((run shared_bench plain first_call unbound).world.outside ≡ 0)
run-guarded_example =
    run-guarded shared_bench plain shared_bench-LockLaws shared_bench-GuardLaws refl first_call
      unbound

run-IsSafe_example : IsSafe (λ w. w.low) (run shared_bench plain first_call unbound)
run-IsSafe_example =
    run-IsSafe shared_bench plain shared_bench-ChipSelectLaws first_call goes_on unbound
      (record { high = λ h. refl })
  where
    goes_on : first_call ≢ end_it
    goes_on e = ground arith
