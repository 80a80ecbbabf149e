-- ===== src/Driver/Health/Snapshot.antt =====
-- `health()`: the record that shows the driver's health (src/MAX31865.cpp; `MAX31865Health` in
-- include/MAX31865/Status.h). Its counters and its observations are copied as a whole.
use max.Prelude.{ℕ, Bool, true, false}
use max.Status.{Status, State, DriverState, uninit, operational, degraded, offline}
use max.Driver.{Driver, Counters, Stamps}
use max.Driver.Health.{derived_driver_state}

pub record Health : Type 0 where
  pub state : State
  pub driver_state : DriverState
  pub last_operation : Status
  pub online : Bool
  pub configuration_known : Bool
  pub offline_threshold : ℕ
  pub consecutive_failures : ℕ
  pub counters : Counters
  pub stamps : Stamps

abbrev pub is_online : DriverState → Bool
is_online uninit = false
is_online operational = true
is_online degraded = true
is_online offline = false

unfoldable pub health : Driver → Health
health d = record {
  state = d.state;
  driver_state = derived_driver_state d;
  last_operation = d.last_operation;
  online = is_online (derived_driver_state d);
  configuration_known = d.configuration_known;
  offline_threshold = d.offline_threshold;
  consecutive_failures = d.consecutive_failures;
  counters = d.counters;
  stamps = d.stamps;
}
