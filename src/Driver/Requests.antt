-- ===== src/Driver/Requests.antt =====
-- The guards of the public operations, and the operations that apply a configuration
-- (src/MAX31865.cpp, `validateTimeout` to `makeOperation`, `applyConfiguration`,
-- `configureMeasurement`, `setBias`, `setWireMode` and `setFilter`).
pub mod Refused
use max.Prelude.{
  ℕ, Bool, true, false, not, ◌&&◌, ◌||◌, pos, ltb, ◌==◌, if◌then◌else◌, to_int32, i32_max,
}
use max.Status.{
  invalid_argument, not_initialized, busy, invalid_state, configuration_unknown, Status, success,
  fail, State, uninitialized, ready, converting, fault,
}
use max.Config.{WireMode, Filter, DeviceConfig, validate_device_config}
use max.Driver.{Transport, Driver, operation_at}
use max.Driver.Action.{◌>>◌, ◌>>=◌, Step, pure, lift, gets, modify_operation}
use max.Driver.Clock.{now_ms}
use max.Driver.Apply.{apply_configuration_internal}
use max.Driver.Health.{finish}

unfoldable pub validate_timeout : ℕ → Bool → Status
validate_timeout timeout_ms allow_zero =
    if (not allow_zero && (timeout_ms == 0)) || ltb i32_max timeout_ms
    then fail invalid_argument "invalid operation timeout" (to_int32 timeout_ms)
    else success

abbrev ready_refused : State → Status
ready_refused uninitialized = fail not_initialized "driver is not initialized" (pos 0)
ready_refused converting = fail busy "operation requires Ready with known configuration" (pos 0)
ready_refused _ = fail invalid_state "operation requires Ready with known configuration" (pos 0)

abbrev pub is_ready : State → Bool
is_ready ready = true
is_ready _ = false

unfoldable pub require_ready : Driver → Status
require_ready d =
    if is_ready d.state && d.configuration_known then success else ready_refused d.state

abbrev operational_state : State → Bool → Status
operational_state uninitialized known = fail not_initialized "driver is not initialized" (pos 0)
operational_state fault known =
    fail configuration_unknown "device configuration is not trusted" (pos 0)
operational_state _ known =
    if known
    then success
    else fail configuration_unknown "device configuration is not trusted" (pos 0)

unfoldable pub require_operational : Driver → Status
require_operational d = operational_state d.state d.configuration_known

module _ {W : Type 0} (t : Transport W) where
  -- `operation = makeOperation(timeoutMs)`.
  unfoldable pub make_operation : ℕ → Step W (Unit {0})
  make_operation timeout_ms = do
    now ← if t.has_now_ms then now_ms t else pure 0
    modify_operation (λ _. operation_at now timeout_ms)

  -- The body of `applyConfiguration`.
  unfoldable pub apply_request : DeviceConfig → ℕ → Step W (Unit {0})
  apply_request config timeout_ms = do
    modify_operation (λ _. operation_at 0 0)
    d ← gets (λ s. s.driver)
    lift (require_ready d)
    lift (validate_timeout timeout_ms false)
    lift (validate_device_config config)
    make_operation timeout_ms
    apply_configuration_internal t config

  unfoldable pub apply_configuration : DeviceConfig → ℕ → Step W (Unit {0})
  apply_configuration config timeout_ms = finish true (apply_request config timeout_ms)

  -- The desired configuration with some of its members replaced.
  unfoldable pub apply_changed : (DeviceConfig → DeviceConfig) → ℕ → Step W (Unit {0})
  apply_changed change timeout_ms = do
    desired ← gets (λ s. s.driver.desired)
    apply_configuration (change desired) timeout_ms

  unfoldable pub configure_measurement : WireMode → Filter → ℕ → Step W (Unit {0})
  configure_measurement mode filter =
      apply_changed (λ c. record c { wire_mode = mode; filter = filter })

  unfoldable pub set_bias : Bool → ℕ → Step W (Unit {0})
  set_bias enabled = apply_changed (λ c. record c { bias_enabled = enabled })

  unfoldable pub set_wire_mode : WireMode → ℕ → Step W (Unit {0})
  set_wire_mode mode = apply_changed (λ c. record c { wire_mode = mode })

  unfoldable pub set_filter : Filter → ℕ → Step W (Unit {0})
  set_filter filter = apply_changed (λ c. record c { filter = filter })
