-- ===== src/Driver/Binding.antt =====
-- What `begin` is given, and its refusals (src/MAX31865.cpp, `validateTransport` and the head of
-- `begin`; include/MAX31865/Config.h).
use max.Prelude.{ℕ, Bool, false, not, ◌&&◌, ◌||◌, pos, ltb, ◌==◌, i32_max}
use max.Status.{invalid_argument, Status, require, ◌>>◌}
use max.Config.{DeviceConfig, validate_device_config}
use max.Driver.{Transport}
use max.Driver.Requests.{validate_timeout}

-- `MAX31865BeginConfig`. The transport stands apart, and of the RTD settings only the filter's
-- time constant is held; `rtd_status` is what `validateRtdConfig` says of them.
pub record BeginConfig : Type 0 where
  pub initial_device_config : DeviceConfig
  pub input_filter_time_constant_us : ℕ
  pub rtd_status : Status
  pub power_ready_delay_ms : ℕ
  pub default_operation_timeout_ms : ℕ
  pub offline_threshold : ℕ

abbrev exclusive : Bool → Bool → Bool
exclusive a b = (a && not b) || (b && not a)

unfoldable pub validate_transport : {W : Type 0} → Transport W → Status
validate_transport t = do
  require
      (not (
        not t.has_transfer
        || not t.has_set_chip_select
        || not t.has_now_ms
        || not t.has_sleep_ms
        || not t.has_delay_us))
      invalid_argument "transport is missing a required callback" (pos 0)
  require (not (exclusive t.has_lock_bus t.has_unlock_bus)) invalid_argument
      "bus lock and unlock callbacks must be paired" (pos 0)
  require (not (t.has_drdy && not t.has_read_pin)) invalid_argument
      "DRDY capability requires a pin-read callback" (pos 0)

-- The guards of `begin`, in their order.
unfoldable pub begin_refusal : {W : Type 0} → Transport W → BeginConfig → Status
begin_refusal t config = do
  validate_transport t
  validate_device_config config.initial_device_config
  config.rtd_status
  validate_timeout config.default_operation_timeout_ms false
  require (not ((config.offline_threshold == 0) || ltb i32_max config.power_ready_delay_ms))
      invalid_argument "invalid begin timeout or offline threshold" (pos 0)
