-- ===== src/Status/Names.antt =====
-- The names of states and errors (src/MAX31865.cpp). The numbers that are no enumerators, whose
-- name is `Unknown`, are not values of the model's types.
use max.Prelude.{String, Option, none, some}
use max.Status.{
  Error, not_initialized, invalid_argument, invalid_state, busy, unsupported_command, no_data,
  timing_unavailable, register_address_invalid, bus_lock_timeout, bus_lock_failed,
  spi_transfer_failed, chip_select_failed, gpio_failed, operation_timeout, drdy_timeout,
  register_verify_failed, probe_mismatch, configuration_unknown, device_fault, restore_failed,
  conversion_out_of_range, State, uninitialized, ready, converting, fault, DriverState, uninit,
  operational, degraded, offline,
}

unfoldable pub state_name : State → String
state_name uninitialized = "Uninitialized"
state_name ready = "Ready"
state_name converting = "Converting"
state_name fault = "Fault"

unfoldable pub driver_state_name : DriverState → String
driver_state_name uninit = "UNINIT"
driver_state_name operational = "READY"
driver_state_name degraded = "DEGRADED"
driver_state_name offline = "OFFLINE"

-- The code `Ok` is `none`.
unfoldable pub error_name : Option Error → String
error_name none = "Ok"
error_name (some not_initialized) = "NotInitialized"
error_name (some invalid_argument) = "InvalidArgument"
error_name (some invalid_state) = "InvalidState"
error_name (some busy) = "Busy"
error_name (some unsupported_command) = "UnsupportedCommand"
error_name (some no_data) = "NoData"
error_name (some timing_unavailable) = "TimingUnavailable"
error_name (some register_address_invalid) = "RegisterAddressInvalid"
error_name (some bus_lock_timeout) = "BusLockTimeout"
error_name (some bus_lock_failed) = "BusLockFailed"
error_name (some spi_transfer_failed) = "SpiTransferFailed"
error_name (some chip_select_failed) = "ChipSelectFailed"
error_name (some gpio_failed) = "GpioFailed"
error_name (some operation_timeout) = "OperationTimeout"
error_name (some drdy_timeout) = "DrdyTimeout"
error_name (some register_verify_failed) = "RegisterVerifyFailed"
error_name (some probe_mismatch) = "ProbeMismatch"
error_name (some configuration_unknown) = "ConfigurationUnknown"
error_name (some device_fault) = "DeviceFault"
error_name (some restore_failed) = "RestoreFailed"
error_name (some conversion_out_of_range) = "ConversionOutOfRange"
