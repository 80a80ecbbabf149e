-- ===== src/Temperature/Requests.antt =====
-- The requests that convert thresholds, and `readConfiguration` (src/MAX31865.cpp). The RTD
-- settings in force are an argument.
use max.Prelude.{ℕ, true, false}
use max.Status.{Result, ok, err, Status, success}
use max.Config.{FaultThresholds}
use max.Driver.{Transport, operation_at}
use max.Driver.Action.{Step, lift, gets, attempt, modify, ◌>>=◌, ◌>>◌, on_status, modify_operation}
use max.Driver.Access.{read_persistent_image}
use max.Driver.Apply.{apply_configuration_internal}
use max.Driver.Health.{TrackingOutcome, untracked, tracked_success, finish_operation, finish}
use max.Driver.Requests.{validate_timeout, require_ready, make_operation}
use max.Driver.Start.{request}
use max.Driver.Detection.{read_thresholds}
use max.Temperature.{Arith, Casts, RtdConfig}
use max.Temperature.Thresholds.{
  Settings, resistance_thresholds, temperature_thresholds, threshold_resistances,
  threshold_temperatures, decode_settings,
}

-- `return finishOperation(status, outcome, operation)`.
abbrev pub finish_as : {W A : Type 0} → TrackingOutcome → Result A → Status → Step W A
finish_as outcome result status = do
  modify (λ s. record s { driver = finish_operation status outcome s.operation s.driver })
  lift result

module _ {W : Type 0} (t : Transport W) where
  -- The desired configuration with thresholds that were converted, applied.
  unfoldable pub converted_request : Result FaultThresholds → ℕ → Step W (Unit {0})
  converted_request converted timeout_ms = do
    modify_operation (λ _. operation_at 0 0)
    d ← gets (λ s. s.driver)
    lift (require_ready d)
    lift (validate_timeout timeout_ms false)
    thresholds ← lift converted
    make_operation t timeout_ms
    apply_configuration_internal t (record d.desired { thresholds = thresholds })

module _ {F D W : Type 0} ⦃single : Arith F⦄ ⦃double : Arith D⦄ (m : Casts F D)
    (t : Transport W) where
  unfoldable pub set_fault_thresholds_resistance : RtdConfig F → F → F → ℕ → Step W (Unit {0})
  set_fault_thresholds_resistance rtd low_ohms high_ohms timeout_ms =
      finish true (converted_request t (resistance_thresholds m rtd low_ohms high_ohms) timeout_ms)

  unfoldable pub set_fault_thresholds_temperature : RtdConfig F → F → F → ℕ → Step W (Unit {0})
  set_fault_thresholds_temperature rtd low_c high_c timeout_ms =
      finish true (converted_request t (temperature_thresholds m rtd low_c high_c) timeout_ms)

  unfoldable pub read_fault_thresholds_resistance : RtdConfig F → ℕ → Step W (F × F)
  read_fault_thresholds_resistance rtd timeout_ms = finish true (
      request t require_ready timeout_ms false
        do thresholds ← read_thresholds t; lift (threshold_resistances m rtd thresholds))

  unfoldable pub read_fault_thresholds_temperature : RtdConfig F → ℕ → Step W (F × F)
  read_fault_thresholds_temperature rtd timeout_ms = finish true (
      request t require_ready timeout_ms false
        do thresholds ← read_thresholds t; lift (threshold_temperatures m rtd thresholds))

  abbrev pub finish_settings : Result (Settings F) → Step W (Settings F)
  finish_settings (ok settings) = finish_as tracked_success (ok settings) success
  finish_settings (err f) = finish_as untracked (err f) (err f)

  -- A failure of the frames is tracked; one of the conversions behind them is not.
  unfoldable pub read_configuration : RtdConfig F → ℕ → Step W (Settings F)
  read_configuration rtd timeout_ms = do
    image ← attempt (request t require_ready timeout_ms false (read_persistent_image t))
    desired ← gets (λ s. s.driver.desired)
    on_status image (λ i. finish_settings (decode_settings m rtd desired i))
        λ f. finish true (lift (err f))
