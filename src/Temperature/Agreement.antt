-- ===== src/Temperature/Agreement.antt =====
-- The requests that convert thresholds, and the lifecycle state.
use max.Prelude.{ℕ, ◌≡◌, refl}
use max.Status.{Result, ok, err, Status}
use max.Config.{FaultThresholds}
use max.Driver.{Transport, Driver}
use max.Driver.Action.Moves.{Moves, Moves-bind, Moves-lift}
use max.Driver.Access.Rules.{read_registers_internal-rule, read_persistent_image-rule}
use max.Driver.Detection.{read_thresholds}
use max.Driver.Consistency.{is_consistent, Agrees, Agrees-preorder, agrees_rules}
use max.Driver.Consistency.Requests.{
  reset-Agrees, make_operation-Agrees, finish-Agrees, finished-Agrees, request-Agrees,
}
use max.Driver.Consistency.Requests.Configuring.{apply_configuration_internal-Agrees}
use max.Temperature.{Arith, Casts, RtdConfig}
use max.Temperature.Settings.{adopted, set_rtd_config}
use max.Temperature.Thresholds.{Settings}
use max.Temperature.Requests.{
  converted_request, finish_settings, set_fault_thresholds_resistance,
  set_fault_thresholds_temperature, read_fault_thresholds_resistance,
  read_fault_thresholds_temperature, read_configuration,
}

module _ {W : Type 0} (t : Transport W) where
  converted_request-Agrees :
      (converted : Result FaultThresholds) (timeout_ms : ℕ)
      → Moves Agrees (converted_request t converted timeout_ms)
  unfolding converted_request
  converted_request-Agrees converted timeout_ms =
      search
        (agrees_rules, reset-Agrees, make_operation-Agrees, apply_configuration_internal-Agrees)
        depth 30

  read_thresholds-Agrees : Moves Agrees (read_thresholds t)
  unfolding read_thresholds
  read_thresholds-Agrees = search (agrees_rules, read_registers_internal-rule) depth 30

module _ {F D W : Type 0} ⦃single : Arith F⦄ ⦃double : Arith D⦄ (m : Casts F D)
    (t : Transport W) where
  pub set_fault_thresholds_resistance-Agrees :
      (rtd : RtdConfig F) (low high : F) (timeout_ms : ℕ)
      → Moves Agrees (set_fault_thresholds_resistance m t rtd low high timeout_ms)
  unfolding set_fault_thresholds_resistance
  set_fault_thresholds_resistance-Agrees rtd low high timeout_ms =
      finish-Agrees _ _ (converted_request-Agrees t _ timeout_ms)

  pub set_fault_thresholds_temperature-Agrees :
      (rtd : RtdConfig F) (low high : F) (timeout_ms : ℕ)
      → Moves Agrees (set_fault_thresholds_temperature m t rtd low high timeout_ms)
  unfolding set_fault_thresholds_temperature
  set_fault_thresholds_temperature-Agrees rtd low high timeout_ms =
      finish-Agrees _ _ (converted_request-Agrees t _ timeout_ms)

  pub read_fault_thresholds_resistance-Agrees :
      (rtd : RtdConfig F) (timeout_ms : ℕ)
      → Moves Agrees (read_fault_thresholds_resistance m t rtd timeout_ms)
  unfolding read_fault_thresholds_resistance
  read_fault_thresholds_resistance-Agrees rtd timeout_ms =
      search (agrees_rules, finish-Agrees, request-Agrees, read_thresholds-Agrees) depth 30

  pub read_fault_thresholds_temperature-Agrees :
      (rtd : RtdConfig F) (timeout_ms : ℕ)
      → Moves Agrees (read_fault_thresholds_temperature m t rtd timeout_ms)
  unfolding read_fault_thresholds_temperature
  read_fault_thresholds_temperature-Agrees rtd timeout_ms =
      search (agrees_rules, finish-Agrees, request-Agrees, read_thresholds-Agrees) depth 30

  finish_settings-Agrees :
      (result : Result (Settings F)) → Moves Agrees (finish_settings {W = W} m t result)
  finish_settings-Agrees (ok settings) =
      Moves-bind Agrees-preorder _ _ (finished-Agrees _ _) λ _. Moves-lift Agrees-preorder _
  finish_settings-Agrees (err f) =
      Moves-bind Agrees-preorder _ _ (finished-Agrees _ _) λ _. Moves-lift Agrees-preorder _

  pub read_configuration-Agrees :
      (rtd : RtdConfig F) (timeout_ms : ℕ) → Moves Agrees (read_configuration m t rtd timeout_ms)
  unfolding read_configuration
  read_configuration-Agrees rtd timeout_ms =
      search
        (
          agrees_rules, finish-Agrees, finish_settings-Agrees, request-Agrees,
          read_persistent_image-rule,
        )
        depth 30

module _ {F D : Type 0} ⦃single : Arith F⦄ ⦃double : Arith D⦄ (m : Casts F D) where
  adopted-agrees :
      (config current : RtdConfig F) (status : Status) (d : Driver)
      → is_consistent (adopted m config status current d).1 ≡ is_consistent d
  adopted-agrees config current (ok _) d = refl
  adopted-agrees config current (err f) d = refl

  pub set_rtd_config-agrees :
      (config current : RtdConfig F) (d : Driver)
      → is_consistent (set_rtd_config m config current d).2 ≡ is_consistent d
  unfolding set_rtd_config
  set_rtd_config-agrees config current d = adopted-agrees config current _ d
