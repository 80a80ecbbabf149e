-- ===== src/Temperature/Calls.antt =====
-- The requests that convert thresholds keep what frames keep.
use max.Prelude.{ℕ}
use max.Status.{Result, ok, err}
use max.Config.{FaultThresholds}
use max.Driver.{Transport, Context}
use max.Driver.Action.Moves.{Moves, Moves-bind, Moves-lift}
use max.Driver.Calls.{
  CallRules, call_rules, finished-rule, make_operation-rule, request-rule, finish-rule,
}
use max.Driver.Calls.Configuring.{apply_configuration_internal-rule}
use max.Driver.Calls.Detecting.{read_thresholds-rule}
use max.Temperature.{Arith, Casts, RtdConfig}
use max.Temperature.Thresholds.{Settings}
use max.Temperature.Requests.{
  converted_request, finish_settings, set_fault_thresholds_resistance,
  set_fault_thresholds_temperature, read_fault_thresholds_resistance,
  read_fault_thresholds_temperature, read_configuration,
}

module _ {ℓ} {W : Type 0} {t : Transport W} {R : Context W → Context W → Type ℓ}
    (rules : CallRules t R) where
  converted_request-rule :
      (converted : Result FaultThresholds) (timeout_ms : ℕ)
      → Moves R (converted_request t converted timeout_ms)
  unfolding converted_request
  converted_request-rule converted timeout_ms =
      search (call_rules, make_operation-rule, apply_configuration_internal-rule) depth 30

module _ {ℓ} {F D W : Type 0} ⦃single : Arith F⦄ ⦃double : Arith D⦄ (m : Casts F D)
    {t : Transport W} {R : Context W → Context W → Type ℓ} (rules : CallRules t R) where
  pub set_fault_thresholds_resistance-rule :
      (rtd : RtdConfig F) (low high : F) (timeout_ms : ℕ)
      → Moves R (set_fault_thresholds_resistance m t rtd low high timeout_ms)
  unfolding set_fault_thresholds_resistance
  set_fault_thresholds_resistance-rule rtd low high timeout_ms =
      finish-rule rules _ _ (converted_request-rule rules _ timeout_ms)

  pub set_fault_thresholds_temperature-rule :
      (rtd : RtdConfig F) (low high : F) (timeout_ms : ℕ)
      → Moves R (set_fault_thresholds_temperature m t rtd low high timeout_ms)
  unfolding set_fault_thresholds_temperature
  set_fault_thresholds_temperature-rule rtd low high timeout_ms =
      finish-rule rules _ _ (converted_request-rule rules _ timeout_ms)

  pub read_fault_thresholds_resistance-rule :
      (rtd : RtdConfig F) (timeout_ms : ℕ)
      → Moves R (read_fault_thresholds_resistance m t rtd timeout_ms)
  unfolding read_fault_thresholds_resistance
  read_fault_thresholds_resistance-rule rtd timeout_ms =
      search (call_rules, finish-rule, request-rule, read_thresholds-rule) depth 30

  pub read_fault_thresholds_temperature-rule :
      (rtd : RtdConfig F) (timeout_ms : ℕ)
      → Moves R (read_fault_thresholds_temperature m t rtd timeout_ms)
  unfolding read_fault_thresholds_temperature
  read_fault_thresholds_temperature-rule rtd timeout_ms =
      search (call_rules, finish-rule, request-rule, read_thresholds-rule) depth 30

  finish_settings-rule :
      (result : Result (Settings F)) → Moves R (finish_settings {W = W} m t result)
  finish_settings-rule (ok settings) =
      let p = rules.frames.clock.preorder in
      Moves-bind p _ _ (finished-rule rules _ _) λ _. Moves-lift p _
  finish_settings-rule (err f) =
      let p = rules.frames.clock.preorder in
      Moves-bind p _ _ (finished-rule rules _ _) λ _. Moves-lift p _

  pub read_configuration-rule :
      (rtd : RtdConfig F) (timeout_ms : ℕ) → Moves R (read_configuration m t rtd timeout_ms)
  unfolding read_configuration
  read_configuration-rule rtd timeout_ms =
      search (call_rules, finish-rule, request-rule, finish_settings-rule) depth 30
