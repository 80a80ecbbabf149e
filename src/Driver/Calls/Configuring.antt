-- ===== src/Driver/Calls/Configuring.antt =====
-- The configuration requests keep what frames keep.
use max.Prelude.{ℕ}
use max.Config.{DeviceConfig}
use max.Config.Bytes.{ThresholdBytes}
use max.Driver.{Transport, Context}
use max.Driver.Action.Moves.{Moves}
use max.Driver.Access.{verify_desired_image}
use max.Driver.Apply.{adopt, write_configuration, apply_configuration_internal}
use max.Driver.Requests.{apply_request, apply_configuration, apply_changed}
use max.Driver.Calls.{CallRules, call_rules, make_operation-rule, finish-rule}

module _ {ℓ} {W : Type 0} {t : Transport W} {R : Context W → Context W → Type ℓ}
    (rules : CallRules t R) where
  pub verify_desired_image-rule : Moves R (verify_desired_image t)
  unfolding verify_desired_image
  verify_desired_image-rule = search call_rules depth 30

  adopt-rule : (config : DeviceConfig) → Moves R (adopt t config)
  unfolding adopt
  adopt-rule config = search (call_rules, verify_desired_image-rule) depth 30

  write_configuration-rule :
      (config : DeviceConfig) (thresholds : ThresholdBytes)
      → Moves R (write_configuration t config thresholds)
  unfolding write_configuration
  write_configuration-rule config thresholds = search call_rules depth 30

  pub apply_configuration_internal-rule :
      (config : DeviceConfig) → Moves R (apply_configuration_internal t config)
  unfolding apply_configuration_internal
  apply_configuration_internal-rule config =
      search (call_rules, adopt-rule, write_configuration-rule) depth 30

  pub apply_configuration-rule :
      (config : DeviceConfig) (timeout_ms : ℕ) → Moves R (apply_configuration t config timeout_ms)
  unfolding apply_configuration apply_request
  apply_configuration-rule config timeout_ms =
      search (call_rules, finish-rule, make_operation-rule, apply_configuration_internal-rule) depth
        30

  pub apply_changed-rule :
      (change : DeviceConfig → DeviceConfig) (timeout_ms : ℕ)
      → Moves R (apply_changed t change timeout_ms)
  unfolding apply_changed
  apply_changed-rule change timeout_ms = search (call_rules, apply_configuration-rule) depth 30
