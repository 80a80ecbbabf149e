-- ===== src/Driver/Calls/Beginning.antt =====
-- Beginning and recovering keep what frames keep.
use max.Prelude.{ℕ, refl, Bool, true, false, if◌then◌else◌}
use max.Status.{Status, Failure}
use max.Driver.Calls.Resolving.{resolve_fault_cycle_internal-rule}
use max.Driver.Binding.{BeginConfig}
use max.Driver.Lifecycle.{
  restored, refuse, power_ready, bring_up, begin_bound, begin, recover_device, recover_failed,
  recover_request, recover,
}
use max.Driver.Calls.Configuring.{verify_desired_image-rule, apply_configuration_internal-rule}
use max.Driver.{Transport, Driver, Context}
use max.Driver.Action.Moves.{Moves, Moves-bind, Moves-gets, Moves-lift}
use max.Driver.Bus.{faulted}
use max.Driver.Calls.{
  CallRules, KeepsSelect, driver-rule, call_rules, make_operation-rule, finish-rule,
}

module _ {ℓ} {W : Type 0} {t : Transport W} {R : Context W → Context W → Type ℓ}
    (rules : CallRules t R) where
  refuse-rule : (status : Status) → Moves R (refuse t status)
  unfolding refuse
  refuse-rule status = search (call_rules) depth 30

  power_ready-rule : (config : BeginConfig) → Moves R (power_ready t config)
  unfolding power_ready
  power_ready-rule config = search (call_rules) depth 30

  bring_up-rule : (config : BeginConfig) → Moves R (bring_up t config)
  unfolding bring_up
  bring_up-rule config =
      search
        (
          call_rules, make_operation-rule, power_ready-rule, resolve_fault_cycle_internal-rule,
          apply_configuration_internal-rule, verify_desired_image-rule,
        )
        depth 30

  begin_bound-rule : (config : BeginConfig) → Moves R (begin_bound t config)
  unfolding begin_bound
  begin_bound-rule config = search (call_rules, bring_up-rule) depth 30

  pub begin-rule : (config : BeginConfig) → Moves R (begin t config)
  unfolding begin
  begin-rule config = search (call_rules, finish-rule, refuse-rule, begin_bound-rule) depth 30

  recover_device-rule : Moves R (recover_device t)
  unfolding recover_device
  recover_device-rule =
      search (call_rules, resolve_fault_cycle_internal-rule, apply_configuration_internal-rule)
        depth 30

  -- What is put back after a failed recovery leaves what is known of chip select.
  chosen-KeepsSelect :
      (b : Bool) (baseline : Driver) → KeepsSelect (if b then restored baseline else faulted)
  chosen-KeepsSelect true baseline = record { kept = λ d. refl }
  chosen-KeepsSelect false baseline = record { kept = λ d. refl }

  recover_failed-rule : (baseline : Driver) (f : Failure) → Moves R (recover_failed t baseline f)
  unfolding recover_failed
  recover_failed-rule baseline f =
      let p = rules.frames.clock.preorder in
      Moves-bind p _ _ (Moves-gets p _) λ o.
        Moves-bind p _ _ (driver-rule rules _ (chosen-KeepsSelect _ baseline)) λ _. Moves-lift p _

  pub recover-rule : (timeout_ms : ℕ) → Moves R (recover t timeout_ms)
  unfolding recover recover_request
  recover-rule timeout_ms =
      search
        (
          call_rules, finish-rule, make_operation-rule, refuse-rule, recover_device-rule,
          recover_failed-rule,
        )
        depth 30
