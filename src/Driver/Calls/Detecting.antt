-- ===== src/Driver/Calls/Detecting.antt =====
-- Faults, their detection, their thresholds and the probe keep what frames keep.
use max.Prelude.{ℕ, String}
use max.Status.{Status}
use max.Config.{FaultThresholds}
use max.Driver.Detection.{
  restore_image, conclude_cycle, run_cycle, detect_faults, automatic_commands, manual_commands,
  finish_output, read_fault_status, clear_faults, automatic_request, run_automatic_fault_detection,
  run_manual_fault_detection, thresholds_request, set_fault_thresholds_raw, read_thresholds,
  read_fault_thresholds_raw,
}
use max.Driver.Probe.{read_device, read_untracked, probe}
use max.Driver.Calls.Configuring.{verify_desired_image-rule, apply_configuration_internal-rule}
use max.Driver.Calls.Resolving.{resolve_fault_cycle_internal-rule}
use max.Driver.{Transport, Context}
use max.Driver.Action.{Step}
use max.Driver.Action.Moves.{Moves, Moves-bind, Moves-attempt, Moves-pure}
use max.Driver.Calls.{
  CallRules, call_rules, finished-rule, make_operation-rule, request-rule, finish-rule,
}

module _ {ℓ} {W : Type 0} {t : Transport W} {R : Context W → Context W → Type ℓ}
    (rules : CallRules t R) where
  restore_image-rule : Moves R (restore_image t)
  unfolding restore_image
  restore_image-rule =
      search (call_rules, resolve_fault_cycle_internal-rule, verify_desired_image-rule) depth 30

  conclude_cycle-rule :
      (message : String) (status : Status) → Moves R (conclude_cycle t message status)
  unfolding conclude_cycle
  conclude_cycle-rule message status = search (call_rules, restore_image-rule) depth 30

  run_cycle-rule :
      (biased : Status) (commands : Step W (Unit {0}))
      → Moves R commands
      → Moves R (run_cycle t biased commands)
  unfolding run_cycle
  run_cycle-rule biased commands h = search (call_rules) depth 30

  detect_faults-rule :
      (message : String) (commands : Step W (Unit {0}))
      → Moves R commands
      → Moves R (detect_faults t message commands)
  unfolding detect_faults
  detect_faults-rule message commands h =
      search (call_rules, run_cycle-rule, conclude_cycle-rule) depth 30

  automatic_commands-rule : Moves R (automatic_commands t)
  unfolding automatic_commands
  automatic_commands-rule = search (call_rules) depth 30

  manual_commands-rule : Moves R (manual_commands t)
  unfolding manual_commands
  manual_commands-rule = search (call_rules) depth 30

  finish_output-rule :
      {A : Type 0} (initial : A) (m : Step W (A × Status))
      → Moves R m
      → Moves R (finish_output initial m)
  finish_output-rule initial m h =
      let p = rules.frames.clock.preorder in
      Moves-bind p _ _ (Moves-attempt m h)
        λ outcome. Moves-bind p _ _ (finished-rule rules _ _) λ _. Moves-pure p _

  pub read_fault_status-rule : (timeout_ms : ℕ) → Moves R (read_fault_status t timeout_ms)
  unfolding read_fault_status
  read_fault_status-rule timeout_ms = search (call_rules, finish_output-rule, request-rule) depth 30

  pub clear_faults-rule : (timeout_ms : ℕ) → Moves R (clear_faults t timeout_ms)
  unfolding clear_faults
  clear_faults-rule timeout_ms = search (call_rules, finish-rule, request-rule) depth 30

  pub run_automatic_fault_detection-rule :
      (timeout_ms : ℕ) → Moves R (run_automatic_fault_detection t timeout_ms)
  unfolding run_automatic_fault_detection automatic_request
  run_automatic_fault_detection-rule timeout_ms =
      search
        (
          call_rules, finish_output-rule, make_operation-rule, detect_faults-rule,
          automatic_commands-rule,
        )
        depth 30

  pub run_manual_fault_detection-rule :
      (timeout_ms : ℕ) → Moves R (run_manual_fault_detection t timeout_ms)
  unfolding run_manual_fault_detection
  run_manual_fault_detection-rule timeout_ms =
      search
        (call_rules, finish_output-rule, request-rule, detect_faults-rule, manual_commands-rule)
        depth 30

  pub set_fault_thresholds_raw-rule :
      (thresholds : FaultThresholds) (timeout_ms : ℕ)
      → Moves R (set_fault_thresholds_raw t thresholds timeout_ms)
  unfolding set_fault_thresholds_raw thresholds_request
  set_fault_thresholds_raw-rule thresholds timeout_ms =
      search (call_rules, finish-rule, make_operation-rule, apply_configuration_internal-rule) depth
        30

  pub read_thresholds-rule : Moves R (read_thresholds t)
  unfolding read_thresholds
  read_thresholds-rule = search (call_rules) depth 30

  pub read_fault_thresholds_raw-rule :
      (timeout_ms : ℕ) → Moves R (read_fault_thresholds_raw t timeout_ms)
  unfolding read_fault_thresholds_raw
  read_fault_thresholds_raw-rule timeout_ms =
      search (call_rules, finish-rule, request-rule, read_thresholds-rule) depth 30

  pub probe-rule : (timeout_ms : ℕ) → Moves R (probe t timeout_ms)
  unfolding probe read_untracked read_device
  probe-rule timeout_ms = search (call_rules, make_operation-rule) depth 30
