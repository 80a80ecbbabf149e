-- ===== src/Driver/Calls/Resolving.antt =====
-- A fault cycle that is found running is resolved with what frames keep.
use max.Prelude.{ℕ}
use max.Driver.FaultCycle.{
  start_conversion, quarantine_one_shot, resolve_cycle, resolve_fault_cycle_internal,
}
use max.Driver.{Transport, Context}
use max.Driver.Action.Moves.{Moves}
use max.Driver.Calls.{CallRules, call_rules}

module _ {ℓ} {W : Type 0} {t : Transport W} {R : Context W → Context W → Type ℓ}
    (rules : CallRules t R) where
  quarantine_one_shot-rule : Moves R (quarantine_one_shot t)
  unfolding quarantine_one_shot start_conversion
  quarantine_one_shot-rule = search (call_rules) depth 30

  resolve_cycle-rule : (config : ℕ) → Moves R (resolve_cycle t config)
  unfolding resolve_cycle
  resolve_cycle-rule config = search (call_rules) depth 30

  pub resolve_fault_cycle_internal-rule : Moves R (resolve_fault_cycle_internal t)
  unfolding resolve_fault_cycle_internal
  resolve_fault_cycle_internal-rule =
      search (call_rules, quarantine_one_shot-rule, resolve_cycle-rule) depth 30
