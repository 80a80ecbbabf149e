-- ===== src/Driver/FaultCycle/Rules.antt =====
-- How a fault-detection cycle keeps a relation between contexts.
use max.Prelude.{ℕ, zero, suc}
use max.Driver.{Transport, Context}
use max.Driver.Action.Moves.{Moves, Moves-bind, Moves-if, Moves-pure}
use max.Driver.Clock.Rules.{sleep_within_deadline-rule}
use max.Driver.Bus.Rules.{FrameRules, clock_rules}
use max.Driver.Access.Rules.{read_registers_internal-rule}
use max.Driver.Stop.Rules.{StopRules, stop_rules, write_runtime_config-rule}
use max.Driver.FaultCycle.{
  read_config_register, wait_cycle, wait_for_fault_cycle, settle_input, complete_manual_cycle,
}

module _ {ℓ} {W : Type 0} {t : Transport W} {R : Context W → Context W → Type ℓ}
    (rules : FrameRules t R) where
  pub read_config_register-rule : Moves R (read_config_register t)
  unfolding read_config_register
  read_config_register-rule = search (clock_rules, read_registers_internal-rule) depth 24

  pub wait_cycle-rule : (fuel : ℕ) → Moves R (wait_cycle t fuel)
  unfolding wait_cycle
  wait_cycle-rule zero = search clock_rules depth 24
  wait_cycle-rule (suc fuel) =
      Moves-bind rules.clock.preorder _ _ read_config_register-rule λ config.
        Moves-if _ _ _ (Moves-pure rules.clock.preorder _) (
          Moves-bind rules.clock.preorder _ _ (sleep_within_deadline-rule rules.clock _ _)
            λ _. wait_cycle-rule fuel)

  pub wait_for_fault_cycle-rule : Moves R (wait_for_fault_cycle t)
  unfolding wait_for_fault_cycle
  wait_for_fault_cycle-rule = search (clock_rules, wait_cycle-rule) depth 24

module _ {ℓ} {W : Type 0} {t : Transport W} {R : Context W → Context W → Type ℓ}
    (rules : StopRules t R) where
  pub complete_manual_cycle-rule : Moves R (complete_manual_cycle t)
  unfolding complete_manual_cycle settle_input
  complete_manual_cycle-rule = search (stop_rules, write_runtime_config-rule) depth 30
