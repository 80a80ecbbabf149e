-- ===== src/Driver/Stop/Rules.antt =====
-- How stopping a conversion keeps a relation between contexts.
use max.Prelude.{ℕ, zero, suc, Bool}
use max.Status.{Failure, Status}
use max.Driver.{Transport, Context, Operation}
use max.Driver.Action.{Step, modify_driver, modify_conversion, modify_operation}
use max.Driver.Action.Moves.{Moves, Moves-bind, Moves-gets, Moves-attempt, Moves-pure}
use max.Driver.Clock.{merge_timeout_observations}
use max.Driver.Bus.{faulted}
use max.Driver.Clock.Rules.{sleep_within_deadline-rule}
use max.Driver.Access.Rules.{write_registers_internal-rule}
use max.Driver.Apply.{config_written, write_runtime_config, clear_faults_internal}
use max.Driver.Conversions.Rules.{
  LookRules, look_rules, read_drdy-rule, read_fault_register-rule, observe_fault_register-rule,
  rearm-rule, note_halt-rule, data_ready_internal-rule,
}
use max.Driver.Stop.{
  unsafe_observed, cleanup_operation, disarmed, commit_certain, stopped, uncertain_halt,
  uncertain_due, uncertain_pass, armed_halt, discard_result, armed_pass, stop_pass, stop_loop,
  stop_internal, in_cleanup, expired_result, restore_idle_after_primary_failure,
  restore_idle_after_consumed_one_shot,
}

-- A relation that stopping has, besides looks.
pub record StopRules {ℓ} {W : Type 0} (t : Transport W) (R : Context W → Context W → Type ℓ)
    : Type ℓ where
  pub looks : LookRules t R
  pub unsafe : Moves R (modify_operation unsafe_observed)
  pub fault : Moves R (modify_driver faulted)
  pub config_byte : (byte : ℕ) → Moves R (modify_driver (config_written byte))
  pub disarmed : Moves R (modify_conversion disarmed)
  pub certain : Moves R (modify_conversion commit_certain)
  pub stopped : Moves R (modify_driver stopped)

module _ {ℓ} {W : Type 0} {t : Transport W} {R : Context W → Context W → Type ℓ}
    (rules : StopRules t R) where
  pub looks-rule : LookRules t R
  looks-rule = rules.looks

  pub unsafe-rule : Moves R (modify_operation unsafe_observed)
  unsafe-rule = rules.unsafe

  pub fault-rule : Moves R (modify_driver faulted)
  fault-rule = rules.fault

  pub config_byte-rule : (byte : ℕ) → Moves R (modify_driver (config_written byte))
  config_byte-rule = rules.config_byte

  pub disarmed-rule : Moves R (modify_conversion disarmed)
  disarmed-rule = rules.disarmed

  pub certain-rule : Moves R (modify_conversion commit_certain)
  certain-rule = rules.certain

  pub stopped-rule : Moves R (modify_driver stopped)
  stopped-rule = rules.stopped

pub ruleset stop_rules = (
  look_rules, sleep_within_deadline-rule, looks-rule, unsafe-rule, fault-rule, config_byte-rule,
  disarmed-rule, certain-rule, stopped-rule,
)

module _ {ℓ} {W : Type 0} {t : Transport W} {R : Context W → Context W → Type ℓ}
    (rules : StopRules t R) where
  pub write_runtime_config-rule :
      (bias continuous : Bool) (bits : ℕ) → Moves R (write_runtime_config t bias continuous bits)
  unfolding write_runtime_config
  write_runtime_config-rule bias continuous bits =
      search (stop_rules, write_registers_internal-rule) depth 24

  pub clear_faults_internal-rule : Moves R (clear_faults_internal t)
  unfolding clear_faults_internal
  clear_faults_internal-rule = search (stop_rules, write_runtime_config-rule) depth 24

  pub uncertain_halt-rule : (raw : ℕ) → Moves R (uncertain_halt t raw)
  unfolding uncertain_halt
  uncertain_halt-rule raw =
      search
        (
          stop_rules, note_halt-rule, read_fault_register-rule, rearm-rule,
          write_runtime_config-rule,
        )
        depth 24

  pub uncertain_due-rule : Moves R (uncertain_due t)
  unfolding uncertain_due
  uncertain_due-rule =
      search
        (stop_rules, read_drdy-rule, observe_fault_register-rule, rearm-rule, uncertain_halt-rule)
        depth 24

  pub uncertain_pass-rule : Moves R (uncertain_pass t)
  unfolding uncertain_pass
  uncertain_pass-rule = search (stop_rules, uncertain_due-rule) depth 24

  pub armed_halt-rule : Moves R (armed_halt t)
  unfolding armed_halt
  armed_halt-rule =
      search (stop_rules, observe_fault_register-rule, rearm-rule, write_runtime_config-rule) depth
        24

  pub discard_result-rule : Moves R (discard_result t)
  unfolding discard_result
  discard_result-rule = search (stop_rules) depth 24

  pub armed_pass-rule : Moves R (armed_pass t)
  unfolding armed_pass
  armed_pass-rule =
      search (stop_rules, data_ready_internal-rule, discard_result-rule, armed_halt-rule) depth 24

  pub stop_pass-rule : Moves R (stop_pass t)
  unfolding stop_pass
  stop_pass-rule = search (stop_rules, uncertain_pass-rule, armed_pass-rule) depth 24

  pub stop_loop-rule : (fuel passes : ℕ) → Moves R (stop_loop t fuel passes)
  unfolding stop_loop
  stop_loop-rule zero passes = search stop_rules depth 24
  stop_loop-rule (suc fuel) passes =
      search (stop_rules, stop_pass-rule, (stop_loop-rule fuel)) depth 24

  pub stop_internal-rule : Moves R (stop_internal t)
  unfolding stop_internal
  stop_internal-rule = search (stop_rules, stop_loop-rule, write_runtime_config-rule) depth 24

-- A relation that a cleanup has, besides stopping.
pub record CleanupRules {ℓ} {W : Type 0} (t : Transport W) (R : Context W → Context W → Type ℓ)
    : Type ℓ where
  pub stops : StopRules t R
  pub cleanup : (expired : Bool) → Moves R (modify_operation (cleanup_operation expired))
  pub merged : (o : Operation) → Moves R (modify_operation (merge_timeout_observations o))

module _ {ℓ} {W : Type 0} {t : Transport W} {R : Context W → Context W → Type ℓ}
    (rules : CleanupRules t R) where
  pub in_cleanup-rule :
      (expired : Bool) (m : Step W (Unit {0})) → Moves R m → Moves R (in_cleanup t expired m)
  unfolding in_cleanup
  in_cleanup-rule expired m h =
      let p = rules.stops.looks.frames.clock.preorder in
      Moves-bind p _ _ (Moves-gets p _) λ o. Moves-bind p _ _ (rules.cleanup expired) λ _.
        Moves-bind p _ _ (Moves-attempt m h)
          λ _. Moves-bind p _ _ (rules.merged o) λ _. Moves-pure p _

  pub expired_result-rule :
      (expired : Bool) (status : Status) → Moves R (expired_result t expired status)
  unfolding expired_result
  expired_result-rule expired status = search (stop_rules) depth 24

  pub restore_idle_after_primary_failure-rule :
      (f : Failure) → Moves R (restore_idle_after_primary_failure t f)
  unfolding restore_idle_after_primary_failure
  restore_idle_after_primary_failure-rule f =
      search (stop_rules, in_cleanup-rule, stop_internal-rule) depth 24

  pub restore_idle_after_consumed_one_shot-rule :
      (status : Status) → Moves R (restore_idle_after_consumed_one_shot t status)
  unfolding restore_idle_after_consumed_one_shot
  restore_idle_after_consumed_one_shot-rule status =
      search (stop_rules, expired_result-rule, in_cleanup-rule, stop_internal-rule) depth 24
