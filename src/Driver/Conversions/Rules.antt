-- ===== src/Driver/Conversions/Rules.antt =====
-- How a look at the readiness of a conversion keeps a relation between contexts.
use max.Prelude.{ℕ, zero, suc, Bool}
use max.Driver.{Transport, Context, Counters, Stamps}
use max.Driver.Action.{modify_counters, modify_stamps, modify_driver, modify_conversion}
use max.Driver.Action.Moves.{Moves, Moves-bind, Moves-if, Moves-pure}
use max.Driver.Clock.{read_pin}
use max.Driver.Clock.Rules.{sleep_within_deadline-rule}
use max.Driver.Bus.Rules.{FrameRules, clock_rules}
use max.Driver.Access.Rules.{read_registers_internal-rule}
use max.Driver.Faults.{read_fault_status_internal}
use max.Driver.Readiness.{update_timed_readiness}
use max.Driver.Conversions.{
  halted, rearmed, read_level, read_drdy, read_fault_register, observe_fault_register, rearm,
  note_halt, inspect_late_drdy, drdy_ready, confirm_timed, timed_ready, data_ready_internal,
  await_next, wait_ready, wait_for_ready_internal,
}

-- A relation that a look has, besides frames.
pub record LookRules {ℓ} {W : Type 0} (t : Transport W) (R : Context W → Context W → Type ℓ)
    : Type ℓ where
  pub frames : FrameRules t R
  pub pin : Moves R (read_pin t)
  pub counted : (f : Counters → Counters) → Moves R (modify_counters f)
  pub stamped : (f : Stamps → Stamps) → Moves R (modify_stamps f)
  pub timed : (now : ℕ) → Moves R (modify_driver (update_timed_readiness now))
  pub halted : Moves R (modify_conversion halted)
  pub rearmed : (now ms : ℕ) → Moves R (modify_conversion (rearmed now ms))

module _ {ℓ} {W : Type 0} {t : Transport W} {R : Context W → Context W → Type ℓ}
    (rules : LookRules t R) where
  pub frames-rule : FrameRules t R
  frames-rule = rules.frames

  pub pin-rule : Moves R (read_pin t)
  pin-rule = rules.pin

  pub counted-rule : (f : Counters → Counters) → Moves R (modify_counters f)
  counted-rule = rules.counted

  pub stamped-rule : (f : Stamps → Stamps) → Moves R (modify_stamps f)
  stamped-rule = rules.stamped

  pub timed-rule : (now : ℕ) → Moves R (modify_driver (update_timed_readiness now))
  timed-rule = rules.timed

  pub halted-rule : Moves R (modify_conversion halted)
  halted-rule = rules.halted

  pub rearmed-rule : (now ms : ℕ) → Moves R (modify_conversion (rearmed now ms))
  rearmed-rule = rules.rearmed

pub ruleset look_rules = (
  clock_rules, read_registers_internal-rule, frames-rule, pin-rule, counted-rule, stamped-rule,
  timed-rule, halted-rule, rearmed-rule,
)

module _ {ℓ} {W : Type 0} {t : Transport W} {R : Context W → Context W → Type ℓ}
    (rules : LookRules t R) where
  pub read_level-rule : Moves R (read_level t)
  unfolding read_level
  read_level-rule = search (look_rules) depth 24

  pub read_drdy-rule : Moves R (read_drdy t)
  unfolding read_drdy
  read_drdy-rule = search (look_rules, read_level-rule) depth 24

  pub read_fault_register-rule : Moves R (read_fault_register t)
  unfolding read_fault_register
  read_fault_register-rule = search (look_rules) depth 24

  pub observe_fault_register-rule : Moves R (observe_fault_register t)
  unfolding observe_fault_register
  observe_fault_register-rule = search (look_rules, read_fault_register-rule) depth 24

  pub rearm-rule : Moves R (rearm t)
  unfolding rearm
  rearm-rule = search (look_rules) depth 24

  pub note_halt-rule : (raw : ℕ) → Moves R (note_halt t raw)
  unfolding note_halt
  note_halt-rule raw = search (look_rules) depth 24

  pub drdy_ready-rule : Moves R (drdy_ready t)
  unfolding drdy_ready inspect_late_drdy
  drdy_ready-rule =
      search (look_rules, read_drdy-rule, observe_fault_register-rule, note_halt-rule) depth 24

  pub timed_ready-rule : Moves R (timed_ready t)
  unfolding timed_ready confirm_timed
  timed_ready-rule =
      search (look_rules, observe_fault_register-rule, note_halt-rule, rearm-rule) depth 24

  pub data_ready_internal-rule : Moves R (data_ready_internal t)
  unfolding data_ready_internal
  data_ready_internal-rule = search (look_rules, drdy_ready-rule, timed_ready-rule) depth 24

  pub await_next-rule : Moves R (await_next t)
  unfolding await_next
  await_next-rule = search (look_rules, sleep_within_deadline-rule) depth 24

  pub wait_ready-rule : (fuel : ℕ) → Moves R (wait_ready t fuel)
  unfolding wait_ready
  wait_ready-rule zero = search look_rules depth 24
  wait_ready-rule (suc fuel) =
      Moves-bind rules.frames.clock.preorder _ _ (data_ready_internal-rule) λ ready.
        Moves-if ready _ _ (Moves-pure rules.frames.clock.preorder _)
          (Moves-bind rules.frames.clock.preorder _ _ await_next-rule λ _. wait_ready-rule fuel)

  pub wait_for_ready_internal-rule : Moves R (wait_for_ready_internal t)
  unfolding wait_for_ready_internal
  wait_for_ready_internal-rule = search (look_rules, wait_ready-rule) depth 24

  pub read_fault_status_internal-rule :
      (counts : Bool) → Moves R (read_fault_status_internal t counts)
  unfolding read_fault_status_internal
  read_fault_status_internal-rule counts = search look_rules depth 24
