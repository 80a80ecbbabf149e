-- ===== src/Driver/Calls/Starting.antt =====
-- The start and the stop of a conversion keep what frames keep.
use max.Prelude.{ℕ, Bool}
use max.Status.{Status}
use max.Driver.Start.{
  flush_fault, flush_level, flush_rtd_ready_state, with_bias, run_conversion, conclude_start,
  start_continuous_internal, command_one_shot, trigger_single_internal, start_continuous,
  trigger_single_conversion, stop, look, data_ready,
}
use max.Driver.{Transport, Context}
use max.Driver.Action.{Step}
use max.Driver.Action.Moves.{Moves, Moves-bind, Moves-lift, Moves-attempt}
use max.Driver.Calls.{
  CallRules, call_rules, finished-rule, make_operation-rule, request-rule, finish-rule,
}

module _ {ℓ} {W : Type 0} {t : Transport W} {R : Context W → Context W → Type ℓ}
    (rules : CallRules t R) where
  flush_rtd_ready_state-rule : Moves R (flush_rtd_ready_state t)
  unfolding flush_rtd_ready_state flush_fault flush_level
  flush_rtd_ready_state-rule = search (call_rules) depth 30

  with_bias-rule : (start : Step W (Unit {0})) → Moves R start → Moves R (with_bias t start)
  unfolding with_bias
  with_bias-rule start h = search (call_rules) depth 30

  run_conversion-rule :
      (continuous pending uncertain : Bool)
      → Moves R (run_conversion t continuous pending uncertain)
  unfolding run_conversion
  run_conversion-rule continuous pending uncertain = search (call_rules) depth 30

  conclude_start-rule :
      (continuous : Bool) (outcome : Bool × Status) → Moves R (conclude_start t continuous outcome)
  unfolding conclude_start
  conclude_start-rule continuous outcome = search (call_rules, run_conversion-rule) depth 30

  start_continuous_internal-rule : Moves R (start_continuous_internal t)
  unfolding start_continuous_internal
  start_continuous_internal-rule =
      search (call_rules, with_bias-rule, flush_rtd_ready_state-rule, conclude_start-rule) depth 30

  command_one_shot-rule : Moves R (command_one_shot t)
  unfolding command_one_shot
  command_one_shot-rule = search (call_rules, run_conversion-rule) depth 30

  pub trigger_single_internal-rule : Moves R (trigger_single_internal t)
  unfolding trigger_single_internal
  trigger_single_internal-rule =
      search
        (
          call_rules, with_bias-rule, flush_rtd_ready_state-rule, command_one_shot-rule,
          conclude_start-rule,
        )
        depth 30

  pub start_continuous-rule : (timeout_ms : ℕ) → Moves R (start_continuous t timeout_ms)
  unfolding start_continuous
  start_continuous-rule timeout_ms =
      search (call_rules, finish-rule, request-rule, start_continuous_internal-rule) depth 30

  pub trigger_single_conversion-rule :
      (timeout_ms : ℕ) → Moves R (trigger_single_conversion t timeout_ms)
  unfolding trigger_single_conversion
  trigger_single_conversion-rule timeout_ms =
      search (call_rules, finish-rule, request-rule, trigger_single_internal-rule) depth 30

  pub stop-rule : (timeout_ms : ℕ) → Moves R (stop t timeout_ms)
  unfolding stop
  stop-rule timeout_ms = search (call_rules, finish-rule, request-rule) depth 30

  look-rule : (timeout_ms : ℕ) → Moves R (look t timeout_ms)
  unfolding look
  look-rule timeout_ms = search (call_rules, make_operation-rule) depth 30

  pub data_ready-rule : (timeout_ms : ℕ) → Moves R (data_ready t timeout_ms)
  unfolding data_ready
  data_ready-rule timeout_ms =
      let p = rules.frames.clock.preorder in
      Moves-bind p _ _ (Moves-attempt _ (look-rule timeout_ms))
        λ result. Moves-bind p _ _ (finished-rule rules _ _) λ _. Moves-lift p _
