-- ===== src/Driver/Consistency/Requests.antt =====
-- The requests keep the lifecycle state in agreement with what the driver knows.
pub mod Configuring
pub mod Samples
use max.Prelude.{ℕ, ◌≡◌, refl, Bool}
use max.Status.{Status}
use max.Driver.{Transport, Driver, Operation, Context}
use max.Driver.Action.{Step, modify, modify_operation, modify_driver}
use max.Driver.Action.Moves.{
  Moves, moves_rules, Moves-modify, Moves-bind, Moves-gets, Moves-lift, Moves-attempt,
}
use max.Driver.Clock.Rules.{now-rule, check_deadline-rule, sleep_within_deadline-rule}
use max.Driver.Bus.Rules.{frames_clock-rule}
use max.Driver.Health.{
  TrackingOutcome, untracked, tracked_success, tracked_failure, track, finish_operation, finish,
}
use max.Driver.Requests.{make_operation}
use max.Driver.Conversions.Rules.{
  look_rules, read_level-rule, data_ready_internal-rule, read_fault_status_internal-rule,
}
use max.Driver.Stop.Rules.{
  write_runtime_config-rule, clear_faults_internal-rule, stop_internal-rule,
  restore_idle_after_primary_failure-rule,
}
use max.Driver.Start.{
  conversion_running, flush_fault, flush_level, flush_rtd_ready_state, with_bias, run_conversion,
  conclude_start, start_continuous_internal, command_one_shot, trigger_single_internal, request,
  start_continuous, trigger_single_conversion, stop, look, data_ready,
}
use max.Driver.Consistency.{
  is_consistent, Agrees, Agrees-preorder, Agrees-frames, Agrees-looks, agrees_rules,
}

track-agrees :
    (outcome : TrackingOutcome) (start_ms : ℕ) (d : Driver)
    → is_consistent (track outcome start_ms d) ≡ is_consistent d
track-agrees untracked start_ms d = refl
track-agrees tracked_success start_ms d = refl
track-agrees tracked_failure start_ms d = refl

pub finish_operation-agrees :
    (status : Status) (outcome : TrackingOutcome) (o : Operation) (d : Driver)
    → is_consistent (finish_operation status outcome o d) ≡ is_consistent d
unfolding finish_operation
finish_operation-agrees status outcome o d = track-agrees outcome o.start_ms _

module _ {W : Type 0} where
  -- The end of an operation, whatever its status and its tracking.
  pub finished-Agrees :
      (status : Status) (outcome : Operation → TrackingOutcome)
      → Moves Agrees (
          modify (λ (s : Context W). record s {
            driver = finish_operation status (outcome s.operation) s.operation s.driver;
          }))
  finished-Agrees status outcome = Moves-modify _ λ s. record {
    kept = λ h. rw (finish_operation-agrees status (outcome s.operation) s.operation s.driver) h;
  }

  pub reset-Agrees : (o : Operation) → Moves (Agrees {W = W}) (modify_operation (λ _. o))
  reset-Agrees o = Moves-modify _ λ s. record { kept = λ h. h }

  pub running-Agrees :
      (continuous pending uncertain : Bool) (now : ℕ)
      → Moves (Agrees {W = W}) (modify_driver (conversion_running continuous pending uncertain now))
  running-Agrees continuous pending uncertain now = Moves-modify _ λ s. record { kept = λ h. refl }

module _ {W A : Type 0} where
  pub finish-Agrees :
      (tracked : Bool) (m : Step W A) → Moves Agrees m → Moves Agrees (finish tracked m)
  finish-Agrees tracked m h = Moves-bind Agrees-preorder _ _ (Moves-attempt m h) λ result.
      Moves-bind Agrees-preorder _ _ (finished-Agrees _ _) λ _. Moves-lift Agrees-preorder _

module _ {W : Type 0} (t : Transport W) where
  pub make_operation-Agrees : (timeout_ms : ℕ) → Moves Agrees (make_operation t timeout_ms)
  unfolding make_operation
  make_operation-Agrees timeout_ms =
      search
        (moves_rules, Agrees-preorder, now-rule, frames_clock-rule, Agrees-frames, reset-Agrees)
        depth 20

  pub request-Agrees :
      {A : Type 0} (guard : Driver → Status) (timeout_ms : ℕ) (allow_zero : Bool) (m : Step W A)
      → Moves Agrees m
      → Moves Agrees (request t guard timeout_ms allow_zero m)
  unfolding request
  request-Agrees guard timeout_ms allow_zero m h =
      let p = Agrees-preorder in
      Moves-bind p _ _ (reset-Agrees _) λ _. Moves-bind p _ _ (Moves-gets p _) λ d.
        Moves-bind p _ _ (Moves-lift p _) λ _.
          Moves-bind p _ _ (Moves-lift p _)
            λ _. Moves-bind p _ _ (make_operation-Agrees timeout_ms) λ _. h

  flush-Agrees : Moves Agrees (flush_rtd_ready_state t)
  unfolding flush_rtd_ready_state flush_fault flush_level
  flush-Agrees =
      search
        (
          look_rules, Agrees-preorder, Agrees-frames, Agrees-looks, read_level-rule,
          read_fault_status_internal-rule,
        )
        depth 30

  with_bias-Agrees :
      (start : Step W (Unit {0})) → Moves Agrees start → Moves Agrees (with_bias t start)
  unfolding with_bias
  with_bias-Agrees start h =
      search
        (
          agrees_rules, clear_faults_internal-rule, write_runtime_config-rule,
          sleep_within_deadline-rule,
        )
        depth 30

  run_conversion-Agrees :
      (continuous pending uncertain : Bool)
      → Moves Agrees (run_conversion t continuous pending uncertain)
  unfolding run_conversion
  run_conversion-Agrees continuous pending uncertain =
      search (agrees_rules, now-rule, running-Agrees) depth 30

  conclude_start-Agrees :
      (continuous : Bool) (outcome : Bool × Status)
      → Moves Agrees (conclude_start t continuous outcome)
  unfolding conclude_start
  conclude_start-Agrees continuous outcome =
      search
        (
          agrees_rules, check_deadline-rule, run_conversion-Agrees,
          restore_idle_after_primary_failure-rule,
        )
        depth 30

  start_continuous_internal-Agrees : Moves Agrees (start_continuous_internal t)
  unfolding start_continuous_internal
  start_continuous_internal-Agrees =
      search
        (
          agrees_rules, with_bias-Agrees, flush-Agrees, write_runtime_config-rule,
          conclude_start-Agrees,
        )
        depth 30

  command_one_shot-Agrees : Moves Agrees (command_one_shot t)
  unfolding command_one_shot
  command_one_shot-Agrees =
      search (agrees_rules, write_runtime_config-rule, run_conversion-Agrees) depth 30

  pub trigger_single_internal-Agrees : Moves Agrees (trigger_single_internal t)
  unfolding trigger_single_internal
  trigger_single_internal-Agrees =
      search
        (
          agrees_rules, with_bias-Agrees, flush-Agrees, command_one_shot-Agrees,
          conclude_start-Agrees,
        )
        depth 30

  pub start_continuous-Agrees : (timeout_ms : ℕ) → Moves Agrees (start_continuous t timeout_ms)
  unfolding start_continuous
  start_continuous-Agrees timeout_ms =
      search (agrees_rules, finish-Agrees, request-Agrees, start_continuous_internal-Agrees) depth
        30

  pub trigger_single_conversion-Agrees :
      (timeout_ms : ℕ) → Moves Agrees (trigger_single_conversion t timeout_ms)
  unfolding trigger_single_conversion
  trigger_single_conversion-Agrees timeout_ms =
      search (agrees_rules, finish-Agrees, request-Agrees, trigger_single_internal-Agrees) depth 30

  pub stop-Agrees : (timeout_ms : ℕ) → Moves Agrees (stop t timeout_ms)
  unfolding stop
  stop-Agrees timeout_ms =
      search (agrees_rules, finish-Agrees, request-Agrees, stop_internal-rule) depth 30

  look-Agrees : (timeout_ms : ℕ) → Moves Agrees (look t timeout_ms)
  unfolding look
  look-Agrees timeout_ms =
      search (agrees_rules, reset-Agrees, make_operation-Agrees, data_ready_internal-rule) depth 30

  pub data_ready-Agrees : (timeout_ms : ℕ) → Moves Agrees (data_ready t timeout_ms)
  unfolding data_ready
  data_ready-Agrees timeout_ms =
      let p = Agrees-preorder in
      Moves-bind p _ _ (Moves-attempt _ (look-Agrees timeout_ms))
        λ result. Moves-bind p _ _ (finished-Agrees _ _) λ _. Moves-lift p _
