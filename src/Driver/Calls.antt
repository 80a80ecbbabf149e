-- ===== src/Driver/Calls.antt =====
-- How the public operations keep a relation between worlds: what the callbacks and whole frames
-- do is enough, since the rest of an operation changes the driver alone.
pub mod Configuring
pub mod Starting
pub mod Resolving
pub mod Detecting
pub mod Reading
pub mod Raw
pub mod Beginning
pub mod Every
pub mod Locks
pub mod ChipSelect
use max.Prelude.{ℕ, ◌≡◌, refl, Bool, arith}
use max.Status.{Status}
use max.Driver.{Transport, Driver, Context, Operation}
use max.Driver.Action.{Step, modify, modify_driver, modify_operation}
use max.Driver.Action.Moves.{Moves, Moves-modify, Moves-bind, Moves-gets, Moves-lift, Moves-attempt}
use max.Driver.Clock.{now_us, read_pin}
use max.Driver.Clock.Rules.{sleep_within_deadline-rule}
use max.Driver.Bus.Rules.{FrameRules, clock_rules}
use max.Driver.Access.Rules.{
  read_registers_internal-rule, write_registers_internal-rule, read_persistent_image-rule,
}
use max.Driver.Conversions.Rules.{
  LookRules, data_ready_internal-rule, wait_for_ready_internal-rule,
  read_fault_status_internal-rule, read_level-rule,
}
use max.Driver.Stop.Rules.{
  StopRules, CleanupRules, write_runtime_config-rule, clear_faults_internal-rule,
  stop_internal-rule, restore_idle_after_primary_failure-rule,
  restore_idle_after_consumed_one_shot-rule, in_cleanup-rule, expired_result-rule,
}
use max.Driver.FaultCycle.Rules.{
  read_config_register-rule, wait_for_fault_cycle-rule, complete_manual_cycle-rule,
}
use max.Driver.Readiness.{update_timed_readiness}
use max.Driver.Health.{
  TrackingOutcome, untracked, tracked_success, tracked_failure, finish_operation, finish,
}
use max.Driver.Requests.{make_operation}
use max.Driver.Start.{request}

-- A change of the driver that leaves what it says of chip select.
pub record KeepsSelect (f : Driver → Driver) : Type 0 where
  pub kept : (d : Driver) → (f d).chip_select_uncertain ≡ d.chip_select_uncertain

finish_operation-kept :
    (status : Status) (outcome : TrackingOutcome) (o : Operation) (d : Driver)
    → (finish_operation status outcome o d).chip_select_uncertain ≡ d.chip_select_uncertain
unfolding finish_operation
finish_operation-kept status untracked o d = refl
finish_operation-kept status tracked_success o d = refl
finish_operation-kept status tracked_failure o d = refl

pub timed-KeepsSelect : (now : ℕ) → KeepsSelect (update_timed_readiness now)
unfolding update_timed_readiness
timed-KeepsSelect now = record { kept = λ d. ground arith }

-- A relation that whole frames and the callbacks outside them have, and that contexts have that
-- differ neither in the world nor in what the driver says of chip select.
pub record CallRules {ℓ} {W : Type 0} (t : Transport W) (R : Context W → Context W → Type ℓ)
    : Type ℓ where
  pub frames : FrameRules t R
  pub pin : Moves R (read_pin t)
  pub micros : Moves R (now_us t)
  pub unmoved :
      (s u : Context W)
      → u.world ≡ s.world
      → u.driver.chip_select_uncertain ≡ s.driver.chip_select_uncertain
      → R s u

module _ {ℓ} {W : Type 0} {t : Transport W} {R : Context W → Context W → Type ℓ}
    (rules : CallRules t R) where
  pub driver-rule : (f : Driver → Driver) → KeepsSelect f → Moves R (modify_driver f)
  driver-rule f h = Moves-modify _ λ s. rules.unmoved s _ refl (h.kept s.driver)

  pub operation-rule : (f : Operation → Operation) → Moves R (modify_operation f)
  operation-rule f = Moves-modify _ λ s. rules.unmoved s _ refl refl

  -- The end of an operation, whatever its status and its tracking.
  pub finished-rule :
      (status : Status) (outcome : Operation → TrackingOutcome)
      → Moves R (
          modify (λ s. record s {
            driver = finish_operation status (outcome s.operation) s.operation s.driver;
          }))
  finished-rule status outcome = Moves-modify _ λ s.
      rules.unmoved s _ refl
        (finish_operation-kept status (outcome s.operation) s.operation s.driver)

  pub micros-rule : Moves R (now_us t)
  micros-rule = rules.micros

  pub whole_frames-rule : FrameRules t R
  whole_frames-rule = rules.frames

  pub whole_looks-rule : LookRules t R
  whole_looks-rule = record {
    frames = rules.frames;
    pin = rules.pin;
    counted = λ f. driver-rule _ (record { kept = λ d. refl });
    stamped = λ f. driver-rule _ (record { kept = λ d. refl });
    timed = λ now. driver-rule _ (timed-KeepsSelect now);
    halted = driver-rule _ (record { kept = λ d. refl });
    rearmed = λ now ms. driver-rule _ (record { kept = λ d. refl });
  }

  pub whole_stops-rule : StopRules t R
  whole_stops-rule = record {
    looks = whole_looks-rule;
    unsafe = operation-rule _;
    fault = driver-rule _ (record { kept = λ d. refl });
    config_byte = λ byte. driver-rule _ (record { kept = λ d. refl });
    disarmed = driver-rule _ (record { kept = λ d. refl });
    certain = driver-rule _ (record { kept = λ d. refl });
    stopped = driver-rule _ (record { kept = λ d. refl });
  }

  pub whole_cleanups-rule : CleanupRules t R
  whole_cleanups-rule = record {
    stops = whole_stops-rule;
    cleanup = λ expired. operation-rule _;
    merged = λ o. operation-rule _;
  }

pub ruleset call_rules = (
  timed-KeepsSelect, clock_rules, sleep_within_deadline-rule, driver-rule, operation-rule,
  finished-rule, micros-rule, whole_frames-rule, whole_looks-rule, whole_stops-rule,
  whole_cleanups-rule, read_registers_internal-rule, write_registers_internal-rule,
  read_persistent_image-rule, data_ready_internal-rule, wait_for_ready_internal-rule,
  read_fault_status_internal-rule, read_level-rule, write_runtime_config-rule,
  clear_faults_internal-rule, stop_internal-rule, restore_idle_after_primary_failure-rule,
  restore_idle_after_consumed_one_shot-rule, in_cleanup-rule, expired_result-rule,
  read_config_register-rule, wait_for_fault_cycle-rule, complete_manual_cycle-rule,
)

module _ {ℓ} {W : Type 0} {t : Transport W} {R : Context W → Context W → Type ℓ}
    (rules : CallRules t R) where
  pub make_operation-rule : (timeout_ms : ℕ) → Moves R (make_operation t timeout_ms)
  unfolding make_operation
  make_operation-rule timeout_ms = search call_rules depth 20

  pub request-rule :
      {A : Type 0} (guard : Driver → Status) (timeout_ms : ℕ) (allow_zero : Bool) (m : Step W A)
      → Moves R m
      → Moves R (request t guard timeout_ms allow_zero m)
  unfolding request
  request-rule guard timeout_ms allow_zero m h =
      let p = rules.frames.clock.preorder in
      Moves-bind p _ _ (operation-rule rules _) λ _. Moves-bind p _ _ (Moves-gets p _) λ d.
        Moves-bind p _ _ (Moves-lift p _) λ _.
          Moves-bind p _ _ (Moves-lift p _)
            λ _. Moves-bind p _ _ (make_operation-rule timeout_ms) λ _. h

  pub finish-rule :
      {A : Type 0} (tracked : Bool) (m : Step W A) → Moves R m → Moves R (finish tracked m)
  finish-rule tracked m h =
      let p = rules.frames.clock.preorder in
      Moves-bind p _ _ (Moves-attempt m h)
        λ result. Moves-bind p _ _ (finished-rule rules _ _) λ _. Moves-lift p _
