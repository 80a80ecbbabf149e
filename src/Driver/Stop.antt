-- ===== src/Driver/Stop.antt =====
-- Stopping a conversion, and the return to idle after a failure (src/MAX31865.cpp,
-- `stopInternal`, `restoreIdleAfterPrimaryFailure` and `restoreIdleAfterConsumedOneShot`).
pub mod Rules
pub mod Outcomes
pub mod NoWait
use max.Prelude.{
  ℕ, zero, suc, ◌+◌, ◌-◌, ◌*◌, Bool, true, false, not, ◌&&◌, ◌||◌, pos, low_byte, ◌==◌,
  if◌then◌else◌,
}
use max.Status.{
  operation_timeout, device_fault, restore_failed, same_code, Failure, Status, err, is_ok,
  combined_failure_detail, ready, fault,
}
use max.Commands.{reg_rtd_msb, config_fault_clear}
use max.Driver.{Transport, Driver, Operation, Counters, Conversion, saturating_increment}
use max.Driver.Action.{
  ◌>>=◌, Step, pure, lift, raise, gets, attempt, ◌>>◌, on_status, modify_driver, modify_counters,
  modify_conversion, modify_stamps, modify_operation, skip, when,
}
use max.Driver.Clock.{
  now_ms, time_reached, deadline_expired, check_deadline, mark_timeout, raise_timeout,
  sleep_within_deadline, merge_timeout_observations,
}
use max.Driver.Bus.{faulted, frame_started, synchronize_chip_select}
use max.Driver.Access.{idle, read_registers_internal}
use max.Driver.Apply.{write_runtime_config}
use max.Driver.Conversions.{
  fault_noted, is_voltage_fault, read_drdy, read_fault_register, observe_fault_register, rearm,
  note_halt, data_ready_internal,
}

-- `kNoWaitStopPassLimit`.
abbrev pub no_wait_stop_pass_limit : ℕ
no_wait_stop_pass_limit = 2

-- No one-shot is armed and no result is expected.
abbrev pub disarmed : Conversion → Conversion
disarmed c = record c {
  one_shot_armed = false;
  one_shot_commit_pending = false;
  one_shot_commit_uncertain = false;
  fresh_result_armed = false;
  ready_latched = false;
  timed_readiness_halted = false;
}

abbrev pub commit_certain : Conversion → Conversion
commit_certain c = record c { one_shot_commit_uncertain = false }

abbrev pub unsafe_observed : Operation → Operation
unsafe_observed o = record o { unsafe_state_observed = true }

abbrev pub stopped : Driver → Driver
stopped d = record d {
  conversion = idle d.conversion;
  state = if d.configuration_known then ready else fault;
}

abbrev pub count_dropped_sample : Counters → Counters
count_dropped_sample c = record c { dropped_sample = saturating_increment c.dropped_sample }

-- The copy of the operation that a cleanup runs on; past the deadline nothing waits.
abbrev pub cleanup_operation : Bool → Operation → Operation
cleanup_operation expired o =
    frame_started (record o { timeout_ms = if expired then 0 else o.timeout_ms })

module _ {W : Type 0} (t : Transport W) where
  abbrev poll_sleep : Step W (Unit {0})
  poll_sleep = sleep_within_deadline t 1000 operation_timeout

  abbrev rearm_within : Step W (Unit {0})
  rearm_within = rearm t >> check_deadline t

  -- A voltage fault on an uncertain command: the latch is cleared, and the horizon starts again
  -- if the fault has gone.
  unfoldable pub uncertain_halt : ℕ → Step W (Unit {0})
  uncertain_halt raw = do
    note_halt t raw
    write_runtime_config t true false config_fault_clear
    again ← read_fault_register t
    modify_stamps (fault_noted again)
    if is_voltage_fault again
        then raise device_fault "voltage fault still halts the uncertain one-shot" (pos again)
        else rearm_within

  -- The horizon of an uncertain command has passed.
  unfoldable pub uncertain_due : Step W (Unit {0})
  uncertain_due = do
    high ← if t.has_drdy then read_drdy t else pure true
    before ← gets (λ s. s.driver)
    raw ← observe_fault_register t
    if is_voltage_fault raw
        then uncertain_halt raw
        else if before.conversion.timed_readiness_halted
        then rearm_within
        else if high
        then modify_conversion disarmed
        else modify_conversion commit_certain

  unfoldable pub uncertain_pass : Step W (Unit {0})
  uncertain_pass = do
    now ← now_ms t
    check_deadline t
    d ← gets (λ s. s.driver)
    if time_reached now d.conversion.next_ready_ms then uncertain_due else poll_sleep

  -- A voltage fault on an armed one-shot.
  unfoldable pub armed_halt : Step W (Unit {0})
  armed_halt = do
    write_runtime_config t true false config_fault_clear
    raw ← observe_fault_register t
    if is_voltage_fault raw
        then raise device_fault "voltage fault still halts the armed one-shot" (pos raw)
        else rearm_within

  -- The result is read and thrown away, whatever becomes of the read.
  unfoldable pub discard_result : Step W (Unit {0})
  discard_result = do
    status ← attempt (read_registers_internal t reg_rtd_msb 2)
    o ← gets (λ s. s.operation)
    when o.last_transfer_attempted (modify_operation unsafe_observed)
    modify_conversion disarmed
    on_status status (λ _. skip) λ f. modify_driver faulted >> lift (err f)

  unfoldable pub armed_pass : Step W (Unit {0})
  armed_pass = do
    status ← attempt (data_ready_internal t)
    on_status status (λ ready. if ready then discard_result else poll_sleep)
        λ f.
          if same_code f.code device_fault && is_voltage_fault (low_byte f.detail)
          then armed_halt
          else lift (err f)

  unfoldable pub stop_pass : Step W (Unit {0})
  stop_pass = do
    d ← gets (λ s. s.driver)
    if d.conversion.one_shot_commit_uncertain then uncertain_pass else armed_pass

  -- The loop of `stopInternal`, at most `fuel` times. Its `break`s follow a disarming, which ends
  -- the loop at its own test. Without a timeout at most `passes` of them are made.
  unfoldable pub stop_loop : ℕ → ℕ → Step W (Unit {0})
  stop_loop zero passes = raise_timeout operation_timeout
  stop_loop (suc fuel) passes = do
    d ← gets (λ s. s.driver)
    o ← gets (λ s. s.operation)
    if not d.conversion.one_shot_armed
        then skip
        else if (o.timeout_ms == 0) && (passes == 0)
        then raise_timeout operation_timeout
        else stop_pass >> stop_loop fuel (if o.timeout_ms == 0 then passes - 1 else passes)

  -- With a timeout, at most three passes go by between two sleeps of a millisecond.
  unfoldable pub stop_internal : Step W (Unit {0})
  stop_internal = do
    d ← gets (λ s. s.driver)
    when
        (d.conversion.one_shot_armed
          && (d.conversion.one_shot_commit_pending || d.chip_select_uncertain))
        (synchronize_chip_select t)
    o ← gets (λ s. s.operation)
    stop_loop (3 * (o.timeout_ms + 1) + no_wait_stop_pass_limit) no_wait_stop_pass_limit
    now ← gets (λ s. s.driver)
    write_runtime_config t now.desired.bias_enabled false 0
    modify_driver stopped

  -- A cleanup on a copy of the operation, of which only the timeouts that it saw are kept.
  unfoldable pub in_cleanup : Bool → Step W (Unit {0}) → Step W Status
  in_cleanup expired cleanup = do
    o ← gets (λ s. s.operation)
    modify_operation (cleanup_operation expired)
    status ← attempt cleanup
    modify_operation (merge_timeout_observations o)
    pure status

  unfoldable pub restore_idle_after_primary_failure : Failure → Step W (Unit {0})
  restore_idle_after_primary_failure primary = do
    expired ← deadline_expired t
    when expired (mark_timeout operation_timeout)
    cleanup ← in_cleanup expired stop_internal
    on_status cleanup (λ _. lift (err primary))
        λ c. do
          modify_driver faulted
          raise restore_failed "conversion setup and idle-state restore both failed"
              (combined_failure_detail primary.code c.code)

  -- The status that a deadline passed before the cleanup leaves of the primary one.
  unfoldable pub expired_result : Bool → Status → Step W (Unit {0})
  expired_result expired primary =
      if not expired
      then lift primary
      else on_status primary (λ _. raise_timeout operation_timeout)
          λ f. mark_timeout operation_timeout >> lift (err f)

  unfoldable pub restore_idle_after_consumed_one_shot : Status → Step W (Unit {0})
  restore_idle_after_consumed_one_shot primary = do
    expired ← deadline_expired t
    result ← attempt (expired_result expired primary)
    cleanup ← in_cleanup expired stop_internal
    on_status cleanup
        (λ _. do
          when (is_ok primary && not (is_ok result)) (modify_counters count_dropped_sample)
          lift result)
        λ c. do
          when (is_ok primary) (modify_counters count_dropped_sample)
          modify_driver faulted
          on_status result (λ _. lift (err c))
              λ f.
                raise restore_failed "one-shot result and idle-state restore both failed"
                  (combined_failure_detail f.code c.code)
