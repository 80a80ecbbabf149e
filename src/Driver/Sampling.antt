-- ===== src/Driver/Sampling.antt =====
-- The requests that read a sample (src/MAX31865.cpp, `poll`, `readSample`, `readSingle` and
-- `readOneShot`).
use max.Prelude.{ℕ, Bool, true, false, not, ◌&&◌, ◌||◌, Option, some, none, pos, if◌then◌else◌}
use max.Status.{
  no_data, invalid_state, device_fault, Result, ok, Status, success, fail, is_ok, has_code,
}
use max.Driver.{Transport, Driver, Operation, operation_at}
use max.Driver.Action.{
  Step, pure, lift, raise, gets, attempt, ◌>>=◌, ◌>>◌, modify, modify_counters, modify_stamps,
  modify_operation, skip,
}
use max.Driver.Health.{TrackingOutcome, tracked_success, tracking_for, finish_operation}
use max.Driver.Requests.{validate_timeout, require_ready, require_operational, make_operation}
use max.Driver.Readiness.{is_converting}
use max.Driver.Conversions.{count_no_data, data_ready_internal, wait_for_ready_internal}
use max.Driver.Stop.{restore_idle_after_consumed_one_shot}
use max.Driver.Start.{request, trigger_single_internal}
use max.Driver.Detection.{joined}
use max.Driver.Samples.{
  Scaling, Sample, ReadOptions, has_flag, flag_frame_valid, commit_sample, read_sample_internal,
}

-- Where a result was not ready after a frame that went through, the device was still reached.
abbrev pub track_read : Bool → Status → Operation → TrackingOutcome
track_read looks status o =
    if looks && has_code no_data status && o.last_frame_committed
    then tracked_success
    else tracking_for status true

-- The staged sample, if the final status still lets the caller see it.
abbrev pub delivered : {F : Type 0} → Result (Sample F × Status) → Status → Option (Sample F)
delivered (ok found) status =
    if (is_ok status || has_code device_fault status) && has_flag flag_frame_valid found.0
    then some found.0
    else none
delivered _ status = none

abbrev require_armed_conversion : Driver → Status
require_armed_conversion d =
    if not (is_converting d.state) || not d.conversion.fresh_result_armed
    then fail invalid_state "readSingle requires an armed conversion" (pos 0)
    else success

abbrev require_no_one_shot : Driver → Status
require_no_one_shot d =
    if is_converting d.state && d.conversion.one_shot_armed
    then fail invalid_state "immediate read is unsafe during an armed one-shot" (pos 0)
    else success

module _ {W F : Type 0} (t : Transport W) where
  abbrev pub commit : Option (Sample F) → Step W (Unit {0})
  commit none = skip
  commit (some x) = modify_stamps (commit_sample x)

  -- The end of an acquisition: a one-shot that is no longer armed has been consumed, and the bias
  -- returns to idle; the sample is committed if its status survives that.
  unfoldable pub acquire : Bool → Step W (Sample F × Status) → Step W (Option (Sample F) × Status)
  acquire one_shot m = do
    outcome ← attempt m
    d ← gets (λ s. s.driver)
    status ←
        if one_shot && not d.conversion.one_shot_armed
        then attempt (restore_idle_after_consumed_one_shot t (joined outcome))
        else pure (joined outcome)
    commit (delivered outcome status)
    pure (delivered outcome status, status)

  unfoldable pub finish_read :
      Bool → Step W (Option (Sample F) × Status) → Step W (Option (Sample F) × Status)
  finish_read looks m = do
    found ← m
    modify (λ s. record s {
      driver = finish_operation found.1 (track_read looks found.1 s.operation) s.operation s.driver;
    })
    pure found

  abbrev not_ready : Step W (Sample F × Status)
  not_ready = do
    modify_counters count_no_data
    raise no_data "fresh conversion is not ready" (pos 0)

module _ {W F : Type 0} (t : Transport W) (scaling : Scaling F) (options : Option ReadOptions) where
  unfoldable pub poll_ready : Step W (Sample F × Status)
  poll_ready = do
    ready ← data_ready_internal t
    if ready then read_sample_internal t scaling options true else not_ready t

  unfoldable pub poll_request : ℕ → Step W (Sample F × Status)
  poll_request timeout_ms = do
    modify_operation (λ _. operation_at 0 0)
    d ← gets (λ s. s.driver)
    lift (require_operational d)
    lift (validate_timeout timeout_ms false)
    if not d.conversion.fresh_result_armed
        then not_ready t
        else make_operation t timeout_ms >> poll_ready

  unfoldable pub poll : ℕ → Step W (Option (Sample F) × Status)
  poll timeout_ms = finish_read t true do
    d ← gets (λ s. s.driver)
    acquire t (d.conversion.one_shot_armed && not d.conversion.continuous) (poll_request timeout_ms)

  unfoldable pub read_sample_request : ℕ → Step W (Sample F × Status)
  read_sample_request timeout_ms = do
    modify_operation (λ _. operation_at 0 0)
    d ← gets (λ s. s.driver)
    lift (require_operational d)
    lift (validate_timeout timeout_ms false)
    lift (require_no_one_shot d)
    make_operation t timeout_ms
    read_sample_internal t scaling options false

  unfoldable pub read_sample : ℕ → Step W (Option (Sample F) × Status)
  read_sample timeout_ms = finish_read t false (acquire t false (read_sample_request timeout_ms))

  unfoldable pub read_single_request : ℕ → Step W (Sample F × Status)
  read_single_request timeout_ms = do
    modify_operation (λ _. operation_at 0 0)
    d ← gets (λ s. s.driver)
    lift (require_operational d)
    lift (require_armed_conversion d)
    lift (validate_timeout timeout_ms true)
    make_operation t timeout_ms
    wait_for_ready_internal t
    read_sample_internal t scaling options true

  unfoldable pub read_single : ℕ → Step W (Option (Sample F) × Status)
  read_single timeout_ms = finish_read t true do
    d ← gets (λ s. s.driver)
    acquire t (d.conversion.one_shot_armed && not d.conversion.continuous)
        (read_single_request timeout_ms)

  unfoldable pub read_one_shot : ℕ → Step W (Option (Sample F) × Status)
  read_one_shot timeout_ms = finish_read t false do
    started ← attempt (request t require_ready timeout_ms false (trigger_single_internal t))
    acquire t (is_ok started)
        do lift started; wait_for_ready_internal t; read_sample_internal t scaling options true
