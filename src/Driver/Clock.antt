-- ===== src/Driver/Clock.antt =====
-- The application's callbacks, and the deadline of an operation (src/MAX31865.cpp,
-- `timeoutStatus` and from `deadlineExpired` to `sleepWithinDeadline`).
pub mod Rules
use max.Prelude.{
  ℕ, ◌+◌, ◌-◌, ◌/◌, ◌%◌, Bool, true, false, ◌&&◌, ◌||◌, Option, List, pos, leb, ltb, ◌==◌,
  if◌then◌else◌, u32, sub32,
}
use max.Status.{
  Error, timing_unavailable, operation_timeout, drdy_timeout, chip_select_failed, same_code,
  Failure, ok, Result, has_code,
}
use max.Driver.{Transport, Operation}
use max.Driver.Action.{Step, pure, lift, raise, gets, ◌>>=◌, ◌>>◌, modify_operation, skip, when}

-- `elapsedMs` and `timeReached`: differences of 32-bit clock readings.
abbrev pub elapsed_ms : ℕ → ℕ → ℕ
elapsed_ms now start = sub32 now start

abbrev pub time_reached : ℕ → ℕ → Bool
time_reached now target = ltb (sub32 now target) 2147483648

-- `timeoutStatus`: the operation remembers which deadline it saw pass.
abbrev mark : Error → Operation → Operation
mark code o =
    if same_code code drdy_timeout
    then record o { saw_drdy_timeout = true }
    else record o { saw_operation_timeout = true }

-- `mergeTimeoutObservations`: what a copy of the operation saw is kept, the rest of it is not.
abbrev pub merge_timeout_observations : Operation → Operation → Operation
merge_timeout_observations destination source = record destination {
  saw_drdy_timeout = destination.saw_drdy_timeout || source.saw_drdy_timeout;
  saw_operation_timeout = destination.saw_operation_timeout || source.saw_operation_timeout;
}

abbrev timeout_failure : {W A : Type 0} → Error → Step W A
timeout_failure code =
    if same_code code drdy_timeout
    then raise drdy_timeout "conversion readiness timed out" (pos 0)
    else raise operation_timeout "operation deadline expired" (pos 0)

abbrev pub mark_timeout : {W : Type 0} → Error → Step W (Unit {0})
mark_timeout code = modify_operation (mark code)

unfoldable pub raise_timeout : {W A : Type 0} → Error → Step W A
raise_timeout code = do mark_timeout code; timeout_failure code

module _ {W : Type 0} (t : Transport W) where
  -- The callbacks, each called once. A clock reading is a `uint32_t`.
  unfoldable pub now_ms : Step W ℕ
  now_ms s = let (n, w) = t.now_ms s.world in (ok (u32 n), record s { world = w })

  unfoldable pub now_us : Step W ℕ
  now_us s = let (n, w) = t.now_us s.world in (ok (u32 n), record s { world = w })

  unfoldable pub read_pin : Step W (Option Failure × Bool)
  read_pin s = let (r, level, w) = t.read_pin s.world in (ok (r, level), record s { world = w })

  unfoldable pub sleep_ms : ℕ → Step W (Unit {0})
  sleep_ms ms s = (ok tt, record s { world = t.sleep_ms ms s.world })

  unfoldable pub delay_us : ℕ → Step W (Unit {0})
  delay_us us s = (ok tt, record s { world = t.delay_us us s.world })

  unfoldable pub unlock_bus : Step W (Unit {0})
  unlock_bus s = (ok tt, record s { world = t.unlock_bus s.world })

  unfoldable pub lock_bus : ℕ → Step W (Option Failure)
  lock_bus ms s = let (r, w) = t.lock_bus ms s.world in (ok r, record s { world = w })

  unfoldable pub set_chip_select : Bool → Step W (Option Failure)
  set_chip_select on s = let (r, w) = t.set_chip_select on s.world in (ok r, record s { world = w })

  unfoldable pub transfer : List ℕ → ℕ → Step W (Option Failure × List ℕ)
  transfer tx ms s =
      let (r, rx, w) = t.transfer tx ms s.world in (ok (r, rx), record s { world = w })

  unfoldable pub deadline_expired : Step W Bool
  deadline_expired = do
    o ← gets (λ s. s.operation)
    if o.timeout_ms == 0
        then pure false
        else do now ← now_ms; pure (leb o.timeout_ms (elapsed_ms now o.start_ms))

  unfoldable pub deadline_remaining_ms : Step W ℕ
  deadline_remaining_ms = do
    o ← gets (λ s. s.operation)
    if o.timeout_ms == 0 then pure 0 else do
      now ← now_ms
      let elapsed = elapsed_ms now o.start_ms
      pure (if leb o.timeout_ms elapsed then 0 else o.timeout_ms - elapsed)

  -- `if (deadlineExpired(operation)) return timeoutStatus(OperationTimeout, operation);`
  unfoldable pub check_deadline : Step W (Unit {0})
  check_deadline = do
    expired ← deadline_expired
    if expired then raise_timeout operation_timeout else skip

  -- A status at the end of a frame, once the deadline has been looked at again: a chip-select
  -- failure stays the result, and any other gives way to the timeout.
  abbrev pub late_status : {A : Type 0} → Result A → Step W A
  late_status status =
      if has_code chip_select_failed status
      then mark_timeout operation_timeout >> lift status
      else raise_timeout operation_timeout

  unfoldable pub after_deadline : {A : Type 0} → Result A → Step W A
  after_deadline status = do
    expired ← deadline_expired
    if expired then late_status status else lift status

  -- `sleepWithinDeadline`. The delay is in microseconds; the clock counts milliseconds.
  unfoldable pub sleep_within_deadline : ℕ → Error → Step W (Unit {0})
  sleep_within_deadline delay timeout = if delay == 0 then skip else do
    let required_ms = delay / 1000 + (if (delay % 1000) == 0 then 0 else 1)
    o ← gets (λ s. s.operation)
    remaining ← deadline_remaining_ms
    if (o.timeout_ms == 0) || leb remaining required_ms then raise_timeout timeout else do
      before ← now_ms
      let elapsed = elapsed_ms before o.start_ms
      let left = if leb o.timeout_ms elapsed then 0 else o.timeout_ms - elapsed
      if leb left required_ms then raise_timeout timeout else do
        when (ltb 0 (delay / 1000)) (sleep_ms (delay / 1000))
        when (ltb 0 (delay % 1000)) (delay_us (delay % 1000))
        after ← now_ms
        if ltb 0 (delay / 1000) && ltb (elapsed_ms after before) (delay / 1000)
            then raise timing_unavailable "sleep callback did not advance the deadline clock"
                (pos 0)
            else do expired ← deadline_expired; if expired then raise_timeout timeout else skip
