-- ===== src/Driver/Bus.antt =====
-- The bus session of one SPI frame (src/MAX31865.cpp, from `synchronizeChipSelect` to
-- `transact`).
pub mod Rules
pub mod Quiet
pub mod Level
pub mod Locks
pub mod ChipSelect
use max.Prelude.{
  ℕ, Bool, true, false, not, ◌&&◌, ◌||◌, Option, List, pos, ltb, ◌==◌, if◌then◌else◌, length, add32,
}
use max.Status.{
  Error, invalid_argument, invalid_state, bus_lock_timeout, bus_lock_failed, spi_transfer_failed,
  chip_select_failed, operation_timeout, restore_failed, same_code, Failure, Result, Status, err,
  combined_failure_detail, fault,
}
use max.Commands.{max_frame_bytes, cs_setup_delay_us, cs_hold_delay_us, cs_inactive_delay_us}
use max.Config.{single_conversion_time_ms}
use max.Driver.{
  Operation, Transport, Driver, Context, Counters, Conversion, no_session, saturating_increment,
}
use max.Driver.Action.{
  Step, pure, lift, raise, gets, attempt, modify, ◌>>=◌, ◌>>◌, on_status, modify_driver,
  modify_counters, modify_conversion, modify_operation, modify_session, when,
}
use max.Driver.Normalize.{
  normalize_lock_status, normalize_chip_select_status, normalize_required_deassert_status,
  normalize_transfer_status,
}
use max.Driver.Clock.{
  now_ms, delay_us, unlock_bus, lock_bus, set_chip_select, transfer, deadline_expired,
  deadline_remaining_ms, check_deadline, after_deadline, mark_timeout, raise_timeout,
}

-- `invalidateObservedState`, alone and with the lifecycle state `Fault`.
abbrev pub invalidate : Driver → Driver
invalidate d = record d { configuration_known = false; observed_valid_mask = 0 }

abbrev pub faulted : Driver → Driver
faulted d = record d { state = fault; configuration_known = false; observed_valid_mask = 0 }

-- The members that a chip-select failure changes.
abbrev pub select_failed : Driver → Driver
select_failed d = record d {
  chip_select_uncertain = true;
  counters = record d.counters {
    chip_select_failure = saturating_increment d.counters.chip_select_failure;
  };
  state = fault;
  configuration_known = false;
  observed_valid_mask = 0;
}

-- The counter of a failed lock.
abbrev pub count_lock_failure : Error → Counters → Counters
count_lock_failure code c =
    if same_code code bus_lock_timeout
    then record c { bus_lock_timeout = saturating_increment c.bus_lock_timeout }
    else if same_code code bus_lock_failed
    then record c { bus_lock_failure = saturating_increment c.bus_lock_failure }
    else c

abbrev pub count_transfer_failure : Counters → Counters
count_transfer_failure c = record c {
  spi_transfer_failure = saturating_increment c.spi_transfer_failure;
}

-- The framing is known again.
abbrev pub framed : Driver → Driver
framed d = record d { chip_select_uncertain = false }

-- The conversion that may start with the first proven rising edge of chip select.
abbrev pub restart_horizon : ℕ → ℕ → Conversion → Conversion
restart_horizon now conversion_ms c = record c {
  conversion_start_ms = now;
  next_ready_ms = add32 (add32 now conversion_ms) 1;
  one_shot_commit_pending = false;
  timed_readiness_halted = false;
}

-- The status of a deassertion, which is required where the framing may be lost.
abbrev pub deassert_status : Bool → Option Failure → Status
deassert_status required raw =
    if required then normalize_required_deassert_status raw else normalize_chip_select_status raw

-- The marks of a frame in the operation: at its head, and after its transfer.
abbrev pub frame_started : Operation → Operation
frame_started o = record o {
  last_transfer_attempted = false;
  last_transfer_applied = false;
  last_frame_committed = false;
  last_deassert_unknown = false;
}

abbrev pub transfer_applied : Operation → Operation
transfer_applied o = record o { last_transfer_attempted = true; last_transfer_applied = true }

abbrev pub transfer_failed : Error → Operation → Operation
transfer_failed code o = record o { last_transfer_attempted = not (same_code code invalid_state) }

-- `anyWriteMayHaveApplied = true`, after a frame that writes.
abbrev pub write_noted : Operation → Operation
write_noted o = record o { any_write_may_have_applied = true }

-- What `transact` notes of the frame when its session is closed.
abbrev pub note_frame : {W : Type 0} → Context W → Context W
note_frame s =
    if s.operation.last_transfer_applied && not s.session.selected
    then record s { operation = record s.operation { last_frame_committed = true } }
    else if s.operation.last_transfer_attempted && s.session.selected
    then record s { operation = record s.operation { last_deassert_unknown = true } }
    else s

module _ {W : Type 0} (t : Transport W) where
  -- The lock at the head of `synchronizeChipSelect` and of `openSession`; true if it is held.
  unfoldable pub try_lock : Step W Bool
  try_lock = if not t.has_lock_bus then pure false else do
    remaining ← deadline_remaining_ms t
    status ← lock_bus t remaining
    on_status (normalize_lock_status status) (λ _. pure true)
        λ f. do modify_counters (count_lock_failure f.code); check_deadline t; lift (err f)

  unfoldable pub restart : Driver → Step W (Unit {0})
  restart d = do
    now ← now_ms t
    modify_conversion (restart_horizon now (single_conversion_time_ms d.desired.filter))

  -- After a successful deassertion the framing is known; a conversion may start with it.
  unfoldable pub deasserted : Step W (Unit {0})
  deasserted = do
    modify_driver framed
    d ← gets (λ s. s.driver)
    when (d.conversion.one_shot_armed && d.conversion.one_shot_commit_pending) (restart d)
    delay_us t cs_inactive_delay_us
    check_deadline t

  unfoldable pub deassert_failed : Failure → Step W (Unit {0})
  deassert_failed f = do
    when (same_code f.code chip_select_failed) (modify_driver select_failed)
    after_deadline t (err f)

  -- Chip select driven high at the start of an operation, with the framing perhaps unknown.
  unfoldable pub deassert_first : Bool → Step W (Unit {0})
  deassert_first framing_was_uncertain = do
    raw ← set_chip_select t false
    on_status (deassert_status framing_was_uncertain raw) (λ _. deasserted) deassert_failed

  -- The end of a frame that holds the lock: unlock, and look at the deadline again.
  unfoldable pub release : Bool → Result (Unit {0}) → Step W (Unit {0})
  release locked status = if locked then (unlock_bus t) >> after_deadline t status else lift status

  unfoldable pub synchronize_chip_select : Step W (Unit {0})
  synchronize_chip_select = do
    check_deadline t
    framing_was_uncertain ← gets (λ s. s.driver.chip_select_uncertain)
    locked ← try_lock
    expired ← if locked then (deadline_expired t) else pure false
    if expired && not framing_was_uncertain
        then (unlock_bus t) >> raise_timeout operation_timeout
        else attempt (deassert_first framing_was_uncertain) >>= release locked

  unfoldable pub asserted : Step W (Unit {0})
  asserted = do
    modify_session (λ x. record x { selected = true })
    modify_driver framed
    check_deadline t
    delay_us t cs_setup_delay_us
    check_deadline t

  -- A failed assertion may have been applied; a rejected one was not.
  unfoldable pub assert_failed : Failure → Step W (Unit {0})
  assert_failed f = do
    (if same_code f.code chip_select_failed
        then modify_session (λ x. record x { selected = true }) >> modify_driver select_failed
        else modify_driver framed)
    check_deadline t
    lift (err f)

  -- The rest of `openSession`, with the lock held where there is one.
  unfoldable pub select : Step W (Unit {0})
  select = do
    check_deadline t
    raw ← set_chip_select t true
    on_status (normalize_chip_select_status raw) (λ _. asserted) assert_failed

  unfoldable pub open_session : Step W (Unit {0})
  open_session = do
    modify_session (λ _. no_session)
    check_deadline t
    locked ← try_lock
    modify_session (λ x. record x { locked = locked })
    select

  -- The received bytes, with the frame's transfer noted in the operation.
  unfoldable pub transfer_in_session : List ℕ → Step W (List ℕ)
  transfer_in_session tx = do
    x ← gets (λ s. s.session)
    if not x.selected || (length tx == 0) || ltb max_frame_bytes (length tx)
        then raise invalid_argument "invalid in-session transfer" (pos 0)
        else do
          check_deadline t
          remaining ← deadline_remaining_ms t
          (raw, rx) ← transfer t tx remaining
          on_status (normalize_transfer_status raw)
              (λ _. do modify_operation transfer_applied; check_deadline t; pure rx)
              λ f. do
                modify_operation (transfer_failed f.code)
                when (same_code f.code spi_transfer_failed) (modify_counters count_transfer_failure)
                lift (err f)

  unfoldable pub frame_closed : Status → Step W (Unit {0})
  frame_closed held = do
    modify_driver framed
    modify_session (λ x. record x { selected = false })
    raised ← attempt (check_deadline t)
    delay_us t cs_inactive_delay_us
    inactive ← attempt (check_deadline t)
    lift held
    lift raised
    lift inactive

  unfoldable pub frame_open : Failure → Step W (Unit {0})
  frame_open f = do
    modify_driver select_failed
    expired ← deadline_expired t
    when expired (mark_timeout operation_timeout)
    lift (err f)

  -- The end of a selected frame in `closeSession`: the deadline is looked at before the
  -- deassertion, after it and after the inactive time, and any of these may be the result.
  unfoldable pub close_frame : Step W (Unit {0})
  close_frame = do
    delay_us t cs_hold_delay_us
    held ← attempt (check_deadline t)
    raw ← set_chip_select t false
    on_status (normalize_required_deassert_status raw) (λ _. frame_closed held) frame_open

  unfoldable pub close_session : Step W (Unit {0})
  close_session = do
    x ← gets (λ s. s.session)
    status ← attempt (when x.selected close_frame)
    if not x.locked then lift status else do
      unlock_bus t
      modify_session (λ x. record x { locked = false })
      after_deadline t status

  -- The result of a frame from the statuses of its body and of its cleanup.
  unfoldable pub frame_result : Result (List ℕ) → Result (Unit {0}) → Step W (List ℕ)
  frame_result primary cleanup =
      on_status cleanup
        (λ _. on_status primary (λ rx. (check_deadline t) >> pure rx) λ f. lift (err f))
        λ c.
          if same_code c.code operation_timeout
          then lift (err c)
          else on_status primary (λ _. lift (err c))
              λ f.
                raise restore_failed "SPI operation and chip-select cleanup both failed"
                  (combined_failure_detail f.code c.code)

  unfoldable pub transact : List ℕ → Step W (List ℕ)
  transact tx = do
    modify_operation frame_started
    uncertain ← gets (λ s. s.driver.chip_select_uncertain)
    when uncertain synchronize_chip_select
    primary ← attempt (open_session >> transfer_in_session tx)
    cleanup ← attempt close_session
    modify note_frame
    frame_result primary cleanup
