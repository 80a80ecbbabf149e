-- ===== src/Driver/Bus/Rules.antt =====
-- How the bus keeps a relation between contexts: one rule for each primitive change of a frame
-- gives the relation for the whole frame.
use max.Prelude.{ℕ, Bool, List}
use max.Status.{Error, Result}
use max.Driver.{Transport, Driver, Context, Operation, Session}
use max.Driver.Action.{
  modify, modify_operation, modify_session, modify_counters, modify_driver, modify_conversion,
}
use max.Driver.Action.Moves.{IsPreorder, Moves, moves_rules, Moves-modify}
use max.Driver.Clock.{now_ms, sleep_ms, delay_us, unlock_bus, lock_bus, set_chip_select, transfer}
use max.Driver.Bus.{
  framed, frame_started, transfer_applied, transfer_failed, write_noted, count_lock_failure,
  count_transfer_failure, select_failed, restart_horizon, note_frame, try_lock, restart, deasserted,
  deassert_failed, deassert_first, release, synchronize_chip_select, asserted, assert_failed,
  select, open_session, transfer_in_session, frame_closed, frame_open, close_frame, close_session,
  frame_result, transact,
}
use max.Driver.Clock.Rules.{
  ClockRules, preorder-rule, now-rule, slept-rule, delayed-rule, marked-rule, raise_timeout-rule,
  deadline_expired-rule, deadline_remaining_ms-rule, check_deadline-rule, after_deadline-rule,
  sleep_within_deadline-rule, waiting_rules,
}

-- A relation that the callbacks and the bookkeeping of a frame have, each by itself.
pub record SessionRules {ℓ} {W : Type 0} (t : Transport W) (R : Context W → Context W → Type ℓ)
    : Type ℓ where
  pub clock : ClockRules t R
  pub unlocked : Moves R (unlock_bus t)
  pub locked : (ms : ℕ) → Moves R (lock_bus t ms)
  pub selected : (on : Bool) → Moves R (set_chip_select t on)
  pub transferred : (tx : List ℕ) (ms : ℕ) → Moves R (transfer t tx ms)
  pub started : Moves R (modify_operation frame_started)
  pub applied : Moves R (modify_operation transfer_applied)
  pub written : Moves R (modify_operation write_noted)
  pub refused : (code : Error) → Moves R (modify_operation (transfer_failed code))
  pub session : (f : Session → Session) → Moves R (modify_session f)
  pub lock_failure : (code : Error) → Moves R (modify_counters (count_lock_failure code))
  pub transfer_failure : Moves R (modify_counters count_transfer_failure)
  pub known : Moves R (modify_driver framed)
  pub failed : Moves R (modify_driver select_failed)
  pub horizon : (now ms : ℕ) → Moves R (modify_conversion (restart_horizon now ms))
  pub frame_noted : Moves R (modify note_frame)

-- A relation that frames and synchronisations have as a whole.
pub record FrameRules {ℓ} {W : Type 0} (t : Transport W) (R : Context W → Context W → Type ℓ)
    : Type ℓ where
  pub clock : ClockRules t R
  pub written : Moves R (modify_operation write_noted)
  pub transacted : (tx : List ℕ) → Moves R (transact t tx)
  pub synchronized : Moves R (synchronize_chip_select t)

-- The same for a relation to which the world is all one.
pub record WorldRules {ℓ} {W : Type 0} (R : Context W → Context W → Type ℓ) : Type ℓ where
  pub preorder : IsPreorder R
  pub world : (w : W) (s : Context W) → R s (record s { world = w })
  pub operation : (f : Operation → Operation) → Moves R (modify_operation f)
  pub session : (f : Session → Session) → Moves R (modify_session f)
  pub lock_failure : (code : Error) → Moves R (modify_counters (count_lock_failure code))
  pub transfer_failure : Moves R (modify_counters count_transfer_failure)
  pub known : Moves R (modify_driver framed)
  pub failed : Moves R (modify_driver select_failed)
  pub horizon : (now ms : ℕ) → Moves R (modify_conversion (restart_horizon now ms))
  pub frame_noted : Moves R (modify note_frame)

module _ {ℓ} {W : Type 0} {t : Transport W} {R : Context W → Context W → Type ℓ}
    (rules : SessionRules t R) where
  session_clock-rule : ClockRules t R
  session_clock-rule = rules.clock

  unlocked-rule : Moves R (unlock_bus t)
  unlocked-rule = rules.unlocked

  locked-rule : (ms : ℕ) → Moves R (lock_bus t ms)
  locked-rule = rules.locked

  selected-rule : (on : Bool) → Moves R (set_chip_select t on)
  selected-rule = rules.selected

  transferred-rule : (tx : List ℕ) (ms : ℕ) → Moves R (transfer t tx ms)
  transferred-rule = rules.transferred

  started-rule : Moves R (modify_operation frame_started)
  started-rule = rules.started

  applied-rule : Moves R (modify_operation transfer_applied)
  applied-rule = rules.applied

  refused-rule : (code : Error) → Moves R (modify_operation (transfer_failed code))
  refused-rule = rules.refused

  session-rule : (f : Session → Session) → Moves R (modify_session f)
  session-rule = rules.session

  lock_failure-rule : (code : Error) → Moves R (modify_counters (count_lock_failure code))
  lock_failure-rule = rules.lock_failure

  transfer_failure-rule : Moves R (modify_counters count_transfer_failure)
  transfer_failure-rule = rules.transfer_failure

  known-rule : Moves R (modify_driver framed)
  known-rule = rules.known

  failed-rule : Moves R (modify_driver select_failed)
  failed-rule = rules.failed

  horizon-rule : (now ms : ℕ) → Moves R (modify_conversion (restart_horizon now ms))
  horizon-rule = rules.horizon

  frame_noted-rule : Moves R (modify note_frame)
  frame_noted-rule = rules.frame_noted

ruleset session_rules = (
  waiting_rules, session_clock-rule, unlocked-rule, locked-rule, selected-rule, transferred-rule,
  started-rule, applied-rule, refused-rule, session-rule, lock_failure-rule, transfer_failure-rule,
  known-rule, failed-rule, horizon-rule, frame_noted-rule,
)

module _ {ℓ} {W : Type 0} {t : Transport W} {R : Context W → Context W → Type ℓ}
    (rules : SessionRules t R) where
  try_lock-rule : Moves R (try_lock t)
  unfolding try_lock
  try_lock-rule = search session_rules depth 12

  restart_step-rule : (d : Driver) → Moves R (restart t d)
  unfolding restart
  restart_step-rule d = search session_rules depth 12

  deassert_first-rule : (b : Bool) → Moves R (deassert_first t b)
  unfolding deassert_first deasserted deassert_failed
  deassert_first-rule b = search (session_rules, restart_step-rule) depth 12

  release-rule : (b : Bool) (r : Result (Unit {0})) → Moves R (release t b r)
  unfolding release
  release-rule b r = search session_rules depth 12

  session_synchronize-rule : Moves R (synchronize_chip_select t)
  unfolding synchronize_chip_select
  session_synchronize-rule =
      search (session_rules, try_lock-rule, deassert_first-rule, release-rule) depth 12

  select-rule : Moves R (select t)
  unfolding select asserted assert_failed
  select-rule = search session_rules depth 14

  open_session-rule : Moves R (open_session t)
  unfolding open_session
  open_session-rule = search (session_rules, try_lock-rule, select-rule) depth 12

  transfer_in_session-rule : (tx : List ℕ) → Moves R (transfer_in_session t tx)
  unfolding transfer_in_session
  transfer_in_session-rule tx = search session_rules depth 12

  close_frame-rule : Moves R (close_frame t)
  unfolding close_frame frame_closed frame_open
  close_frame-rule = search session_rules depth 16

  close_session-rule : Moves R (close_session t)
  unfolding close_session
  close_session-rule = search (session_rules, close_frame-rule) depth 12

  frame_result-rule : (r : Result (List ℕ)) (c : Result (Unit {0})) → Moves R (frame_result t r c)
  unfolding frame_result
  frame_result-rule r c = search session_rules depth 12

  -- A frame, whatever becomes of it.
  session_transact-rule : (tx : List ℕ) → Moves R (transact t tx)
  unfolding transact
  session_transact-rule tx =
      search
        (
          session_rules, session_synchronize-rule, open_session-rule, transfer_in_session-rule,
          close_session-rule, frame_result-rule,
        )
        depth 14

  pub SessionRules-FrameRules : FrameRules t R
  SessionRules-FrameRules = record {
    clock = rules.clock;
    written = rules.written;
    transacted = session_transact-rule;
    synchronized = session_synchronize-rule;
  }

module _ {ℓ} {W : Type 0} (t : Transport W) {R : Context W → Context W → Type ℓ}
    (rules : WorldRules R) where
  WorldRules-SessionRules : SessionRules t R
  unfolding now_ms sleep_ms delay_us unlock_bus lock_bus set_chip_select transfer
  WorldRules-SessionRules = record {
    clock = record {
      preorder = rules.preorder;
      now = record { at = λ s. rules.world _ s };
      slept = λ ms. record { at = λ s. rules.world _ s };
      delayed = λ us. record { at = λ s. rules.world _ s };
      marked = λ code. rules.operation _;
    };
    unlocked = record { at = λ s. rules.world _ s };
    locked = λ ms. record { at = λ s. rules.world _ s };
    selected = λ on. record { at = λ s. rules.world _ s };
    transferred = λ tx ms. record { at = λ s. rules.world _ s };
    started = rules.operation _;
    applied = rules.operation _;
    written = rules.operation _;
    refused = λ code. rules.operation _;
    session = rules.session;
    lock_failure = rules.lock_failure;
    transfer_failure = rules.transfer_failure;
    known = rules.known;
    failed = rules.failed;
    horizon = rules.horizon;
    frame_noted = rules.frame_noted;
  }

  pub WorldRules-FrameRules : FrameRules t R
  WorldRules-FrameRules = SessionRules-FrameRules WorldRules-SessionRules

module _ {ℓ} {W : Type 0} {t : Transport W} {R : Context W → Context W → Type ℓ}
    (rules : FrameRules t R) where
  pub frames_clock-rule : ClockRules t R
  frames_clock-rule = rules.clock

  pub written-rule : Moves R (modify_operation write_noted)
  written-rule = rules.written

  -- A frame, whatever becomes of it.
  pub transact-rule : (tx : List ℕ) → Moves R (transact t tx)
  transact-rule = rules.transacted

  pub synchronize-rule : Moves R (synchronize_chip_select t)
  synchronize-rule = rules.synchronized

pub ruleset frame_rules = (
  moves_rules, frames_clock-rule, preorder-rule, now-rule, slept-rule, delayed-rule, marked-rule,
  written-rule, transact-rule,
)

pub ruleset clock_rules = (
  frame_rules, raise_timeout-rule, deadline_expired-rule, deadline_remaining_ms-rule,
  check_deadline-rule, after_deadline-rule,
)
