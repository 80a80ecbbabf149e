-- ===== src/Driver/Bus/Level.antt =====
-- What the driver relies on of the chip-select pin, and the steps that do not touch it.
use max.Prelude.{ℕ, ◌≡◌, refl, ◌∙◌, Bool, none, some, List}
use max.Status.{Error, invalid_state, Failure, Result}
use max.Driver.{Transport, Context, Operation, Counters, Conversion}
use max.Driver.Action.{modify_operation, modify_counters, modify_conversion}
use max.Driver.Action.Moves.{IsPreorder, Moves, moves_rules, Moves-modify, Moves-bind}
use max.Driver.Clock.{
  now_ms, delay_us, unlock_bus, lock_bus, transfer, deadline_expired, deadline_remaining_ms,
  check_deadline, after_deadline, raise_timeout,
}
use max.Driver.Bus.{try_lock, release, transfer_in_session, frame_result}

-- What the transport documents of chip select: a successful call applies the level, a rejected
-- one (`InvalidState`) changes nothing, and no other callback touches the pin. A call that fails
-- otherwise leaves any level.
pub record ChipSelectLaws {W : Type 0} (t : Transport W) (selected : W → Bool) : Type 0 where
  pub applied :
      (on : Bool) (w : W)
      → (t.set_chip_select on w).0 ≡ none
      → selected (t.set_chip_select on w).1 ≡ on
  pub rejected :
      (on : Bool) (w : W) (f : Failure)
      → (t.set_chip_select on w).0 ≡ some f
      → f.code ≡ invalid_state
      → selected (t.set_chip_select on w).1 ≡ selected w
  pub lock : (ms : ℕ) (w : W) → selected (t.lock_bus ms w).1 ≡ selected w
  pub unlock : (w : W) → selected (t.unlock_bus w) ≡ selected w
  pub bytes : (tx : List ℕ) (ms : ℕ) (w : W) → selected (t.transfer tx ms w).2 ≡ selected w
  pub pin : (w : W) → selected (t.read_pin w).2 ≡ selected w
  pub clock : (w : W) → selected (t.now_ms w).1 ≡ selected w
  pub micros : (w : W) → selected (t.now_us w).1 ≡ selected w
  pub sleep : (ms : ℕ) (w : W) → selected (t.sleep_ms ms w) ≡ selected w
  pub delay : (us : ℕ) (w : W) → selected (t.delay_us us w) ≡ selected w

-- Nothing about the pin has changed.
pub record Level {W : Type 0} (selected : W → Bool) (s u : Context W) : Type 0 where
  pub uncertain : u.driver.chip_select_uncertain ≡ s.driver.chip_select_uncertain
  pub flag : u.session.selected ≡ s.session.selected
  pub pin : selected u.world ≡ selected s.world

module _ {W : Type 0} {selected : W → Bool} where
  pub Level-preorder : IsPreorder (Level selected)
  Level-preorder = record {
    same = λ s. record { uncertain = refl; flag = refl; pin = refl };
    chain = λ s v u p q. record {
      uncertain = q.uncertain ∙ p.uncertain;
      flag = q.flag ∙ p.flag;
      pin = q.pin ∙ p.pin;
    };
  }

  pub operation-Level : (f : Operation → Operation) → Moves (Level selected) (modify_operation f)
  operation-Level f = Moves-modify _ λ s. record { uncertain = refl; flag = refl; pin = refl }

  pub counters-Level : (f : Counters → Counters) → Moves (Level selected) (modify_counters f)
  counters-Level f = Moves-modify _ λ s. record { uncertain = refl; flag = refl; pin = refl }

  pub conversion-Level :
      (f : Conversion → Conversion) → Moves (Level selected) (modify_conversion f)
  conversion-Level f = Moves-modify _ λ s. record { uncertain = refl; flag = refl; pin = refl }

  pub raise_timeout-Level :
      {A : Type 0} (code : Error) → Moves (Level selected) (raise_timeout {A = A} code)
  unfolding raise_timeout
  raise_timeout-Level code = search (moves_rules, Level-preorder, operation-Level) depth 8

pub ruleset level_rules = (
  moves_rules, Level-preorder, operation-Level, counters-Level, conversion-Level,
  raise_timeout-Level,
)

module _ {W : Type 0} (t : Transport W) {selected : W → Bool}
    (laws : ChipSelectLaws t selected) where
  pub now_ms-Level : Moves (Level selected) (now_ms t)
  unfolding now_ms
  now_ms-Level = record {
    at = λ s. record { uncertain = refl; flag = refl; pin = laws.clock s.world };
  }

  pub delay_us-Level : (us : ℕ) → Moves (Level selected) (delay_us t us)
  unfolding delay_us
  delay_us-Level us = record {
    at = λ s. record { uncertain = refl; flag = refl; pin = laws.delay us s.world };
  }

  pub lock_bus-Level : (ms : ℕ) → Moves (Level selected) (lock_bus t ms)
  unfolding lock_bus
  lock_bus-Level ms = record {
    at = λ s. record { uncertain = refl; flag = refl; pin = laws.lock ms s.world };
  }

  pub unlock_bus-Level : Moves (Level selected) (unlock_bus t)
  unfolding unlock_bus
  unlock_bus-Level = record {
    at = λ s. record { uncertain = refl; flag = refl; pin = laws.unlock s.world };
  }

  pub transfer-Level : (tx : List ℕ) (ms : ℕ) → Moves (Level selected) (transfer t tx ms)
  unfolding transfer
  transfer-Level tx ms = record {
    at = λ s. record { uncertain = refl; flag = refl; pin = laws.bytes tx ms s.world };
  }

  pub deadline_expired-Level : Moves (Level selected) (deadline_expired t)
  unfolding deadline_expired
  deadline_expired-Level = search (level_rules, now_ms-Level) depth 8

  pub deadline_remaining_ms-Level : Moves (Level selected) (deadline_remaining_ms t)
  unfolding deadline_remaining_ms
  deadline_remaining_ms-Level = search (level_rules, now_ms-Level) depth 8

  pub check_deadline-Level : Moves (Level selected) (check_deadline t)
  unfolding check_deadline
  check_deadline-Level = search (level_rules, deadline_expired-Level) depth 8

  pub after_deadline-Level :
      {A : Type 0} (r : Result A) → Moves (Level selected) (after_deadline t r)
  unfolding after_deadline
  after_deadline-Level r = search (level_rules, deadline_expired-Level) depth 10

  pub try_lock-Level : Moves (Level selected) (try_lock t)
  unfolding try_lock
  try_lock-Level =
      search (level_rules, deadline_remaining_ms-Level, lock_bus-Level, check_deadline-Level) depth
        12

  pub transfer_in_session-Level : (tx : List ℕ) → Moves (Level selected) (transfer_in_session t tx)
  unfolding transfer_in_session
  transfer_in_session-Level tx =
      search (level_rules, deadline_remaining_ms-Level, transfer-Level, check_deadline-Level) depth
        16

  pub frame_result-Level :
      (r : Result (List ℕ)) (c : Result (Unit {0})) → Moves (Level selected) (frame_result t r c)
  unfolding frame_result
  frame_result-Level r c = search (level_rules, check_deadline-Level) depth 12

  pub release-Level : (b : Bool) (r : Result (Unit {0})) → Moves (Level selected) (release t b r)
  unfolding release
  release-Level b r = search (level_rules, unlock_bus-Level, after_deadline-Level) depth 8
