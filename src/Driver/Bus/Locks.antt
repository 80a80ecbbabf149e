-- ===== src/Driver/Bus/Locks.antt =====
-- What the driver relies on of the bus lock, and the steps that do not touch it.
pub mod Taking
pub mod Frame
pub mod Guard
pub mod Guarding
pub mod Guarded
use max.Prelude.{ℕ, ◌+◌, ◌-◌, ◌≡◌, refl, ◌∙◌, Bool, none, some, List, arith, if◌then◌else◌}
use max.Status.{Failure}
use max.Driver.{Transport, Driver, Context, Operation, Counters, Conversion}
use max.Driver.Action.{
  modify, modify_session, modify_driver, modify_operation, modify_counters, modify_conversion,
}
use max.Driver.Action.Moves.{IsPreorder, Moves, Moves-modify}
use max.Driver.Clock.{now_ms, sleep_ms, delay_us, unlock_bus, lock_bus, set_chip_select, transfer}
use max.Driver.Bus.{note_frame}
use max.Driver.Clock.Rules.{ClockRules, waiting_rules}

-- What the transport documents of the lock, counted by `held`: a lock that succeeds is held once
-- more, one that fails is not, an unlock gives one back, and no other callback touches the lock.
pub record LockLaws {W : Type 0} (t : Transport W) (held : W → ℕ) : Type 0 where
  pub taken : (ms : ℕ) (w : W) → (t.lock_bus ms w).0 ≡ none → held (t.lock_bus ms w).1 ≡ held w + 1
  pub refused :
      (ms : ℕ) (w : W) (f : Failure)
      → (t.lock_bus ms w).0 ≡ some f
      → held (t.lock_bus ms w).1 ≡ held w
  pub given : (w : W) → held (t.unlock_bus w) ≡ held w - 1
  pub selects : (on : Bool) (w : W) → held (t.set_chip_select on w).1 ≡ held w
  pub bytes : (tx : List ℕ) (ms : ℕ) (w : W) → held (t.transfer tx ms w).2 ≡ held w
  pub pin : (w : W) → held (t.read_pin w).2 ≡ held w
  pub clock : (w : W) → held (t.now_ms w).1 ≡ held w
  pub micros : (w : W) → held (t.now_us w).1 ≡ held w
  pub sleep : (ms : ℕ) (w : W) → held (t.sleep_ms ms w) ≡ held w
  pub delay : (us : ℕ) (w : W) → held (t.delay_us us w) ≡ held w

-- As many locks are held after a step as before it.
pub record Balanced {W : Type 0} (held : W → ℕ) (s u : Context W) : Type 0 where
  pub same : held u.world ≡ held s.world

-- The same, and the session's flag stands.
pub record Still {W : Type 0} (held : W → ℕ) (s u : Context W) : Type 0 where
  pub same : held u.world ≡ held s.world
  pub flag : u.session.locked ≡ s.session.locked

abbrev pub Holds : {W : Type 0} → (W → ℕ) → ℕ → Context W → Type 0
Holds held k s = held s.world ≡ k

-- Inside a session, one more lock is held if the session says so.
abbrev pub InSession : {W : Type 0} → (W → ℕ) → ℕ → Context W → Type 0
InSession held k s = held s.world ≡ (if s.session.locked then k + 1 else k)

module _ {W : Type 0} {held : W → ℕ} where
  pub Balanced-preorder : IsPreorder (Balanced held)
  Balanced-preorder = record {
    same = λ s. record { same = refl };
    chain = λ s v u p q. record { same = q.same ∙ p.same };
  }

  pub Still-preorder : IsPreorder (Still held)
  Still-preorder = record {
    same = λ s. record { same = refl; flag = refl };
    chain = λ s v u p q. record { same = q.same ∙ p.same; flag = q.flag ∙ p.flag };
  }

  pub Still-Balanced : (s u : Context W) → Still held s u → Balanced held s u
  Still-Balanced s u h = record { same = h.same }

  pub operation-Still : (f : Operation → Operation) → Moves (Still held) (modify_operation f)
  operation-Still f = Moves-modify _ λ s. record { same = refl; flag = refl }

  pub driver-Still : (f : Driver → Driver) → Moves (Still held) (modify_driver f)
  driver-Still f = Moves-modify _ λ s. record { same = refl; flag = refl }

  pub counters-Still : (f : Counters → Counters) → Moves (Still held) (modify_counters f)
  counters-Still f = Moves-modify _ λ s. record { same = refl; flag = refl }

  pub conversion-Still : (f : Conversion → Conversion) → Moves (Still held) (modify_conversion f)
  conversion-Still f = Moves-modify _ λ s. record { same = refl; flag = refl }

  pub selected-Still :
      (b : Bool) → Moves (Still held) (modify_session (λ x. record x { selected = b }))
  selected-Still b = Moves-modify _ λ s. record { same = refl; flag = refl }

  pub note_frame-Still : Moves (Still held) (modify note_frame)
  note_frame-Still = Moves-modify _ λ s. ground arith

module _ {W : Type 0} (t : Transport W) {held : W → ℕ} (laws : LockLaws t held) where
  pub Still-clock : ClockRules t (Still held)
  unfolding now_ms sleep_ms delay_us
  Still-clock = record {
    preorder = Still-preorder;
    now = record { at = λ s. record { same = laws.clock s.world; flag = refl } };
    slept = λ ms. record { at = λ s. record { same = laws.sleep ms s.world; flag = refl } };
    delayed = λ us. record { at = λ s. record { same = laws.delay us s.world; flag = refl } };
    marked = λ code. operation-Still _;
  }

  pub Balanced-clock : ClockRules t (Balanced held)
  unfolding now_ms sleep_ms delay_us
  Balanced-clock = record {
    preorder = Balanced-preorder;
    now = record { at = λ s. record { same = laws.clock s.world } };
    slept = λ ms. record { at = λ s. record { same = laws.sleep ms s.world } };
    delayed = λ us. record { at = λ s. record { same = laws.delay us s.world } };
    marked = λ code. Moves-modify _ λ s. record { same = refl };
  }

  pub select_call-Still : (on : Bool) → Moves (Still held) (set_chip_select t on)
  unfolding set_chip_select
  select_call-Still on = record { at = λ s. record { same = laws.selects on s.world; flag = refl } }

  pub transfer-Still : (tx : List ℕ) (ms : ℕ) → Moves (Still held) (transfer t tx ms)
  unfolding transfer
  transfer-Still tx ms = record {
    at = λ s. record { same = laws.bytes tx ms s.world; flag = refl };
  }

pub ruleset still_rules = (
  waiting_rules, Still-preorder, Still-clock, operation-Still, driver-Still, counters-Still,
  conversion-Still, selected-Still, note_frame-Still, select_call-Still, transfer-Still,
)
