-- ===== src/Driver/Bus/Locks/Guard.antt =====
-- With a lock callback, a frame drives chip select and moves bytes only while the bus is held.
use max.Prelude.{ℕ, ◌<◌, ◌≡◌, refl, ◌∙◌, Bool, true, List, arith}
use max.Status.{Result}
use max.Driver.{Transport, Driver, Context, Operation, Counters}
use max.Driver.Action.{modify, modify_counters, modify_session, modify_driver, modify_operation}
use max.Driver.Action.Moves.{IsPreorder, Moves, Moves-modify}
use max.Driver.Clock.{now_ms, sleep_ms, delay_us, set_chip_select, transfer}
use max.Driver.Bus.{
  note_frame, restart, deasserted, deassert_failed, deassert_first, asserted, assert_failed, select,
  transfer_in_session, frame_closed, frame_open, close_frame, frame_result,
}
use max.Driver.Clock.Rules.{ClockRules, waiting_rules}
use max.Driver.Bus.Locks.{LockLaws}

-- What `unguarded` counts: the calls of chip select and of the transfer without the bus. No other
-- callback moves it, nor do these two while a lock is held.
pub record GuardLaws {W : Type 0} (t : Transport W) (held unguarded : W → ℕ) : Type 0 where
  pub selects :
      (on : Bool) (w : W) → 0 < held w → unguarded (t.set_chip_select on w).1 ≡ unguarded w
  pub bytes :
      (tx : List ℕ) (ms : ℕ) (w : W) → 0 < held w → unguarded (t.transfer tx ms w).2 ≡ unguarded w
  pub lock : (ms : ℕ) (w : W) → unguarded (t.lock_bus ms w).1 ≡ unguarded w
  pub unlock : (w : W) → unguarded (t.unlock_bus w) ≡ unguarded w
  pub pin : (w : W) → unguarded (t.read_pin w).2 ≡ unguarded w
  pub clock : (w : W) → unguarded (t.now_ms w).1 ≡ unguarded w
  pub micros : (w : W) → unguarded (t.now_us w).1 ≡ unguarded w
  pub sleep : (ms : ℕ) (w : W) → unguarded (t.sleep_ms ms w) ≡ unguarded w
  pub delay : (us : ℕ) (w : W) → unguarded (t.delay_us us w) ≡ unguarded w

-- No call was unguarded.
pub record Clean {W : Type 0} (unguarded : W → ℕ) (s u : Context W) : Type 0 where
  pub clean : unguarded u.world ≡ unguarded s.world

pub Clean-preorder : {W : Type 0} {unguarded : W → ℕ} → IsPreorder (Clean unguarded)
Clean-preorder = record {
  same = λ s. record { clean = refl };
  chain = λ s v u p q. record { clean = q.clean ∙ p.clean };
}

-- Neither was any, nor was a lock taken or given back, nor the session's flag moved.
pub record Plain {W : Type 0} (held unguarded : W → ℕ) (s u : Context W) : Type 0 where
  pub same : held u.world ≡ held s.world
  pub clean : unguarded u.world ≡ unguarded s.world
  pub flag : u.session.selected ≡ s.session.selected

-- The same of a step that holds the bus, the flag aside.
pub record Covered {W : Type 0} (held unguarded : W → ℕ) (s u : Context W) : Type 0 where
  pub both :
      0 < held s.world → (held u.world ≡ held s.world) × (unguarded u.world ≡ unguarded s.world)

abbrev pub IsClean : {W : Type 0} → (W → ℕ) → ℕ → Context W → Type 0
IsClean unguarded g s = unguarded s.world ≡ g

abbrev pub IsInside : {W : Type 0} → (held unguarded : W → ℕ) → ℕ → Context W → Type 0
IsInside held unguarded g s = IsClean unguarded g s × (0 < held s.world)

-- Inside a session the bus is held wherever chip select may be low.
abbrev pub IsFramed : {W : Type 0} → (held unguarded : W → ℕ) → ℕ → Context W → Type 0
IsFramed held unguarded g s = IsClean unguarded g s × (s.session.selected ≡ true → 0 < held s.world)

abbrev pub IsFlagged : {W : Type 0} → (W → ℕ) → Bool → ℕ → Context W → Type 0
IsFlagged unguarded flag g s = IsClean unguarded g s × (s.session.selected ≡ flag)

module _ {W : Type 0} {held unguarded : W → ℕ} where
  pub Plain-preorder : IsPreorder (Plain held unguarded)
  Plain-preorder = record {
    same = λ s. record { same = refl; clean = refl; flag = refl };
    chain = λ s v u p q. record {
      same = q.same ∙ p.same;
      clean = q.clean ∙ p.clean;
      flag = q.flag ∙ p.flag;
    };
  }

  pub Covered-preorder : IsPreorder (Covered held unguarded)
  Covered-preorder = record {
    same = λ s. record { both = λ h. (refl, refl) };
    chain = λ s v u p q. record { both = λ h. joined s v u p q h (p.both h) };
  }
    where
      joined :
          (s v u : Context W)
          → Covered held unguarded s v
          → Covered held unguarded v u
          → 0 < held s.world
          → (held v.world ≡ held s.world) × (unguarded v.world ≡ unguarded s.world)
          → (held u.world ≡ held s.world) × (unguarded u.world ≡ unguarded s.world)
      joined s v u p q h a = let b = q.both (rw (a.0) h) in (b.0 ∙ a.0, b.1 ∙ a.1)

  operation-Covered :
      (f : Operation → Operation) → Moves (Covered held unguarded) (modify_operation f)
  operation-Covered f = Moves-modify _ λ s. record { both = λ h. (refl, refl) }

  driver-Covered : (f : Driver → Driver) → Moves (Covered held unguarded) (modify_driver f)
  driver-Covered f = Moves-modify _ λ s. record { both = λ h. (refl, refl) }

  selected-Covered :
      (b : Bool) → Moves (Covered held unguarded) (modify_session (λ x. record x { selected = b }))
  selected-Covered b = Moves-modify _ λ s. record { both = λ h. (refl, refl) }

  pub counters-Plain : (f : Counters → Counters) → Moves (Plain held unguarded) (modify_counters f)
  counters-Plain f = Moves-modify _ λ s. record { same = refl; clean = refl; flag = refl }

  pub note_frame-Plain : Moves (Plain held unguarded) (modify note_frame)
  note_frame-Plain = Moves-modify _ λ s. ground arith

module _ {W : Type 0} (t : Transport W) {held unguarded : W → ℕ} (laws : LockLaws t held)
    (guards : GuardLaws t held unguarded) where
  pub Plain-clock : ClockRules t (Plain held unguarded)
  unfolding now_ms sleep_ms delay_us
  Plain-clock = record {
    preorder = Plain-preorder;
    now = record {
      at = λ s. record { same = laws.clock s.world; clean = guards.clock s.world; flag = refl };
    };
    slept = λ ms. record {
      at = λ s. record {
        same = laws.sleep ms s.world;
        clean = guards.sleep ms s.world;
        flag = refl;
      };
    };
    delayed = λ us. record {
      at = λ s. record {
        same = laws.delay us s.world;
        clean = guards.delay us s.world;
        flag = refl;
      };
    };
    marked = λ code. Moves-modify _ λ s. record { same = refl; clean = refl; flag = refl };
  }

  pub Covered-clock : ClockRules t (Covered held unguarded)
  unfolding now_ms sleep_ms delay_us
  Covered-clock = record {
    preorder = Covered-preorder;
    now = record { at = λ s. record { both = λ h. (laws.clock s.world, guards.clock s.world) } };
    slept = λ ms. record {
      at = λ s. record { both = λ h. (laws.sleep ms s.world, guards.sleep ms s.world) };
    };
    delayed = λ us. record {
      at = λ s. record { both = λ h. (laws.delay us s.world, guards.delay us s.world) };
    };
    marked = λ code. operation-Covered _;
  }

  select_call-Covered : (on : Bool) → Moves (Covered held unguarded) (set_chip_select t on)
  unfolding set_chip_select
  select_call-Covered on = record {
    at = λ s. record { both = λ h. (laws.selects on s.world, guards.selects on s.world h) };
  }

  transfer-Covered : (tx : List ℕ) (ms : ℕ) → Moves (Covered held unguarded) (transfer t tx ms)
  unfolding transfer
  transfer-Covered tx ms = record {
    at = λ s. record { both = λ h. (laws.bytes tx ms s.world, guards.bytes tx ms s.world h) };
  }

ruleset covered_rules = (
  waiting_rules, Covered-preorder, Covered-clock, operation-Covered, driver-Covered,
  selected-Covered, select_call-Covered, transfer-Covered,
)

module _ {W : Type 0} (t : Transport W) {held unguarded : W → ℕ} (laws : LockLaws t held)
    (guards : GuardLaws t held unguarded) where
  restart-Covered : (d : Driver) → Moves (Covered held unguarded) (restart t d)
  unfolding restart
  restart-Covered d = search covered_rules depth 20

  pub deassert_first-Covered : (b : Bool) → Moves (Covered held unguarded) (deassert_first t b)
  unfolding deassert_first deasserted deassert_failed
  deassert_first-Covered b = search (covered_rules, restart-Covered) depth 20

  pub select-Covered : Moves (Covered held unguarded) (select t)
  unfolding select asserted assert_failed
  select-Covered = search covered_rules depth 24

  pub transfer_in_session-Covered :
      (tx : List ℕ) → Moves (Covered held unguarded) (transfer_in_session t tx)
  unfolding transfer_in_session
  transfer_in_session-Covered tx = search covered_rules depth 24

  pub close_frame-Covered : Moves (Covered held unguarded) (close_frame t)
  unfolding close_frame frame_closed frame_open
  close_frame-Covered = search covered_rules depth 24

  pub frame_result-Plain :
      (r : Result (List ℕ)) (c : Result (Unit {0}))
      → Moves (Plain held unguarded) (frame_result t r c)
  unfolding frame_result
  frame_result-Plain r c = search (waiting_rules, Plain-preorder, Plain-clock) depth 24
