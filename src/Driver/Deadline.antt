-- ===== src/Driver/Deadline.antt =====
-- A clock that keeps its promise.
pub mod Sleep
use max.Prelude.{
  ℕ, suc, ◌+◌, ◌%◌, ◌≤◌, ◌<◌, ◌≡◌, refl, ◌∙◌, Bool, false, List, ltb, u32, sub32, arith,
}
use max.Driver.{Transport, Context}
use max.Driver.Action.Moves.{IsPreorder, Moves-modify}
use max.Driver.Bus.Rules.{FrameRules, SessionRules, SessionRules-FrameRules}
use max.Driver.Clock.{now_ms, sleep_ms, delay_us, unlock_bus, lock_bus, set_chip_select, transfer}

-- `since` is the time in milliseconds since an operation started at the reading `start`: a
-- reading of the clock shows it modulo 2^32, and no callback turns it back.
pub record IsClock {W : Type 0} (t : Transport W) (start : ℕ) (since : W → ℕ) : Type 0 where
  pub word : start < 4294967296
  pub shown : (w : W) → sub32 (u32 (t.now_ms w).0) start ≡ since (t.now_ms w).1 % 4294967296
  pub now : (w : W) → since w ≤ since (t.now_ms w).1
  pub slept : (ms : ℕ) (w : W) → since w ≤ since (t.sleep_ms ms w)
  pub delayed : (us : ℕ) (w : W) → since w ≤ since (t.delay_us us w)
  pub unlocked : (w : W) → since w ≤ since (t.unlock_bus w)
  pub locked : (ms : ℕ) (w : W) → since w ≤ since (t.lock_bus ms w).1
  pub selected : (on : Bool) (w : W) → since w ≤ since (t.set_chip_select on w).1
  pub transferred : (tx : List ℕ) (ms : ℕ) (w : W) → since w ≤ since (t.transfer tx ms w).2
  pub pin : (w : W) → since w ≤ since (t.read_pin w).2

-- The operation's clock is the same, and time has not turned back.
pub record Passes {W : Type 0} (since : W → ℕ) (s u : Context W) : Type 0 where
  pub start : u.operation.start_ms ≡ s.operation.start_ms
  pub timeout : u.operation.timeout_ms ≡ s.operation.timeout_ms
  pub later : since s.world ≤ since u.world

-- An operation from `start` with a timeout, at `k` milliseconds or later, as far as the clock has
-- not come round.
pub record IsAt {W : Type 0} (since : W → ℕ) (start timeout k : ℕ) (s : Context W) : Type 0 where
  pub starts : s.operation.start_ms ≡ start
  pub times_out : s.operation.timeout_ms ≡ timeout
  pub late : since s.world < 4294967296 → k ≤ since s.world

le_trans : {a b c : ℕ} → a ≤ b → b ≤ c → a ≤ c
le_trans h k = omega arith

pub le_lt_trans : {a b c : ℕ} → a ≤ b → b < c → a < c
le_lt_trans h k = omega arith

suc_trans : {a b c : ℕ} → a ≤ b → b + 1 ≤ c → a + 1 ≤ c
suc_trans h k = omega arith

module _ {W : Type 0} (since : W → ℕ) where
  pub Passes-preorder : IsPreorder (Passes since)
  Passes-preorder = record {
    same = λ s. record { start = refl; timeout = refl; later = omega arith };
    chain = λ s t u p q. record {
      start = q.start ∙ p.start;
      timeout = q.timeout ∙ p.timeout;
      later = le_trans p.later q.later;
    };
  }

  world :
      (s : Context W) (w : W) → since s.world ≤ since w → Passes since s (record s { world = w })
  world s w h = record { start = refl; timeout = refl; later = h }

  still :
      (s u : Context W)
      → u.operation.start_ms ≡ s.operation.start_ms
      → u.operation.timeout_ms ≡ s.operation.timeout_ms
      → u.world ≡ s.world
      → Passes since s u
  still s u h k e = record { start = h; timeout = k; later = rw (e) omega arith }

  pub Passes-IsAt :
      (start timeout k : ℕ) (s u : Context W)
      → Passes since s u
      → IsAt since start timeout k s
      → IsAt since start timeout k u
  Passes-IsAt start timeout k s u p h = record {
    starts = p.start ∙ h.starts;
    times_out = p.timeout ∙ h.times_out;
    late = λ w. le_trans (h.late (le_lt_trans p.later w)) p.later;
  }

-- The readings `x` and then `y` of a clock that shows `b` and then `a`.
advanced :
    (start x y a b : ℕ)
    → start < 4294967296
    → x < 4294967296
    → y < 4294967296
    → sub32 x start ≡ b
    → sub32 y start ≡ a
    → b ≤ a
    → ltb (sub32 y x) 1 ≡ false
    → b + 1 ≤ a
advanced start x y a b w hx hy hb ha h k = ground arith

module _ {W : Type 0} (t : Transport W) (start : ℕ) (since : W → ℕ)
    (clock : IsClock t start since) where
  sessions : SessionRules t (Passes since)
  unfolding now_ms sleep_ms delay_us unlock_bus lock_bus set_chip_select transfer
  sessions = record {
    clock = record {
      preorder = Passes-preorder since;
      now = record { at = λ s. world since s _ (clock.now s.world) };
      slept = λ ms. record { at = λ s. world since s _ (clock.slept ms s.world) };
      delayed = λ us. record { at = λ s. world since s _ (clock.delayed us s.world) };
      marked = λ code. Moves-modify _ λ s. ground arith;
    };
    unlocked = record { at = λ s. world since s _ (clock.unlocked s.world) };
    locked = λ ms. record { at = λ s. world since s _ (clock.locked ms s.world) };
    selected = λ on. record { at = λ s. world since s _ (clock.selected on s.world) };
    transferred = λ tx ms. record { at = λ s. world since s _ (clock.transferred tx ms s.world) };
    started = Moves-modify _ λ s. ground arith;
    applied = Moves-modify _ λ s. ground arith;
    written = Moves-modify _ λ s. ground arith;
    refused = λ code. Moves-modify _ λ s. ground arith;
    session = λ f. Moves-modify _ λ s. ground arith;
    lock_failure = λ code. Moves-modify _ λ s. ground arith;
    transfer_failure = Moves-modify _ λ s. ground arith;
    known = Moves-modify _ λ s. ground arith;
    failed = Moves-modify _ λ s. ground arith;
    horizon = λ now ms. Moves-modify _ λ s. ground arith;
    frame_noted = Moves-modify _ λ s. ground arith;
  }

  pub Passes-frames : FrameRules t (Passes since)
  Passes-frames = SessionRules-FrameRules sessions

-- A round that another one follows has fuel left.
pub left_over :
    {timeout f x : ℕ} (k : ℕ)
    → timeout + 1 ≤ k + suc f
    → k + 1 ≤ x
    → x < timeout
    → (timeout + 1 ≤ k + 1 + f) × (0 < f)
left_over k h l b = (omega arith, omega arith)

pub now-IsAt :
    {W : Type 0} (since : W → ℕ) (s : Context W)
    → IsAt since s.operation.start_ms s.operation.timeout_ms 0 s
now-IsAt since s = record { starts = refl; times_out = refl; late = λ w. omega arith }
