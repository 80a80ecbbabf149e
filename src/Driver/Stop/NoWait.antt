-- ===== src/Driver/Stop/NoWait.antt =====
-- A stop without a timeout ends after its few passes.
use max.Prelude.{
  ℕ, zero, suc, ◌+◌, ◌-◌, ◌≤◌, ◌<◌, ◌≡◌, refl, Bool, true, false, not, ◌&&◌, ◌==◌, if◌then◌else◌,
  arith,
}
use max.Status.{operation_timeout}
use max.Driver.{Transport, Context}
use max.Driver.Action.{Step, ◌>>=◌, ◌>>◌}
use max.Driver.Action.Moves.{Moves-modify}
use max.Driver.Action.Ends.{Ends-kept, bind-same, unless-same}
use max.Driver.Bus.Rules.{FrameRules, SessionRules, SessionRules-FrameRules}
use max.Driver.Clock.{
  now_ms, sleep_ms, delay_us, unlock_bus, lock_bus, set_chip_select, transfer, read_pin,
  raise_timeout,
}
use max.Driver.Conversions.Rules.{LookRules}
use max.Driver.Stop.{no_wait_stop_pass_limit, stop_pass, stop_loop}
use max.Driver.Stop.Rules.{StopRules, stop_pass-rule}

abbrev IsUntimed : {W : Type 0} → Context W → Type 0
IsUntimed s = s.operation.timeout_ms ≡ 0

-- An operation without a timeout does not get one.
record StaysUntimed {W : Type 0} (s u : Context W) : Type 0 where
  pub kept : IsUntimed s → IsUntimed u

module _ {W : Type 0} (t : Transport W) where
  sessions : SessionRules t StaysUntimed
  unfolding now_ms sleep_ms delay_us unlock_bus lock_bus set_chip_select transfer
  sessions = record {
    clock = record {
      preorder = record {
        same = λ s. record { kept = λ h. h };
        chain = λ s t u p q. record { kept = λ h. q.kept (p.kept h) };
      };
      now = record { at = λ s. record { kept = λ h. h } };
      slept = λ ms. record { at = λ s. record { kept = λ h. h } };
      delayed = λ us. record { at = λ s. record { kept = λ h. h } };
      marked = λ code. Moves-modify _ λ s. record { kept = λ h. ground arith };
    };
    unlocked = record { at = λ s. record { kept = λ h. h } };
    locked = λ ms. record { at = λ s. record { kept = λ h. h } };
    selected = λ on. record { at = λ s. record { kept = λ h. h } };
    transferred = λ tx ms. record { at = λ s. record { kept = λ h. h } };
    started = Moves-modify _ λ s. record { kept = λ h. h };
    applied = Moves-modify _ λ s. record { kept = λ h. h };
    written = Moves-modify _ λ s. record { kept = λ h. h };
    refused = λ code. Moves-modify _ λ s. record { kept = λ h. h };
    session = λ f. Moves-modify _ λ s. record { kept = λ h. h };
    lock_failure = λ code. Moves-modify _ λ s. record { kept = λ h. h };
    transfer_failure = Moves-modify _ λ s. record { kept = λ h. h };
    known = Moves-modify _ λ s. record { kept = λ h. h };
    failed = Moves-modify _ λ s. record { kept = λ h. h };
    horizon = λ now ms. Moves-modify _ λ s. record { kept = λ h. h };
    frame_noted = Moves-modify _ λ s. record { kept = λ h. ground arith };
  }

  frames : FrameRules t StaysUntimed
  frames = SessionRules-FrameRules sessions

  looks : LookRules t StaysUntimed
  unfolding read_pin
  looks = record {
    frames = frames;
    pin = record { at = λ s. record { kept = λ h. h } };
    counted = λ f. Moves-modify _ λ s. record { kept = λ h. h };
    stamped = λ f. Moves-modify _ λ s. record { kept = λ h. h };
    timed = λ now. Moves-modify _ λ s. record { kept = λ h. h };
    halted = Moves-modify _ λ s. record { kept = λ h. h };
    rearmed = λ now ms. Moves-modify _ λ s. record { kept = λ h. h };
  }

  stops : StopRules t StaysUntimed
  stops = record {
    looks = looks;
    unsafe = Moves-modify _ λ s. record { kept = λ h. h };
    fault = Moves-modify _ λ s. record { kept = λ h. h };
    config_byte = λ byte. Moves-modify _ λ s. record { kept = λ h. h };
    disarmed = Moves-modify _ λ s. record { kept = λ h. h };
    certain = Moves-modify _ λ s. record { kept = λ h. h };
    stopped = Moves-modify _ λ s. record { kept = λ h. h };
  }

  -- What follows the test of the loop.
  abbrev round : ℕ → (untimed last : Bool) → ℕ → Step W (Unit {0})
  round fuel untimed last passes =
      if untimed && last
      then raise_timeout operation_timeout
      else stop_pass t >> stop_loop t fuel (if untimed then passes - 1 else passes)

  round-same :
      (m n passes : ℕ) (untimed last : Bool) (u : Context W)
      → untimed ≡ true
      → (passes == 0) ≡ last
      → (1 ≤ passes
          → (v : Context W) → IsUntimed v
          → stop_loop t m (passes - 1) v ≡ stop_loop t n (passes - 1) v)
      → IsUntimed u
      → round m untimed last passes u ≡ round n untimed last passes u
  round-same m n passes true true u e l h p = refl
  round-same m n passes true false u e l h p =
      bind-same (λ _ _. Unit {0}) (λ _. Unit {0}) (stop_pass t) _ _
        (Ends-kept IsUntimed _ (stop_pass-rule stops) (λ s u k p. k.kept p) λ f u p. tt)
        (λ _ v q _. h (ground arith) v q) u p tt
  round-same m n passes false last u e l h p = ground arith

  loop-same :
      (m n passes : ℕ) (s : Context W)
      → passes + 1 ≤ m
      → passes + 1 ≤ n
      → IsUntimed s
      → stop_loop t m passes s ≡ stop_loop t n passes s
  unfolding stop_loop ◌>>=◌
  loop-same zero n passes s hm hn p = absurd (omega arith)
  loop-same (suc m) zero passes s hm hn p = absurd (omega arith)
  loop-same (suc m) (suc n) passes s hm hn p =
      unless-same (λ _. Unit {0}) _ _ _ (not s.driver.conversion.one_shot_armed) s
        (λ _.
          round-same m n passes (s.operation.timeout_ms == 0) (passes == 0) s (untimed p) refl
            (λ k v q. loop-same m n (passes - 1) v (omega arith) (omega arith) q) p)
        tt
    where
      untimed : {x : ℕ} → x ≡ 0 → (x == 0) ≡ true
      untimed h = ground arith

-- Without a timeout, a stop's loop makes at most its two passes and then reports a timeout: more
-- fuel than these does not change it, whatever the clock and the device do.
pub stop_loop-no_wait :
    {W : Type 0} (t : Transport W) (m n : ℕ) (s : Context W)
    → s.operation.timeout_ms ≡ 0
    → no_wait_stop_pass_limit < m
    → no_wait_stop_pass_limit < n
    → stop_loop t m no_wait_stop_pass_limit s ≡ stop_loop t n no_wait_stop_pass_limit s
stop_loop-no_wait t m n s p hm hn =
    loop-same t m n no_wait_stop_pass_limit s (omega arith) (omega arith) p
