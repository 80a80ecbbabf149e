-- ===== src/Driver/Conversions/Fuel.antt =====
-- The wait for a conversion ends within its fuel.
use max.Prelude.{ℕ, zero, suc, ◌+◌, ◌≤◌, ◌<◌, ◌≡◌, refl, sym, ◌==◌, arith}
use max.Driver.{Transport, Context}
use max.Driver.Action.{◌>>=◌}
use max.Driver.Action.Moves.{Moves-modify}
use max.Driver.Action.Ends.{
  Ends, Ends-bind, Ends-from, Ends-gets, Ends-if, Ends-kept, Ends-lift, Ends-modify, bind-same,
  unless-same,
}
use max.Driver.Clock.{read_pin}
use max.Driver.Conversions.{data_ready_internal, await_next, wait_ready, wait_for_ready_internal}
use max.Driver.Conversions.Rules.{LookRules, data_ready_internal-rule, wait_ready-rule}
use max.Driver.Deadline.{
  IsClock, IsAt, le_lt_trans, Passes, Passes-IsAt, Passes-frames, now-IsAt, left_over,
}
use max.Driver.Deadline.Sleep.{sleep-Ends}

module _ {W : Type 0} (t : Transport W) (start : ℕ) (since : W → ℕ)
    (clock : IsClock t start since) where
  Passes-looks : LookRules t (Passes since)
  unfolding read_pin
  Passes-looks = record {
    frames = Passes-frames t start since clock;
    pin = record { at = λ s. record { start = refl; timeout = refl; later = clock.pin s.world } };
    counted = λ f. Moves-modify _ λ s. ground arith;
    stamped = λ f. Moves-modify _ λ s. ground arith;
    timed = λ now. Moves-modify _ λ s. ground arith;
    halted = Moves-modify _ λ s. ground arith;
    rearmed = λ now ms. Moves-modify _ λ s. ground arith;
  }

  abbrev InTime : Context W → Type 0
  InTime u = since u.world < 4294967296

  -- The loop ends no earlier than it starts.
  before_end : (n : ℕ) (v : Context W) → InTime (wait_ready t n v).1 → InTime v
  before_end n v h = le_lt_trans ((wait_ready-rule Passes-looks n).at v).later h

  module _ (timeout : ℕ) where
    -- A round of waiting fails for want of a timeout, or sleeps a millisecond.
    await-Ends :
        (k : ℕ)
        → Ends
            (IsAt since start timeout k)
            (await_next t)
            (λ _ u. IsAt since start timeout (k + 1) u × (InTime u → since u.world < timeout))
            (λ _ _. Unit {0})
    unfolding await_next
    await-Ends k = Ends-gets _ _ λ o.
        Ends-if (o.timeout_ms == 0) _ _
          (λ _.
            Ends-bind (λ _ _. Unit {0}) _ _ (Ends-modify _ λ s p. tt) λ _. Ends-lift _ λ s p. tt)
          λ _. Ends-from (λ s p. p.0) (sleep-Ends t start since clock timeout k _)

    fuel-same :
        (m n k : ℕ) (s : Context W)
        → timeout + 1 ≤ k + m
        → timeout + 1 ≤ k + n
        → 0 < m
        → 0 < n
        → IsAt since start timeout k s
        → since (wait_ready t n s).1.world < 4294967296
        → wait_ready t m s ≡ wait_ready t n s
    unfolding wait_ready
    fuel-same zero n k s hm hn zm zn p x = absurd (omega arith)
    fuel-same (suc m) zero k s hm hn zm zn p x = absurd (omega arith)
    fuel-same (suc m) (suc n) k s hm hn zm zn p x =
        bind-same (λ _ _. Unit {0}) InTime (data_ready_internal t) _ _
          (Ends-kept (IsAt since start timeout k) _ (data_ready_internal-rule Passes-looks)
            (Passes-IsAt since start timeout k) λ f u h. tt)
          (λ ready u q. unless-same InTime _ _ _ ready u (
            bind-same (λ _ _. Unit {0}) InTime (await_next t) _ _ (await-Ends k)
              (λ _ v h y.
                let w = before_end n v y in
                let late = h.0.late w in
                fuel-same m n (k + 1) v (left_over k hm late (h.1 w)).0
                  (left_over k hn late (h.1 w)).0 (left_over k hm late (h.1 w)).1
                  (left_over k hn late (h.1 w)).1 h.0 y)
              u q))
          s p x

-- With a clock that shows the time since the start modulo 2^32 and that no callback turns back, if
-- the wait for a conversion ends before the clock has come round, it is the loop on any fuel above the
-- timeout's milliseconds: its loop ends by itself, and not for want of fuel.
pub wait_for_ready_internal-terminates :
    {W : Type 0} (t : Transport W) (since : W → ℕ) (fuel : ℕ) (s : Context W)
    → IsClock t s.operation.start_ms since
    → s.operation.timeout_ms + 1 ≤ fuel
    → since (wait_for_ready_internal t s).1.world < 4294967296
    → wait_for_ready_internal t s ≡ wait_ready t fuel s
unfolding wait_for_ready_internal ◌>>=◌
wait_for_ready_internal-terminates t since fuel s clock h x = sym (
    fuel-same t s.operation.start_ms since clock s.operation.timeout_ms fuel
      (s.operation.timeout_ms + 1) 0 s (omega arith) (omega arith) (omega arith) (omega arith)
      (now-IsAt since s) x)
