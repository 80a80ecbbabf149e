-- ===== src/Driver/FaultCycle/Fuel.antt =====
-- The wait for a fault-detection cycle ends within its fuel.
use max.Prelude.{ℕ, zero, suc, ◌+◌, ◌≤◌, ◌<◌, ◌≡◌, sym, bit_and, ◌==◌, arith}
use max.Commands.{config_fault_cycle_mask, config_fault_cycle_none}
use max.Status.{operation_timeout}
use max.Driver.{Transport, Context}
use max.Driver.Action.{◌>>=◌}
use max.Driver.Action.Ends.{Ends-kept, bind-same, unless-same}
use max.Driver.Deadline.{
  IsClock, IsAt, le_lt_trans, now-IsAt, Passes-IsAt, Passes-frames, left_over,
}
use max.Driver.Deadline.Sleep.{sleep-same}
use max.Driver.FaultCycle.{read_config_register, wait_cycle, wait_for_fault_cycle}
use max.Driver.FaultCycle.Rules.{read_config_register-rule, wait_cycle-rule}

module _ {W : Type 0} (t : Transport W) (start : ℕ) (since : W → ℕ) (clock : IsClock t start since)
    (timeout : ℕ) where
  abbrev InTime : Context W → Type 0
  InTime u = since u.world < 4294967296

  -- The loop ends no earlier than it starts.
  before_end : (n : ℕ) (v : Context W) → InTime (wait_cycle t n v).1 → InTime v
  before_end n v h =
      le_lt_trans ((wait_cycle-rule (Passes-frames t start since clock) n).at v).later h

  -- From `k` milliseconds on, a fuel that covers the rest of the timeout is as good as any other.
  fuel-same :
      (m n k : ℕ) (s : Context W)
      → timeout + 1 ≤ k + m
      → timeout + 1 ≤ k + n
      → 0 < m
      → 0 < n
      → IsAt since start timeout k s
      → since (wait_cycle t n s).1.world < 4294967296
      → wait_cycle t m s ≡ wait_cycle t n s
  unfolding wait_cycle
  fuel-same zero n k s hm hn zm zn p x = absurd (omega arith)
  fuel-same (suc m) zero k s hm hn zm zn p x = absurd (omega arith)
  fuel-same (suc m) (suc n) k s hm hn zm zn p x =
      bind-same (λ _ _. Unit {0}) InTime (read_config_register t) _ _
        (Ends-kept (IsAt since start timeout k) _
          (read_config_register-rule (Passes-frames t start since clock))
          (Passes-IsAt since start timeout k) λ f u h. tt)
        (λ config u q.
          unless-same InTime _ _ _
            (bit_and config config_fault_cycle_mask == config_fault_cycle_none) u
            (sleep-same t start since clock timeout k operation_timeout _ _
              (λ v a b y.
                let w = before_end n v y in
                let late = a.late w in
                fuel-same m n (k + 1) v (left_over k hm late (b w)).0 (left_over k hn late (b w)).0
                  (left_over k hm late (b w)).1 (left_over k hn late (b w)).1 a y)
              u q))
        s p x

-- With a clock that shows the time since the start modulo 2^32 and that no callback turns back, if
-- the wait for a fault-detection cycle ends before the clock has come round, it is the loop on any fuel above the
-- timeout's milliseconds: its loop ends by itself, and not for want of fuel.
pub wait_for_fault_cycle-terminates :
    {W : Type 0} (t : Transport W) (since : W → ℕ) (fuel : ℕ) (s : Context W)
    → IsClock t s.operation.start_ms since
    → s.operation.timeout_ms + 1 ≤ fuel
    → since (wait_for_fault_cycle t s).1.world < 4294967296
    → wait_for_fault_cycle t s ≡ wait_cycle t fuel s
unfolding wait_for_fault_cycle ◌>>=◌
wait_for_fault_cycle-terminates t since fuel s clock h x = sym (
    fuel-same t s.operation.start_ms since clock s.operation.timeout_ms fuel
      (s.operation.timeout_ms + 1) 0 s (omega arith) (omega arith) (omega arith) (omega arith)
      (now-IsAt since s) x)
