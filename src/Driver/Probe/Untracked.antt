-- ===== src/Driver/Probe/Untracked.antt =====
-- What a probe may change of the driver.
use max.Prelude.{ℕ, ◌≡◌, refl, ap, ◌∙◌, ◌⊎◌, inl, inr, false, arith}
use max.Status.{State, fault}
use max.Prelude.{Bool}
use max.Driver.{Transport, Context, Counters, no_counters}
use max.Driver.Action.{◌>>=◌, modify_driver}
use max.Driver.Action.Moves.{IsPreorder, Moves, Moves-modify, moves_rules}
use max.Driver.Bus.{faulted}
use max.Driver.Bus.Rules.{FrameRules, WorldRules, WorldRules-FrameRules}
use max.Driver.Access.Rules.{read_registers_internal-rule, read_persistent_image-rule}
use max.Driver.Clock.{now_ms}
use max.Driver.Requests.{make_operation}
use max.Driver.Probe.{restore_counters, read_device, read_untracked, probe}

-- The counters without the four that the transport's failures move.
abbrev masked : Counters → Counters
masked = restore_counters no_counters

-- Two moves that keep the lifecycle, or drop it to a fault with nothing known, make one.
chained :
    {a b c : State} {k l m : Bool}
    → ((b ≡ a) × (l ≡ k)) ⊎ ((b ≡ fault) × (l ≡ false))
    → ((c ≡ b) × (m ≡ l)) ⊎ ((c ≡ fault) × (m ≡ false))
    → ((c ≡ a) × (m ≡ k)) ⊎ ((c ≡ fault) × (m ≡ false))
chained (inl p) (inl q) = inl (q.0 ∙ p.0, q.1 ∙ p.1)
chained (inr p) (inl q) = inr (q.0 ∙ p.0, q.1 ∙ p.1)
chained p (inr q) = inr q

-- No bookkeeping of an operation has moved, the four counters aside.
record IsUnmoved {W : Type 0} (s u : Context W) : Type 0 where
  pub desired : u.driver.desired ≡ s.driver.desired
  pub last_operation : u.driver.last_operation ≡ s.driver.last_operation
  pub failures : u.driver.consecutive_failures ≡ s.driver.consecutive_failures
  pub threshold : u.driver.offline_threshold ≡ s.driver.offline_threshold
  pub stamps : u.driver.stamps ≡ s.driver.stamps
  pub samples : u.driver.sample_counter ≡ s.driver.sample_counter
  pub counters : masked u.driver.counters ≡ masked s.driver.counters
  pub lifecycle :
      ((u.driver.state ≡ s.driver.state)
        × (u.driver.configuration_known ≡ s.driver.configuration_known))
      ⊎ ((u.driver.state ≡ fault) × (u.driver.configuration_known ≡ false))

still : {W : Type 0} (s : Context W) → IsUnmoved s s
still s = record {
  desired = refl;
  last_operation = refl;
  failures = refl;
  threshold = refl;
  stamps = refl;
  samples = refl;
  counters = refl;
  lifecycle = inl (refl, refl);
}

module _ {W : Type 0} where
  IsUnmoved-preorder : IsPreorder (IsUnmoved {W = W})
  IsUnmoved-preorder = record {
    same = still;
    chain = λ s t u p q. record {
      desired = q.desired ∙ p.desired;
      last_operation = q.last_operation ∙ p.last_operation;
      failures = q.failures ∙ p.failures;
      threshold = q.threshold ∙ p.threshold;
      stamps = q.stamps ∙ p.stamps;
      samples = q.samples ∙ p.samples;
      counters = q.counters ∙ p.counters;
      lifecycle = chained p.lifecycle q.lifecycle;
    };
  }

  IsUnmoved-rules : WorldRules (IsUnmoved {W = W})
  IsUnmoved-rules = record {
    preorder = IsUnmoved-preorder;
    world = λ w s. ground arith;
    operation = λ f. Moves-modify _ λ s. ground arith;
    session = λ f. Moves-modify _ λ s. ground arith;
    lock_failure = λ code. Moves-modify _ λ s. ground arith;
    transfer_failure = Moves-modify _ λ s. ground arith;
    known = Moves-modify _ λ s. ground arith;
    failed = Moves-modify _ λ s. ground arith;
    horizon = λ now ms. Moves-modify _ λ s. ground arith;
    frame_noted = Moves-modify _ λ s. ground arith;
  }

  IsUnmoved-frames : (t : Transport W) → FrameRules t IsUnmoved
  IsUnmoved-frames t = WorldRules-FrameRules t IsUnmoved-rules

  read_device-IsUnmoved : (t : Transport W) → Moves IsUnmoved (read_device t)
  unfolding read_device
  read_device-IsUnmoved t =
      search
        (
          moves_rules, IsUnmoved-preorder, IsUnmoved-frames, read_persistent_image-rule,
          read_registers_internal-rule,
        )
        depth 12

-- No bookkeeping of an operation has moved, and the lifecycle is kept or dropped.
pub record IsUntracked {W : Type 0} (s u : Context W) : Type 0 where
  pub desired : u.driver.desired ≡ s.driver.desired
  pub last_operation : u.driver.last_operation ≡ s.driver.last_operation
  pub failures : u.driver.consecutive_failures ≡ s.driver.consecutive_failures
  pub threshold : u.driver.offline_threshold ≡ s.driver.offline_threshold
  pub stamps : u.driver.stamps ≡ s.driver.stamps
  pub samples : u.driver.sample_counter ≡ s.driver.sample_counter
  pub counters : u.driver.counters ≡ s.driver.counters
  pub lifecycle :
      ((u.driver.state ≡ s.driver.state)
        × (u.driver.configuration_known ≡ s.driver.configuration_known))
      ⊎ ((u.driver.state ≡ fault) × (u.driver.configuration_known ≡ false))

module _ {W : Type 0} where
  IsUntracked-preorder : IsPreorder (IsUntracked {W = W})
  IsUntracked-preorder = record {
    same = λ s. record {
      desired = refl;
      last_operation = refl;
      failures = refl;
      threshold = refl;
      stamps = refl;
      samples = refl;
      counters = refl;
      lifecycle = inl (refl, refl);
    };
    chain = λ s t u p q. record {
      desired = q.desired ∙ p.desired;
      last_operation = q.last_operation ∙ p.last_operation;
      failures = q.failures ∙ p.failures;
      threshold = q.threshold ∙ p.threshold;
      stamps = q.stamps ∙ p.stamps;
      samples = q.samples ∙ p.samples;
      counters = q.counters ∙ p.counters;
      lifecycle = chained p.lifecycle q.lifecycle;
    };
  }

  faulted-IsUntracked : Moves (IsUntracked {W = W}) (modify_driver faulted)
  faulted-IsUntracked = Moves-modify _ λ s. ground arith

  -- Putting the four counters back makes of one the other.
  restored-IsUntracked :
      (s u : Context W)
      → IsUnmoved s u
      → IsUntracked s (record u {
        driver = record u.driver {
          counters = restore_counters s.driver.counters u.driver.counters;
        };
      })
  restored-IsUntracked s u h = record {
    desired = h.desired;
    last_operation = h.last_operation;
    failures = h.failures;
    threshold = h.threshold;
    stamps = h.stamps;
    samples = h.samples;
    counters = ap (restore_counters s.driver.counters) h.counters;
    lifecycle = h.lifecycle;
  }

module _ {W : Type 0} (t : Transport W) where
  read_untracked-IsUntracked : Moves IsUntracked (read_untracked t)
  unfolding read_untracked ◌>>=◌
  read_untracked-IsUntracked = record {
    at = λ s. restored-IsUntracked s (read_device t s).1 ((read_device-IsUnmoved t).at s);
  }

  make_operation-IsUntracked : (ms : ℕ) → Moves IsUntracked (make_operation t ms)
  unfolding make_operation now_ms ◌>>=◌
  make_operation-IsUntracked ms = record { at = λ s. ground arith }

  -- A probe, whatever becomes of it, leaves the status of the last operation, the run of failures,
  -- the offline threshold, the time stamps, the counters and the desired configuration as they
  -- were; it keeps the lifecycle and whether the configuration is known, or drops them to a fault
  -- with nothing known.
  pub probe-IsUntracked : (timeout_ms : ℕ) → Moves IsUntracked (probe t timeout_ms)
  unfolding probe
  probe-IsUntracked timeout_ms =
      search
        (
          moves_rules, IsUntracked-preorder, faulted-IsUntracked, read_untracked-IsUntracked,
          make_operation-IsUntracked,
        )
        depth 14
