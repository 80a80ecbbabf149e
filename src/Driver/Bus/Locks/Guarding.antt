-- ===== src/Driver/Bus/Locks/Guarding.antt =====
-- The lock at the head of a frame, after which the bus is held.
use max.Prelude.{ℕ, ◌<◌, ◌+◌, ◌≡◌, refl, ◌∙◌, inl, inr, Bool, true, not, arith}
use max.Status.{Failure, err}
use max.Driver.{Transport, Context}
use max.Driver.Action.{Step, pure, lift, modify_counters, ◌>>=◌, ◌>>◌, on_status}
use max.Driver.Action.Moves.{Moves}
use max.Driver.Action.Ends.{Ends, Ends-lift, Ends-kept, Ends-bind, Ends-if, Ends-pure}
use max.Driver.Normalize.{normalize_lock_status}
use max.Driver.Clock.{lock_bus, unlock_bus, check_deadline}
use max.Driver.Bus.{count_lock_failure, try_lock}
use max.Driver.Clock.Rules.{check_deadline-rule, deadline_remaining_ms-rule}
use max.Driver.Bus.Locks.{LockLaws}
use max.Driver.Bus.Locks.Taking.{lock_cases, after_lock}
use max.Driver.Bus.Locks.Guard.{
  GuardLaws, Plain, Covered, IsClean, IsInside, IsFlagged, counters-Plain, Plain-clock,
}

-- After an attempt to lock: it succeeded.
abbrev pub IsTried : {W : Type 0} → (held unguarded : W → ℕ) → ℕ → Bool → Context W → Type 0
IsTried held unguarded g b s = IsInside held unguarded g s × (b ≡ true)

module _ {W : Type 0} (t : Transport W) {held unguarded : W → ℕ} (laws : LockLaws t held)
    (guards : GuardLaws t held unguarded) where
  pub IsClean-Ends :
      {A : Type 0} {m : Step W A} (g : ℕ)
      → Moves (Plain held unguarded) m
      → Ends (IsClean unguarded g) m (λ _. IsClean unguarded g) (λ _. IsClean unguarded g)
  IsClean-Ends {m} g h = Ends-kept _ m h (λ s u r p. r.clean ∙ p) λ f s p. p

  pub IsFlagged-Ends :
      {A : Type 0} {m : Step W A} {flag : Bool} (g : ℕ)
      → Moves (Plain held unguarded) m
      → Ends
          (IsFlagged unguarded flag g)
          m
          (λ _. IsFlagged unguarded flag g)
          (λ _. IsFlagged unguarded flag g)
  IsFlagged-Ends {m} g h = Ends-kept _ m h (λ s u r p. (r.clean ∙ p.0, r.flag ∙ p.1)) λ f s p. p

  pub covered :
      (g : ℕ) (s u : Context W)
      → Covered held unguarded s u
      → IsInside held unguarded g s
      → IsInside held unguarded g u
  covered g s u r p = let h = r.both (p.1) in (h.1 ∙ p.0, rw (h.0) (p.1))

  pub IsInside-Ends :
      {A : Type 0} {m : Step W A} (g : ℕ)
      → Moves (Covered held unguarded) m
      → Ends
          (IsInside held unguarded g)
          m
          (λ _. IsInside held unguarded g)
          (λ _. IsInside held unguarded g)
  IsInside-Ends {m} g h = Ends-kept _ m h (covered g) λ f s p. p

  pub unlock-Ends :
      {E : Failure → Context W → Type 0} (g : ℕ)
      → Ends (IsClean unguarded g) (unlock_bus t) (λ _. IsClean unguarded g) E
  unfolding unlock_bus
  unlock-Ends g = record { at = λ s h. guards.unlock s.world ∙ h }

  pub granted-Ends :
      (flag : Bool) (g : ℕ)
      → Ends
          (IsInside held unguarded g)
          (pure true)
          (IsTried held unguarded g)
          (λ _. IsFlagged unguarded flag g)
  granted-Ends flag g = Ends-pure true λ s h. (h, refl)

  pub refused_lock-Ends :
      (flag : Bool) (g : ℕ) (f : Failure)
      → Ends
          (IsFlagged unguarded flag g)
          (modify_counters (count_lock_failure f.code)
            >> (check_deadline t >> lift {A = Bool} (err f)))
          (IsTried held unguarded g)
          (λ _. IsFlagged unguarded flag g)
  refused_lock-Ends flag g f = Ends-bind _ _ _ (IsFlagged-Ends g (counters-Plain _)) λ _.
      Ends-bind _ _ _ (IsFlagged-Ends g (check_deadline-rule (Plain-clock t laws guards)))
        λ _. Ends-lift (err f) λ s h. h

  pub locking-Ends :
      (flag : Bool) (g remaining : ℕ)
      → Ends
          (IsFlagged unguarded flag g)
          (lock_bus t remaining >>= λ raw.
            on_status
              (normalize_lock_status raw)
              (λ _. pure true)
              λ f. do modify_counters (count_lock_failure f.code); check_deadline t; lift (err f))
          (IsTried held unguarded g)
          (λ _. IsFlagged unguarded flag g)
  unfolding lock_bus ◌>>=◌
  locking-Ends flag g remaining = record {
    at = λ s h. elim (lock_cases (t.lock_bus remaining s.world).0) [
      | inl (e, n) ↦ rw e (
          (granted-Ends flag g).at (after_lock t remaining s)
            (guards.lock remaining s.world ∙ h.0, above _ _ (laws.taken remaining s.world n)))
      | inr (f, k, raw, e) ↦ rw e (
          (refused_lock-Ends flag g k).at (after_lock t remaining s)
            (guards.lock remaining s.world ∙ h.0, h.1))
    ];
  }
    where
      above : (a b : ℕ) → a ≡ b + 1 → 0 < a
      above a b e = omega arith

  module _ (has_lock : t.has_lock_bus ≡ true) where
    -- With a lock callback a lock that does not fail is held.
    pub try_lock-Ends :
        (flag : Bool) (g : ℕ)
        → Ends
            (IsFlagged unguarded flag g)
            (try_lock t)
            (IsTried held unguarded g)
            (λ _. IsFlagged unguarded flag g)
    unfolding try_lock
    try_lock-Ends flag g =
        Ends-if (not t.has_lock_bus) _ _ (λ e. absurd (never t.has_lock_bus has_lock e))
          λ _.
            Ends-bind _ _ _
              (IsFlagged-Ends g (deadline_remaining_ms-rule (Plain-clock t laws guards)))
              λ remaining. locking-Ends flag g remaining
      where
        never : (b : Bool) → b ≡ true → not b ≡ true → ⊥
        never b h e = ground arith
