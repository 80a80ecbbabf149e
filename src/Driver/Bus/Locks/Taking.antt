-- ===== src/Driver/Bus/Locks/Taking.antt =====
-- The lock at the head of a frame, and the steps of the frame that leave it alone.
use max.Prelude.{
  ℕ, ◌+◌, ◌-◌, ◌≡◌, refl, ◌∙◌, ap, ◌⊎◌, inl, inr, Bool, true, false, none, some, Option, List,
  arith, if◌then◌else◌,
}
use max.Status.{Failure, Result, ok, err}
use max.Driver.{Transport, Driver, Context}
use max.Driver.Action.{Step, pure, lift, attempt, modify_counters, ◌>>=◌, ◌>>◌, on_status}
use max.Driver.Action.Moves.{Moves}
use max.Driver.Action.Ends.{
  Ends, Ends-lift, Ends-attempt_kept, Ends-kept, Ends-bind, Ends-if, Ends-pure,
}
use max.Driver.Normalize.{normalize_lock_status}
use max.Driver.Normalize.Roles.{normalize_lock_status-InRole}
use max.Driver.Clock.{lock_bus, unlock_bus, check_deadline}
use max.Driver.Bus.{
  count_lock_failure, try_lock, restart, deasserted, deassert_failed, deassert_first, asserted,
  assert_failed, select, transfer_in_session, frame_closed, frame_open, close_frame, frame_result,
}
use max.Driver.Clock.Rules.{check_deadline-rule, deadline_remaining_ms-rule}
use max.Driver.Bus.Locks.{
  LockLaws, Still, Holds, InSession, counters-Still, Still-clock, still_rules,
}

-- The count of locks, and the session's flag.
abbrev pub Flagged : {W : Type 0} → (W → ℕ) → Bool → ℕ → Context W → Type 0
Flagged held flag k s = (held s.world ≡ k) × (s.session.locked ≡ flag)

-- After an attempt to lock.
abbrev pub Tried : {W : Type 0} → (W → ℕ) → Bool → ℕ → Bool → Context W → Type 0
Tried held flag k b s = Flagged held flag (if b then k + 1 else k) s

-- The context right after a call of the lock.
abbrev pub after_lock : {W : Type 0} → Transport W → ℕ → Context W → Context W
after_lock t ms s = record s { world = (t.lock_bus ms s.world).1 }

-- The two outcomes of a call of the lock once its status is normalised.
pub lock_cases :
    (raw : Option Failure)
    → ((normalize_lock_status raw ≡ ok tt) × (raw ≡ none))
      ⊎ ((f : Failure) × (g : Failure) × (raw ≡ some f) × (normalize_lock_status raw ≡ err g))
unfolding normalize_lock_status
lock_cases none = inl (refl, refl)
lock_cases (some f) =
    let r = normalize_lock_status-InRole f in inr (f, r.failure, refl, r.is_failure)

module _ {W : Type 0} (t : Transport W) {held : W → ℕ} (laws : LockLaws t held) where
  -- A step that leaves the lock and the session's flag.
  pub Holds-Ends :
      {A : Type 0} {m : Step W A} (k : ℕ)
      → Moves (Still held) m
      → Ends (Holds held k) m (λ _. Holds held k) (λ _. Holds held k)
  Holds-Ends {m} k h = Ends-kept _ m h (λ s u r p. r.same ∙ p) λ f s p. p

  pub attempted-Ends :
      {A : Type 0} {m : Step W A} {E : Failure → Context W → Type 0} (k : ℕ)
      → Moves (Still held) m
      → Ends (Holds held k) (attempt m) (λ _. Holds held k) E
  attempted-Ends {m} k h = Ends-attempt_kept (Holds held k) m h λ s u r p. r.same ∙ p

  pub InSession-Ends :
      {A : Type 0} {m : Step W A} (k : ℕ)
      → Moves (Still held) m
      → Ends (InSession held k) m (λ _. InSession held k) (λ _. InSession held k)
  InSession-Ends {m} k h = Ends-kept _ m h (λ s u r p. rw (r.flag) (r.same ∙ p)) λ f s p. p

  pub Flagged-Ends :
      {A : Type 0} {m : Step W A} {flag : Bool} (k : ℕ)
      → Moves (Still held) m
      → Ends (Flagged held flag k) m (λ _. Flagged held flag k) (λ _. Flagged held flag k)
  Flagged-Ends {m} k h = Ends-kept _ m h (λ s u r p. (r.same ∙ p.0, r.flag ∙ p.1)) λ f s p. p

  pub refused_lock-Ends :
      (flag : Bool) (k : ℕ) (f : Failure)
      → Ends
          (Flagged held flag k)
          (modify_counters (count_lock_failure f.code)
            >> (check_deadline t >> lift {A = Bool} (err f)))
          (Tried held flag k)
          (λ _. Flagged held flag k)
  refused_lock-Ends flag k f = Ends-bind _ _ _ (Flagged-Ends k (counters-Still _)) λ _.
      Ends-bind _ _ _ (Flagged-Ends k (check_deadline-rule (Still-clock t laws)))
        λ _. Ends-lift (err f) λ s h. h

  pub granted-Ends :
      (flag : Bool) (k : ℕ)
      → Ends (Tried held flag k true) (pure true) (Tried held flag k) (λ _. Flagged held flag k)
  granted-Ends flag k = Ends-pure true λ s h. h

  pub locking-Ends :
      (flag : Bool) (k remaining : ℕ)
      → Ends
          (Flagged held flag k)
          (lock_bus t remaining >>= λ raw.
            on_status
              (normalize_lock_status raw)
              (λ _. pure true)
              λ f. do modify_counters (count_lock_failure f.code); check_deadline t; lift (err f))
          (Tried held flag k)
          (λ _. Flagged held flag k)
  unfolding lock_bus ◌>>=◌
  locking-Ends flag k remaining = record {
    at = λ s h. elim (lock_cases (t.lock_bus remaining s.world).0) [
      | inl (e, n) ↦ rw e (
          (granted-Ends flag k).at (after_lock t remaining s)
            (laws.taken remaining s.world n ∙ ap (λ n. n + 1) h.0, h.1))
      | inr (f, g, raw, e) ↦ rw e (
          (refused_lock-Ends flag k g).at (after_lock t remaining s)
            (laws.refused remaining s.world f raw ∙ h.0, h.1))
    ];
  }

  pub try_lock-Ends :
      (flag : Bool) (k : ℕ)
      → Ends (Flagged held flag k) (try_lock t) (Tried held flag k) (λ _. Flagged held flag k)
  unfolding try_lock
  try_lock-Ends flag k =
      Ends-if _ _ _ (λ _. Ends-pure false λ s h. h)
        λ _.
          Ends-bind _ _ _ (Flagged-Ends k (deadline_remaining_ms-rule (Still-clock t laws)))
            λ remaining. locking-Ends flag k remaining

  -- The steps of a frame between its lock and its unlock.
  pub restart-Still : (d : Driver) → Moves (Still held) (restart t d)
  unfolding restart
  restart-Still d = search still_rules depth 20

  pub deassert_first-Still : (b : Bool) → Moves (Still held) (deassert_first t b)
  unfolding deassert_first deasserted deassert_failed
  deassert_first-Still b = search (still_rules, restart-Still) depth 20

  pub select-Still : Moves (Still held) (select t)
  unfolding select asserted assert_failed
  select-Still = search still_rules depth 24

  pub transfer_in_session-Still : (tx : List ℕ) → Moves (Still held) (transfer_in_session t tx)
  unfolding transfer_in_session
  transfer_in_session-Still tx = search still_rules depth 24

  pub close_frame-Still : Moves (Still held) (close_frame t)
  unfolding close_frame frame_closed frame_open
  close_frame-Still = search still_rules depth 24

  pub frame_result-Still :
      (r : Result (List ℕ)) (c : Result (Unit {0})) → Moves (Still held) (frame_result t r c)
  unfolding frame_result
  frame_result-Still r c = search still_rules depth 24

  -- An unlock gives back the lock that is held.
  pub unlock-Ends :
      {E : Failure → Context W → Type 0} (k : ℕ)
      → Ends (Holds held (k + 1)) (unlock_bus t) (λ _. Holds held k) E
  unfolding unlock_bus
  unlock-Ends k = record { at = λ s h. laws.given s.world ∙ ap (λ n. n - 1) h ∙ back k }
    where
      back : (k : ℕ) → (k + 1) - 1 ≡ k
      back k = omega arith
