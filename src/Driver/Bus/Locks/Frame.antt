-- ===== src/Driver/Bus/Locks/Frame.antt =====
-- A frame gives back each bus lock that it takes.
use max.Prelude.{
  ◌==◌, ℕ, ◌+◌, ◌≡◌, refl, ◌∙◌, ap, Bool, true, false, not, ◌&&◌, List, arith, if◌then◌else◌,
}
use max.Status.{Failure, Status, operation_timeout}
use max.Driver.{Transport, Context}
use max.Driver.Action.{Step, pure, lift, attempt, modify_session, ◌>>=◌, ◌>>◌}
use max.Driver.Action.Moves.{Moves-modify, Moves, Moves-if, Moves-pure, Moves-lift}
use max.Driver.Action.Ends.{
  Ends, Ends-either, Ends-attempt_either, Ends-given, Ends-failing, Ends-modify, Ends-kept,
  Ends-bind, Ends-gets, Ends-from, Ends-if, Ends-pure,
}
use max.Driver.Clock.{now_ms, unlock_bus, deadline_expired, raise_timeout, after_deadline}
use max.Driver.Bus.{
  deassert_first, release, synchronize_chip_select, open_session, close_session, transact,
}
use max.Driver.Clock.Rules.{check_deadline-rule, raise_timeout-rule, after_deadline-rule}
use max.Driver.Bus.Rules.{FrameRules}
use max.Driver.Bus.Locks.{
  LockLaws, Balanced, Holds, InSession, Balanced-preorder, Still-preorder, note_frame-Still,
  Still-clock, Balanced-clock,
}
use max.Driver.Bus.Locks.Taking.{
  Flagged, Flagged-Ends, Holds-Ends, InSession-Ends, Tried, attempted-Ends, close_frame-Still,
  deassert_first-Still, frame_result-Still, select-Still, transfer_in_session-Still, try_lock-Ends,
  unlock-Ends,
}

module _ {W : Type 0} (t : Transport W) {held : W → ℕ} (laws : LockLaws t held) where
  open_session-Ends :
      (k : ℕ) → Ends (Holds held k) (open_session t) (λ _. InSession held k) (λ _. InSession held k)
  unfolding open_session
  open_session-Ends k =
      Ends-bind (λ _. Flagged held false k) _ _ (Ends-modify _ λ s h. (h, refl))
        λ _.
          Ends-bind (λ _. Flagged held false k) _ _
            (opened (Flagged-Ends t laws k (check_deadline-rule (Still-clock t laws))))
            λ _.
              Ends-bind (Tried held false k) _ _ (opened (try_lock-Ends t laws false k)) λ locked.
                Ends-bind (λ _. InSession held k) _ _ (Ends-modify _ λ s h. h.0)
                  λ _. InSession-Ends t laws k (select-Still t laws)
    where
      opened :
          {A : Type 0} {P : Context W → Type 0} {Q : A → Context W → Type 0} {m : Step W A}
          → Ends P m Q (λ _. Flagged held false k)
          → Ends P m Q (λ _. InSession held k)
      opened h = Ends-failing _ (λ f s p. rw (p.1) (p.0)) h

  -- What the end of a session does with the lock.
  unlocking-Ends :
      (k : ℕ) (status : Status)
      → Ends
          (Holds held (k + 1))
          (unlock_bus t
            >> (modify_session (λ x. record x { locked = false }) >> after_deadline t status))
          (λ _. Holds held k)
          (λ _. Holds held k)
  unlocking-Ends k status =
      Ends-bind (λ _. Holds held k) _ _ (unlock-Ends t laws k)
        λ _.
          Ends-bind (λ _. Holds held k) _ _ (Ends-modify _ λ s h. h)
            λ _. Holds-Ends t laws k (after_deadline-rule (Still-clock t laws) status)

  closing-Ends :
      (k : ℕ) (b : Bool) (status : Status)
      → Ends
          (λ s. held s.world ≡ (if b then k + 1 else k))
          (if not b
            then lift status
            else unlock_bus t
              >> (modify_session (λ x. record x { locked = false }) >> after_deadline t status))
          (λ _. Holds held k)
          (λ _. Holds held k)
  closing-Ends k true status = unlocking-Ends k status
  closing-Ends k false status = Holds-Ends t laws k (Moves-lift Still-preorder status)

  close_session-Ends :
      (k : ℕ) → Ends (InSession held k) (close_session t) (λ _. Holds held k) (λ _. Holds held k)
  unfolding close_session
  close_session-Ends k = Ends-gets _ _ λ x.
      Ends-bind (λ _. Holds held (if x.locked then k + 1 else k)) _ _
        (Ends-from (λ s h. h.0 ∙ ap (λ y. if y.locked then k + 1 else k) h.1)
          (attempted-Ends t laws _
            (Moves-if x.selected _ _ (close_frame-Still t laws) (Moves-pure Still-preorder tt))))
        λ status. closing-Ends k x.locked status

  -- The lock of a synchronisation is given back in both of its ends.
  release-Ends :
      (k : ℕ) (b : Bool) (status : Status)
      → Ends
          (Holds held (if b then k + 1 else k))
          (release t b status)
          (λ _. Holds held k)
          (λ _. Holds held k)
  unfolding release
  release-Ends k true status =
      Ends-bind (λ _. Holds held k) _ _ (unlock-Ends t laws k)
        λ _. Holds-Ends t laws k (after_deadline-rule (Still-clock t laws) status)
  release-Ends k false status = Holds-Ends t laws k (Moves-lift Still-preorder status)

  deasserting-Ends :
      (k : ℕ) (uncertain locked : Bool)
      → Ends
          (Holds held (if locked then k + 1 else k))
          (attempt (deassert_first t uncertain) >>= release t locked)
          (λ _. Holds held k)
          (λ _. Holds held k)
  deasserting-Ends k uncertain locked =
      Ends-bind (λ _. Holds held (if locked then k + 1 else k)) _ _
        (attempted-Ends t laws _ (deassert_first-Still t laws uncertain))
        λ status. release-Ends k locked status

  now-Ends :
      {E : Failure → Context W → Type 0} (k : ℕ)
      → Ends (Holds held k) (now_ms t) (λ _. Holds held k) E
  unfolding now_ms
  now-Ends k = record { at = λ s h. laws.clock s.world ∙ h }

  -- Only a lock that was taken can have seen the deadline pass.
  watched-Ends :
      (k : ℕ) (locked : Bool)
      → Ends
          (Holds held (if locked then k + 1 else k))
          (if locked then deadline_expired t else pure false)
          (λ expired s.
            Holds held (if locked then k + 1 else k) s × (expired ≡ true → locked ≡ true))
          (λ _. Holds held k)
  unfolding deadline_expired
  watched-Ends k true = Ends-gets _ _ λ o.
      Ends-if (o.timeout_ms == 0) _ _ (λ _. Ends-pure false λ s h. (h.0, λ _. refl))
        λ _.
          Ends-bind (λ _. Holds held (k + 1)) _ _ (Ends-from (λ s h. h.0) (now-Ends (k + 1)))
            λ now. Ends-pure _ λ s h. (h, λ _. refl)
  watched-Ends k false = Ends-pure false λ s h. (h, λ e. e)

  -- A synchronisation that ran out of time gives back the lock without a look at chip select.
  settling-Ends :
      (k : ℕ) (uncertain locked expired : Bool)
      → (expired ≡ true → locked ≡ true)
      → Ends
          (Holds held (if locked then k + 1 else k))
          (if expired && not uncertain
            then unlock_bus t >> raise_timeout operation_timeout
            else attempt (deassert_first t uncertain) >>= release t locked)
          (λ _. Holds held k)
          (λ _. Holds held k)
  settling-Ends k uncertain locked expired h =
      Ends-if (expired && not uncertain) _ _
        (λ e.
          Ends-bind (λ _. Holds held k) _ _
            (Ends-from (λ s p. p ∙ ap (λ b. if b then k + 1 else k) (h (and_left expired _ e)))
              (unlock-Ends t laws k))
            λ _. Holds-Ends t laws k (raise_timeout-rule (Still-clock t laws) operation_timeout))
        λ _. deasserting-Ends k uncertain locked
    where
      and_left : (a b : Bool) → a && b ≡ true → a ≡ true
      and_left a b e = ground arith

  synchronize-Ends :
      (flag : Bool) (k : ℕ)
      → Ends
          (Flagged held flag k)
          (synchronize_chip_select t)
          (λ _. Holds held k)
          (λ _. Holds held k)
  unfolding synchronize_chip_select
  synchronize-Ends flag k =
      Ends-bind (λ _. Flagged held flag k) _ _
        (counted (Flagged-Ends t laws k (check_deadline-rule (Still-clock t laws))))
        λ _. Ends-gets _ _ λ uncertain.
          Ends-bind (Tried held flag k) _ _
            (Ends-from (λ s h. h.0) (counted (try_lock-Ends t laws flag k)))
            λ locked.
              Ends-bind _ _ _ (Ends-from (λ s h. h.0) (watched-Ends k locked))
                λ expired. Ends-given λ h. settling-Ends k uncertain locked expired h
    where
      counted :
          {A : Type 0} {P : Context W → Type 0} {Q : A → Context W → Type 0} {m : Step W A}
          → Ends P m Q (λ _. Flagged held flag k)
          → Ends P m Q (λ _. Holds held k)
      counted h = Ends-failing _ (λ f s p. p.0) h

  pub synchronize-Balanced : Moves (Balanced held) (synchronize_chip_select t)
  synchronize-Balanced = record {
    at = λ s. record {
      same =
          Ends-either (Holds held (held s.world)) (synchronize_chip_select t s).0 _
            ((synchronize-Ends s.session.locked (held s.world)).at s (refl, refl));
    };
  }

  transact-Ends :
      (tx : List ℕ) (k : ℕ)
      → Ends (Holds held k) (transact t tx) (λ _. Holds held k) (λ _. Holds held k)
  unfolding transact
  transact-Ends tx k =
      Ends-bind (λ _. Holds held k) _ _ (Ends-modify _ λ s h. h)
        λ _. Ends-gets _ _ λ uncertain.
          Ends-bind (λ _. Holds held k) _ _
            (Ends-from (λ s h. h.0)
              (Ends-kept (Holds held k) _
                (Moves-if uncertain _ _ synchronize-Balanced (Moves-pure Balanced-preorder tt))
                (λ s u r p. r.same ∙ p) λ f s p. p))
            λ _.
              Ends-bind (λ _. InSession held k) _ _
                (Ends-attempt_either (InSession held k) _ (
                  Ends-bind (λ _. InSession held k) _ _ (open_session-Ends k)
                    λ _. InSession-Ends t laws k (transfer_in_session-Still t laws tx)))
                λ primary.
                  Ends-bind (λ _. Holds held k) _ _
                    (Ends-attempt_either (Holds held k) _ (close_session-Ends k))
                    λ cleanup.
                      Ends-bind (λ _. Holds held k) _ _ (Holds-Ends t laws k note_frame-Still)
                        λ _. Holds-Ends t laws k (frame_result-Still t laws primary cleanup)

  -- A frame, whatever becomes of it, leaves the bus lock held as often as before it.
  pub transact-Balanced : (tx : List ℕ) → Moves (Balanced held) (transact t tx)
  transact-Balanced tx = record {
    at = λ s. record {
      same =
          Ends-either (Holds held (held s.world)) (transact t tx s).0 _
            ((transact-Ends tx (held s.world)).at s refl);
    };
  }

  pub Balanced-frames : FrameRules t (Balanced held)
  Balanced-frames = record {
    clock = Balanced-clock t laws;
    written = Moves-modify _ λ s. record { same = refl };
    transacted = transact-Balanced;
    synchronized = synchronize-Balanced;
  }
