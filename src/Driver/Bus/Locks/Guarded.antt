-- ===== src/Driver/Bus/Locks/Guarded.antt =====
-- The frame of one transaction: chip select and the transfer only while the bus is held.
use max.Prelude.{ℕ, ◌≡◌, refl, ◌∙◌, ap, Bool, true, false, not, ◌&&◌, List, arith, if◌then◌else◌}
use max.Status.{Status, operation_timeout}
use max.Driver.{Transport, Context}
use max.Driver.Action.{Step, pure, ◌>>◌}
use max.Driver.Action.Moves.{Moves-modify, Moves, Moves-if, Moves-pure, Moves-lift}
use max.Driver.Action.Ends.{
  Ends, Ends-gives, Ends-either, Ends-attempt_either, Ends-attempt_kept, Ends-failing, Ends-modify,
  Ends-kept, Ends-bind, Ends-gets, Ends-from, Ends-if, Ends-pure,
}
use max.Driver.Clock.{now_ms, sleep_ms, delay_us, deadline_expired}
use max.Driver.Bus.{
  release, synchronize_chip_select, open_session, transfer_in_session, close_frame, close_session,
  transact,
}
use max.Driver.Clock.Rules.{
  check_deadline-rule, deadline_expired-rule, raise_timeout-rule, after_deadline-rule,
}
use max.Driver.Bus.Rules.{FrameRules}
use max.Driver.Bus.Locks.{LockLaws}
use max.Driver.Bus.Locks.Guard.{
  GuardLaws, Clean, Covered, IsClean, IsInside, IsFramed, IsFlagged, Plain-preorder,
  Covered-preorder, Clean-preorder, Covered-clock, note_frame-Plain, Plain-clock,
  deassert_first-Covered, select-Covered, transfer_in_session-Covered, close_frame-Covered,
  frame_result-Plain,
}
use max.Driver.Bus.Locks.Guarding.{
  IsClean-Ends, IsFlagged-Ends, IsTried, covered, try_lock-Ends, unlock-Ends,
}

module _ {W : Type 0} (t : Transport W) {held unguarded : W → ℕ} (laws : LockLaws t held)
    (guards : GuardLaws t held unguarded) where
  module _ (has_lock : t.has_lock_bus ≡ true) where
    opened :
        {A : Type 0} {P : Context W → Type 0} {Q : A → Context W → Type 0} {m : Step W A} (g : ℕ)
        → Ends P m Q (λ _. IsFlagged unguarded false g)
        → Ends P m Q (λ _. IsFramed held unguarded g)
    opened g h = Ends-failing _ (λ f s p. (p.0, λ e. absurd (clash _ (p.1) e))) h
      where
        clash : (b : Bool) → b ≡ false → b ≡ true → ⊥
        clash b h e = ground arith

    inside :
        {A : Type 0} {m : Step W A} (g : ℕ)
        → Moves (Covered held unguarded) m
        → Ends
            (IsInside held unguarded g)
            m
            (λ _. IsInside held unguarded g)
            (λ _. IsFramed held unguarded g)
    inside {m} g h = Ends-kept _ m h (covered t laws guards g) λ f s p. (p.0, λ e. p.1)

    open_session-Ends :
        (g : ℕ)
        → Ends
            (IsClean unguarded g)
            (open_session t)
            (λ _. IsInside held unguarded g)
            (λ _. IsFramed held unguarded g)
    unfolding open_session
    open_session-Ends g =
        Ends-bind (λ _. IsFlagged unguarded false g) _ _ (Ends-modify _ λ s h. (h, refl))
          λ _.
            Ends-bind (λ _. IsFlagged unguarded false g) _ _
              (opened g
                (IsFlagged-Ends t laws guards g (check_deadline-rule (Plain-clock t laws guards))))
              λ _.
                Ends-bind (IsTried held unguarded g) _ _
                  (opened g (try_lock-Ends t laws guards has_lock false g))
                  λ locked.
                    Ends-bind (λ _. IsInside held unguarded g) _ _ (Ends-modify _ λ s h. h.0)
                      λ _. inside g (select-Covered t laws guards)

    -- Bytes are moved in a session that was opened.
    sending-Ends :
        (g : ℕ) (tx : List ℕ)
        → Ends
            (IsClean unguarded g)
            (open_session t >> transfer_in_session t tx)
            (λ _. IsFramed held unguarded g)
            (λ _. IsFramed held unguarded g)
    sending-Ends g tx = Ends-bind _ _ _ (open_session-Ends g) λ _.
        Ends-gives (λ a s p. (p.0, λ e. p.1))
          (inside g (transfer_in_session-Covered t laws guards tx))

    closing-Ends :
        (g : ℕ) (selected : Bool)
        → Ends
            (λ s. IsFramed held unguarded g s × (s.session.selected ≡ selected))
            (if selected then close_frame t else pure tt)
            (λ _. IsClean unguarded g)
            (λ _. IsClean unguarded g)
    closing-Ends g true =
        Ends-from (λ s h. (h.0.0, h.0.1 (h.1)))
          (Ends-gives (λ a s p. p.0)
            (Ends-kept (IsInside held unguarded g) _ (close_frame-Covered t laws guards)
              (covered t laws guards g) λ f s p. p.0))
    closing-Ends g false = Ends-pure tt λ s h. h.0.0

    close_session-Ends :
        (g : ℕ)
        → Ends
            (IsFramed held unguarded g)
            (close_session t)
            (λ _. IsClean unguarded g)
            (λ _. IsClean unguarded g)
    unfolding close_session
    close_session-Ends g = Ends-gets _ _ λ x.
        Ends-bind (λ _. IsClean unguarded g) _ _
          (Ends-from (λ s h. (h.0, ap (λ y. y.selected) (h.1)))
            (Ends-attempt_either (IsClean unguarded g) _ (closing-Ends g x.selected)))
          λ status.
            Ends-if (not x.locked) _ _
              (λ _. IsClean-Ends t laws guards g (Moves-lift Plain-preorder status))
              λ _.
                Ends-bind (λ _. IsClean unguarded g) _ _ (unlock-Ends t laws guards g)
                  λ _.
                    Ends-bind (λ _. IsClean unguarded g) _ _ (Ends-modify _ λ s h. h)
                      λ _.
                        IsClean-Ends t laws guards g
                          (after_deadline-rule (Plain-clock t laws guards) status)

    release-Ends :
        (g : ℕ) (b : Bool) (status : Status)
        → Ends
            (IsClean unguarded g)
            (release t b status)
            (λ _. IsClean unguarded g)
            (λ _. IsClean unguarded g)
    unfolding release
    release-Ends g true status =
        Ends-bind (λ _. IsClean unguarded g) _ _ (unlock-Ends t laws guards g)
          λ _. IsClean-Ends t laws guards g (after_deadline-rule (Plain-clock t laws guards) status)
    release-Ends g false status = IsClean-Ends t laws guards g (Moves-lift Plain-preorder status)

    synchronize-Ends :
        (flag : Bool) (g : ℕ)
        → Ends
            (IsFlagged unguarded flag g)
            (synchronize_chip_select t)
            (λ _. IsClean unguarded g)
            (λ _. IsClean unguarded g)
    unfolding synchronize_chip_select
    synchronize-Ends flag g =
        Ends-bind (λ _. IsFlagged unguarded flag g) _ _
          (counted
            (IsFlagged-Ends t laws guards g (check_deadline-rule (Plain-clock t laws guards))))
          λ _. Ends-gets _ _ λ uncertain.
            Ends-bind (IsTried held unguarded g) _ _
              (Ends-from (λ s h. h.0) (counted (try_lock-Ends t laws guards has_lock flag g)))
              λ locked.
                Ends-bind (λ _. IsInside held unguarded g) _ _
                  (Ends-from (λ s h. h.0) (watched locked))
                  λ expired.
                    Ends-if (expired && not uncertain) _ _
                      (λ _.
                        Ends-bind (λ _. IsClean unguarded g) _ _
                          (Ends-from (λ s h. h.0) (unlock-Ends t laws guards g))
                          λ _.
                            IsClean-Ends t laws guards g
                              (raise_timeout-rule (Plain-clock t laws guards) operation_timeout))
                      λ _.
                        Ends-bind (λ _. IsInside held unguarded g) _ _
                          (Ends-attempt_kept (IsInside held unguarded g) _
                            (deassert_first-Covered t laws guards uncertain)
                            (covered t laws guards g))
                          λ status. Ends-from (λ s h. h.0) (release-Ends g locked status)
      where
        counted :
            {A : Type 0} {P : Context W → Type 0} {Q : A → Context W → Type 0} {m : Step W A}
            → Ends P m Q (λ _. IsFlagged unguarded flag g)
            → Ends P m Q (λ _. IsClean unguarded g)
        counted h = Ends-failing _ (λ f s p. p.0) h

        watched :
            (locked : Bool)
            → Ends
                (IsInside held unguarded g)
                (if locked then deadline_expired t else pure false)
                (λ _. IsInside held unguarded g)
                (λ _. IsClean unguarded g)
        watched locked =
            Ends-kept (IsInside held unguarded g) _
              (Moves-if locked _ _ (deadline_expired-rule (Covered-clock t laws guards))
                (Moves-pure Covered-preorder false))
              (covered t laws guards g) λ f s p. p.0

    synchronize-Clean : Moves (Clean unguarded) (synchronize_chip_select t)
    synchronize-Clean = record {
      at = λ s. record {
        clean =
            Ends-either (IsClean unguarded (unguarded s.world)) (synchronize_chip_select t s).0 _
              ((synchronize-Ends s.session.selected (unguarded s.world)).at s (refl, refl));
      };
    }

    transact-Ends :
        (tx : List ℕ) (g : ℕ)
        → Ends
            (IsClean unguarded g)
            (transact t tx)
            (λ _. IsClean unguarded g)
            (λ _. IsClean unguarded g)
    unfolding transact
    transact-Ends tx g =
        Ends-bind (λ _. IsClean unguarded g) _ _ (Ends-modify _ λ s h. h)
          λ _. Ends-gets _ _ λ uncertain.
            Ends-bind (λ _. IsClean unguarded g) _ _
              (Ends-from (λ s h. h.0)
                (Ends-kept (IsClean unguarded g) _
                  (Moves-if uncertain _ _ synchronize-Clean (Moves-pure Clean-preorder tt))
                  (λ s u r p. r.clean ∙ p) λ f s p. p))
              λ _.
                Ends-bind (λ _. IsFramed held unguarded g) _ _
                  (Ends-attempt_either (IsFramed held unguarded g) _ (sending-Ends g tx))
                  λ primary.
                    Ends-bind (λ _. IsClean unguarded g) _ _
                      (Ends-attempt_either (IsClean unguarded g) _ (close_session-Ends g))
                      λ cleanup.
                        Ends-bind (λ _. IsClean unguarded g) _ _
                          (IsClean-Ends t laws guards g note_frame-Plain)
                          λ _.
                            IsClean-Ends t laws guards g
                              (frame_result-Plain t laws guards primary cleanup)

    pub transact-Clean : (tx : List ℕ) → Moves (Clean unguarded) (transact t tx)
    transact-Clean tx = record {
      at = λ s. record {
        clean =
            Ends-either (IsClean unguarded (unguarded s.world)) (transact t tx s).0 _
              ((transact-Ends tx (unguarded s.world)).at s refl);
      };
    }

    pub Clean-frames : FrameRules t (Clean unguarded)
    unfolding now_ms sleep_ms delay_us
    Clean-frames = record {
      clock = record {
        preorder = Clean-preorder;
        now = record { at = λ s. record { clean = guards.clock s.world } };
        slept = λ ms. record { at = λ s. record { clean = guards.sleep ms s.world } };
        delayed = λ us. record { at = λ s. record { clean = guards.delay us s.world } };
        marked = λ code. Moves-modify _ λ s. record { clean = refl };
      };
      written = Moves-modify _ λ s. record { clean = refl };
      transacted = transact-Clean;
      synchronized = synchronize-Clean;
    }
