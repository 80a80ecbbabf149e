-- ===== src/Driver/Bus/ChipSelect/Frame.antt =====
-- Chip select within the frame of one transaction.
use max.Prelude.{ℕ, ◌≡◌, refl, sym, ◌∙◌, ap, ◌⊎◌, inl, inr, Bool, true, false, some, List, not}
use max.Status.{
  invalid_state, chip_select_failed, operation_timeout, same_code, Failure, Result, ok, err, Status,
}
use max.Driver.{Transport, Context}
use max.Driver.Action.{Step, lift, ◌>>=◌, ◌>>◌, on_status, when, skip}
use max.Driver.Action.Moves.{Moves, Moves-if, Moves-pure, Moves-lift, Moves-attempt}
use max.Driver.Action.Ends.{
  Ends, Ends-attempt, Ends-lift, Ends-modify, Ends-kept, Ends-bind, Ends-gets, Ends-from, Ends-if,
  Ends-pure, Outcome,
}
use max.Driver.Normalize.{normalize_chip_select_status, normalize_required_deassert_status}
use max.Driver.Clock.{set_chip_select, delay_us, check_deadline, deadline_expired, mark_timeout}
use max.Driver.Bus.{
  synchronize_chip_select, asserted, assert_failed, select, open_session, frame_closed, frame_open,
  close_frame, close_session, transact,
}
use max.Driver.Bus.Level.{
  ChipSelectLaws, Level, Level-preorder, delay_us-Level, unlock_bus-Level, deadline_expired-Level,
  check_deadline-Level, after_deadline-Level, try_lock-Level, transfer_in_session-Level,
  frame_result-Level, operation-Level,
}
use max.Driver.Bus.ChipSelect.{
  IsSafe, IsFramed, IsHigh, IsRaised, status_cases, after_select, note_frame-Level, Level-IsHigh,
  Level-IsRaised, Level-IsFramed, IsHigh-IsSafe, IsRaised-IsFramed, uncertain-IsSafe,
  uncertain-IsFramed, mark_timeout-Level, IsSafe-Ends, synchronize-Ends,
}

module _ {W : Type 0} (t : Transport W) {selected : W → Bool}
    (laws : ChipSelectLaws t selected) where
  -- A step that leaves the pin, inside a session.
  IsFramed-Ends :
      {A : Type 0} {m : Step W A}
      → Moves (Level selected) m
      → Ends (IsFramed selected) m (λ _. IsFramed selected) (λ _. IsFramed selected)
  IsFramed-Ends {m} h = Ends-kept _ m h Level-IsFramed λ f s k. k

  IsRaised-Ends :
      {A : Type 0} {m : Step W A}
      → Moves (Level selected) m
      → Ends (IsRaised selected) m (λ _. IsRaised selected) (λ _. IsFramed selected)
  IsRaised-Ends {m} h = Ends-kept _ m h Level-IsRaised IsRaised-IsFramed

  asserted-Ends :
      Ends
        (λ s. selected s.world ≡ true)
        (asserted t)
        (λ _. IsFramed selected)
        (λ _. IsFramed selected)
  unfolding asserted
  asserted-Ends =
      Ends-bind (λ _ s. (selected s.world ≡ true) × (s.session.selected ≡ true)) _ _
        (Ends-modify _ λ s h. (h, refl))
        λ _.
          Ends-bind (λ _. IsFramed selected) _ _
            (Ends-modify _ λ s h. record { matches = λ k. h.0 ∙ sym h.1 })
            λ _. Ends-bind _ _ _ (IsFramed-Ends (check_deadline-Level t laws)) λ _.
              Ends-bind _ _ _ (IsFramed-Ends (delay_us-Level t laws _))
                λ _. IsFramed-Ends (check_deadline-Level t laws)

  checked-Ends :
      (g : Failure)
      → Ends
          (IsFramed selected)
          (check_deadline t >> lift {A = Unit {0}} (err g))
          (λ _. IsFramed selected)
          (λ _. IsFramed selected)
  checked-Ends g =
      Ends-bind _ _ _ (IsFramed-Ends (check_deadline-Level t laws)) λ _. Ends-lift _ λ s h. h

  assert_failed-Ends :
      (g : Failure) (s : Context W)
      → ((g.code ≡ chip_select_failed) ⊎ ((g.code ≡ invalid_state) × IsRaised selected s))
      → Outcome
          (λ _. IsFramed selected)
          (λ _. IsFramed selected)
          (assert_failed t g s).0
          (assert_failed t g s).1
  unfolding assert_failed ◌>>=◌
  assert_failed-Ends g s (inl e) =
      rw (ap (λ c. same_code c chip_select_failed) e)
        ((checked-Ends g).at _ (uncertain-IsFramed _ refl))
  assert_failed-Ends g s (inr (e, h)) =
      rw (ap (λ c. same_code c chip_select_failed) e)
        ((checked-Ends g).at _ (record { matches = λ k. h.high ∙ sym h.flag }))

  IsRaised-doubt :
      (s : Context W)
      → IsRaised selected s
      → (f g : Failure) → (t.set_chip_select true s.world).0 ≡ some f
      → ((g.code ≡ chip_select_failed) ⊎ ((g.code ≡ invalid_state) × (f.code ≡ invalid_state)))
      → (g.code ≡ chip_select_failed)
        ⊎ ((g.code ≡ invalid_state) × IsRaised selected (after_select t true s))
  IsRaised-doubt s h f g raw (inl e) = inl e
  IsRaised-doubt s h f g raw (inr (e, i)) =
      inr (e, record { high = laws.rejected true s.world f raw i ∙ h.high; flag = h.flag })

  assert-Ends :
      Ends
        (IsRaised selected)
        (set_chip_select t true >>= λ raw.
          on_status (normalize_chip_select_status raw) (λ _. asserted t) (assert_failed t))
        (λ _. IsFramed selected)
        (λ _. IsFramed selected)
  unfolding set_chip_select ◌>>=◌
  assert-Ends = record {
    at = λ s h. elim (status_cases false (t.set_chip_select true s.world).0) [
      | inl (e, n) ↦ rw e (asserted-Ends.at (after_select t true s) (laws.applied true s.world n))
      | inr (f, g, raw, e, c) ↦
          rw e (assert_failed-Ends g (after_select t true s) (IsRaised-doubt s h f g raw c))
    ];
  }

  open_session-Ends :
      Ends (IsHigh selected) (open_session t) (λ _. IsFramed selected) (λ _. IsFramed selected)
  unfolding open_session select
  open_session-Ends =
      Ends-bind (λ _. IsRaised selected) _ _ (Ends-modify _ λ s h. record { high = h; flag = refl })
        λ _. Ends-bind _ _ _ (IsRaised-Ends (check_deadline-Level t laws)) λ _.
          Ends-bind _ _ _ (IsRaised-Ends (try_lock-Level t laws)) λ locked.
            Ends-bind (λ _. IsRaised selected) _ _
              (Ends-modify _ λ s h. record { high = h.high; flag = h.flag })
              λ _. Ends-bind _ _ _ (IsRaised-Ends (check_deadline-Level t laws)) λ _. assert-Ends

  IsHigh-Ends :
      {A : Type 0} {m : Step W A}
      → Moves (Level selected) m
      → Ends (IsHigh selected) m (λ _. IsHigh selected) (λ _. IsSafe selected)
  IsHigh-Ends {m} h = Ends-kept _ m h Level-IsHigh IsHigh-IsSafe

  frame_closed-Ends :
      (held : Status)
      → Ends (IsHigh selected) (frame_closed t held) (λ _. IsHigh selected) (λ _. IsSafe selected)
  unfolding frame_closed
  frame_closed-Ends held =
      Ends-bind (λ _. IsHigh selected) _ _ (Ends-modify _ λ s h. h)
        λ _.
          Ends-bind (λ _. IsHigh selected) _ _ (Ends-modify _ λ s h. h)
            λ _.
              Ends-bind _ _ _ (IsHigh-Ends (Moves-attempt _ (check_deadline-Level t laws)))
                λ raised. Ends-bind _ _ _ (IsHigh-Ends (delay_us-Level t laws _)) λ _.
                  Ends-bind _ _ _ (IsHigh-Ends (Moves-attempt _ (check_deadline-Level t laws)))
                    λ inactive. Ends-bind _ _ _ (IsHigh-Ends (Moves-lift Level-preorder held)) λ _.
                      Ends-bind _ _ _ (IsHigh-Ends (Moves-lift Level-preorder raised))
                        λ _. IsHigh-Ends (Moves-lift Level-preorder inactive)

  open_tail-Ends :
      (f : Failure)
      → Ends
          (IsSafe selected)
          (deadline_expired t >>= λ expired.
            when expired (mark_timeout operation_timeout) >> lift {A = Unit {0}} (err f))
          (λ _. IsSafe selected)
          (λ _. IsSafe selected)
  open_tail-Ends f = Ends-bind _ _ _ (IsSafe-Ends t laws (deadline_expired-Level t laws)) λ expired.
      Ends-bind _ _ _
        (IsSafe-Ends t laws
          (Moves-if expired _ _ (mark_timeout-Level t laws) (Moves-pure Level-preorder tt)))
        λ _. IsSafe-Ends t laws (Moves-lift Level-preorder (err f))

  frame_open-Ends :
      (f : Failure) (s : Context W)
      → Outcome
          (λ _. IsSafe selected)
          (λ _. IsSafe selected)
          (frame_open t f s).0
          (frame_open t f s).1
  unfolding frame_open ◌>>=◌
  frame_open-Ends f s = (open_tail-Ends f).at _ (uncertain-IsSafe _ refl)

  anywhere :
      {A : Type 0} (m : Step W A) → Ends (λ _. Unit {0}) m (λ _ _. Unit {0}) (λ _ _. Unit {0})
  anywhere m =
      Ends-kept _ {R = λ _ _. Unit {0}} m (record { at = λ s. tt }) (λ s u r h. tt) (λ f s h. tt)

  deassert-Ends :
      (held : Status)
      → Ends
          (λ _. Unit {0})
          (set_chip_select t false >>= λ raw.
            on_status
              (normalize_required_deassert_status raw)
              (λ _. frame_closed t held)
              (frame_open t))
          (λ _. IsSafe selected)
          (λ _. IsSafe selected)
  unfolding set_chip_select ◌>>=◌
  deassert-Ends held = record {
    at = λ s h. elim (status_cases true (t.set_chip_select false s.world).0) [
      | inl (e, n) ↦ rw e (
          high_safe _ _
            ((frame_closed-Ends held).at (after_select t false s) (laws.applied false s.world n)))
      | inr (f, g, raw, e, c) ↦ rw e (frame_open-Ends g (after_select t false s))
    ];
  }
    where
      high_safe :
          (r : Status) (u : Context W)
          → Outcome (λ _. IsHigh selected) (λ _. IsSafe selected) r u
          → Outcome (λ _. IsSafe selected) (λ _. IsSafe selected) r u
      high_safe (ok a) u h = record { high = λ k. h }
      high_safe (err f) u h = h

  close_frame-Ends :
      Ends (λ _. Unit {0}) (close_frame t) (λ _. IsSafe selected) (λ _. IsSafe selected)
  unfolding close_frame delay_us
  close_frame-Ends =
      Ends-bind (λ _ _. Unit {0}) _ _ (record { at = λ s h. tt })
        λ _.
          Ends-bind _ _ _
            (Ends-from (λ s h. (h, tt)) (Ends-attempt _ (anywhere (check_deadline t))))
            λ held. Ends-from (λ s h. tt) (deassert-Ends held)

  -- A status of either kind that Ended in the same predicate.
  either :
      {A : Type 0} (I : Context W → Type 0) (r : Result A) (u : Context W)
      → Outcome (λ _. I) (λ _. I) r u
      → I u
  either I (ok a) u h = h
  either I (err f) u h = h

  close_session-Ends :
      Ends (IsFramed selected) (close_session t) (λ _. IsSafe selected) (λ _. IsSafe selected)
  unfolding close_session
  close_session-Ends = Ends-gets _ _ λ x.
      Ends-bind _ _ _
        (Ends-from (λ s h. (h, tt))
          (Ends-attempt _ (
            Ends-if x.selected (close_frame t) skip (λ _. Ends-from (λ s h. tt) close_frame-Ends)
              (λ e.
                Ends-pure tt
                  λ s h. record { high = λ k. h.0.matches k ∙ ap (λ y. y.selected) h.1 ∙ e }))))
        λ status.
          Ends-from (λ s h. either _ status s h.1)
            (Ends-if (not x.locked) _ _ (λ _. IsSafe-Ends t laws (Moves-lift Level-preorder status))
              λ _. Ends-bind _ _ _ (IsSafe-Ends t laws (unlock_bus-Level t laws)) λ _.
                Ends-bind (λ _. IsSafe selected) _ _ (Ends-modify _ λ s h. record { high = h.high })
                  λ _. IsSafe-Ends t laws (after_deadline-Level t laws status))

  transact-Ends :
      (tx : List ℕ)
      → Ends (IsSafe selected) (transact t tx) (λ _. IsSafe selected) (λ _. IsSafe selected)
  unfolding transact
  transact-Ends tx = Ends-bind _ _ _ (IsSafe-Ends t laws (operation-Level _)) λ _.
      Ends-gets _ _ λ uncertain.
        Ends-bind (λ _. IsHigh selected) _ _
          (Ends-if uncertain (synchronize_chip_select t) skip
            (λ _. Ends-from (λ s h. h.0) (synchronize-Ends t laws))
            (λ e. Ends-pure tt λ s h. h.0.high (h.1 ∙ e)))
          λ _.
            Ends-bind _ _ _
              (Ends-from (λ s h. (h, tt))
                (Ends-attempt _ (
                  Ends-bind _ _ _ open_session-Ends
                    λ _. IsFramed-Ends (transfer_in_session-Level t laws tx))))
              λ primary.
                Ends-bind _ _ _
                  (Ends-from (λ s h. (either _ primary s h.1, tt))
                    (Ends-attempt _ close_session-Ends))
                  λ cleanup.
                    Ends-from (λ s h. either _ cleanup s h.1)
                      (Ends-bind _ _ _ (IsSafe-Ends t laws note_frame-Level)
                        λ _. IsSafe-Ends t laws (frame_result-Level t laws primary cleanup))

  -- Where the driver either knows chip select to be high or says that it does not know, so it is
  -- after a frame, whatever becomes of the frame, if the chip-select callback does what its status
  -- says and no other callback moves the pin.
  pub transact-IsSafe :
      (tx : List ℕ) (s : Context W) → IsSafe selected s → IsSafe selected (transact t tx s).1
  transact-IsSafe tx s h =
      either _ (transact t tx s).0 (transact t tx s).1 ((transact-Ends tx).at s h)
