-- ===== src/Driver/Bus/ChipSelect.antt =====
-- Chip select is high after every frame, or the driver says that it does not know.
pub mod Frame
use max.Prelude.{
  pos, ◌≡◌, refl, sym, ◌∙◌, ap, ◌⊎◌, inl, inr, Bool, true, false, Option, none, some, arith,
}
use max.Status.{
  invalid_state, chip_select_failed, operation_timeout, same_code, Failure, ok, err, Status,
  success, has_code,
}
use max.Commands.{cs_inactive_delay_us}
use max.Driver.{Transport, Driver, Context}
use max.Driver.Action.{Step, lift, ◌>>=◌, ◌>>◌, modify, when}
use max.Driver.Action.Moves.{Moves, Moves-modify, Moves-bind, Moves-if, Moves-pure}
use max.Driver.Action.Ends.{
  Ends, Ends-attempt, Ends-lift, Ends-modify, Ends-kept, Ends-bind, Ends-gets, Ends-from, Ends-if,
  Outcome,
}
use max.Driver.Normalize.{normalize_chip_select_status, normalize_required_deassert_status}
use max.Driver.Normalize.Roles.{
  normalize_chip_select_status-InRole, normalize_required_deassert_status_lem,
}
use max.Driver.Clock.{
  set_chip_select, delay_us, check_deadline, unlock_bus, raise_timeout, after_deadline,
  mark_timeout,
}
use max.Driver.Bus.{
  note_frame, restart, deassert_status, deasserted, deassert_failed, deassert_first,
  synchronize_chip_select, release,
}
use max.Driver.Bus.Level.{
  ChipSelectLaws, Level, Level-preorder, conversion-Level, delay_us-Level, unlock_bus-Level,
  now_ms-Level, deadline_expired-Level, check_deadline-Level, try_lock-Level, operation-Level,
}

-- Unless the driver says that it does not know, the pin is high.
pub record IsSafe {W : Type 0} (selected : W → Bool) (s : Context W) : Type 0 where
  pub high : s.driver.chip_select_uncertain ≡ false → selected s.world ≡ false

-- The same inside a session, whose flag says whether the pin is low.
record IsFramed {W : Type 0} (selected : W → Bool) (s : Context W) : Type 0 where
  pub matches : s.driver.chip_select_uncertain ≡ false → selected s.world ≡ s.session.selected

-- The pin is high, and so it is with the session's flag.
abbrev IsHigh : {W : Type 0} → (W → Bool) → Context W → Type 0
IsHigh selected s = selected s.world ≡ false

record IsRaised {W : Type 0} (selected : W → Bool) (s : Context W) : Type 0 where
  pub high : selected s.world ≡ false
  pub flag : s.session.selected ≡ false

-- The two outcomes of a chip-select call once its status is normalised.
status_cases :
    (required : Bool) (raw : Option Failure)
    → ((deassert_status required raw ≡ success) × (raw ≡ none))
      ⊎ ((f : Failure) × (g : Failure) × (raw ≡ some f)
          × (deassert_status required raw ≡ err g)
          × ((g.code ≡ chip_select_failed) ⊎ ((g.code ≡ invalid_state) × (f.code ≡ invalid_state))))
unfolding normalize_chip_select_status normalize_required_deassert_status
status_cases true none = inl (refl, refl)
status_cases false none = inl (refl, refl)
status_cases true (some f) =
    let r = normalize_required_deassert_status_lem f in inr (f, r.0, refl, r.1, inl r.2)
status_cases false (some f) =
    let r = normalize_chip_select_status-InRole f in
    inr (f, r.failure, refl, r.is_failure, ground (arith, r.code))

-- The context right after a chip-select call.
abbrev after_select : {W : Type 0} → Transport W → Bool → Context W → Context W
after_select t on s = record s { world = (t.set_chip_select on s.world).1 }

module _ {W : Type 0} {selected : W → Bool} where
  note_frame-Level : Moves (Level {W = W} selected) (modify note_frame)
  note_frame-Level = Moves-modify _ λ s. ground arith

  pub Level-IsSafe : (s u : Context W) → Level selected s u → IsSafe selected s → IsSafe selected u
  Level-IsSafe s u l h = record { high = λ k. l.pin ∙ h.high (sym l.uncertain ∙ k) }

  Level-IsHigh : (s u : Context W) → Level selected s u → IsHigh selected s → IsHigh selected u
  Level-IsHigh s u l h = l.pin ∙ h

  Level-IsRaised :
      (s u : Context W) → Level selected s u → IsRaised selected s → IsRaised selected u
  Level-IsRaised s u l h = record { high = l.pin ∙ h.high; flag = l.flag ∙ h.flag }

  Level-IsFramed :
      (s u : Context W) → Level selected s u → IsFramed selected s → IsFramed selected u
  Level-IsFramed s u l h = record {
    matches = λ k. l.pin ∙ h.matches (sym l.uncertain ∙ k) ∙ sym l.flag;
  }

  IsHigh-IsSafe : (f : Failure) (s : Context W) → IsHigh selected s → IsSafe selected s
  IsHigh-IsSafe f s h = record { high = λ k. h }

  IsRaised-IsFramed : (f : Failure) (s : Context W) → IsRaised selected s → IsFramed selected s
  IsRaised-IsFramed f s h = record { matches = λ k. h.high ∙ sym h.flag }

  -- Where the level of chip select is not known, the driver says so.
  uncertain-IsSafe : (s : Context W) → s.driver.chip_select_uncertain ≡ true → IsSafe selected s
  uncertain-IsSafe s h = record { high = λ k. cc }

  uncertain-IsFramed : (s : Context W) → s.driver.chip_select_uncertain ≡ true → IsFramed selected s
  uncertain-IsFramed s h = record { matches = λ k. cc }

-- Any failure.
abbrev no_failure : Failure
no_failure = record { code = invalid_state; msg = none; detail = pos 0 }

module _ {W : Type 0} (t : Transport W) {selected : W → Bool}
    (laws : ChipSelectLaws t selected) where
  -- A timeout is never a success.
  raise_timeout-Ends :
      {A : Type 0}
      → Ends
          (IsSafe selected)
          (raise_timeout {W = W} {A = A} operation_timeout)
          (λ _. IsHigh selected)
          (λ _. IsSafe selected)
  unfolding raise_timeout ◌>>=◌
  raise_timeout-Ends = record { at = λ s h. record { high = h.high } }

  Ended : Status → Context W → Type 0
  Ended = Outcome (λ _. IsHigh selected) (λ _. IsSafe selected)

  Level-Ended : (r : Status) (s u : Context W) → Level selected s u → Ended r s → Ended r u
  unfolding Ended
  Level-Ended (ok a) s u l h = Level-IsHigh s u l h
  Level-Ended (err f) s u l h = Level-IsSafe s u l h

  Ended-IsSafe : (r : Status) (f : Failure) (s : Context W) → Ended r s → IsSafe selected s
  unfolding Ended
  Ended-IsSafe (ok a) f s h = record { high = λ k. h }
  Ended-IsSafe (err g) f s h = h

  mark_timeout-Level : Moves (Level selected) (mark_timeout {W = W} operation_timeout)
  mark_timeout-Level = operation-Level _

  after_deadline-Ends :
      (r : Status)
      → Ends (Ended r) (after_deadline t r) (λ _. IsHigh selected) (λ _. IsSafe selected)
  unfolding after_deadline Ended
  after_deadline-Ends r =
      Ends-bind _ _ _
        (Ends-kept _ _ (deadline_expired-Level t laws) (Level-Ended r) (Ended-IsSafe r))
        λ expired.
          Ends-if expired _ _
            (λ _.
              Ends-if (has_code chip_select_failed r) (mark_timeout operation_timeout >> lift r)
                (raise_timeout operation_timeout)
                (λ _.
                  Ends-bind _ _ _
                    (Ends-kept _ _ mark_timeout-Level (Level-Ended r) (Ended-IsSafe r))
                    λ _. Ends-lift r λ s h. h)
                (λ _. Ends-from (λ s h. Ended-IsSafe r no_failure s h) raise_timeout-Ends))
            (λ _. Ends-lift r λ s h. h)

  restart-Level : (d : Driver) → Moves (Level selected) (restart t d)
  unfolding restart
  restart-Level d = Moves-bind Level-preorder _ _ (now_ms-Level t laws) λ now. conversion-Level _

  settled-Level :
      (d : Driver) (b : Bool)
      → Moves
          (Level selected)
          (when b (restart t d) >> (delay_us t cs_inactive_delay_us >> check_deadline t))
  settled-Level d b =
      Moves-bind Level-preorder _ _
        (Moves-if b _ _ (restart-Level d) (Moves-pure Level-preorder tt))
        λ _.
          Moves-bind Level-preorder _ _ (delay_us-Level t laws cs_inactive_delay_us)
            λ _. check_deadline-Level t laws

  deasserted-Ends :
      Ends (IsHigh selected) (deasserted t) (λ _. IsHigh selected) (λ _. IsSafe selected)
  unfolding deasserted
  deasserted-Ends =
      Ends-bind (λ _. IsHigh selected) _ _ (Ends-modify _ λ s h. h)
        λ _.
          Ends-gets _ _ λ d.
            Ends-from (λ s h. h.0) (Ends-kept _ _ (settled-Level d _) Level-IsHigh IsHigh-IsSafe)

  deassert_failed-Ends :
      (g : Failure) (s : Context W)
      → ((g.code ≡ chip_select_failed) ⊎ ((g.code ≡ invalid_state) × IsSafe selected s))
      → Ended (deassert_failed t g s).0 (deassert_failed t g s).1
  unfolding deassert_failed ◌>>=◌ Ended
  deassert_failed-Ends g s (inl e) =
      rw (ap (λ c. same_code c chip_select_failed) e)
        ((after_deadline-Ends (err g)).at _ (uncertain-IsSafe _ refl))
  deassert_failed-Ends g s (inr (e, h)) =
      rw (ap (λ c. same_code c chip_select_failed) e) ((after_deadline-Ends (err g)).at s h)

  -- A status after which nothing changed: the failure is a rejection, or the pin is in doubt.
  doubt :
      (s : Context W) (on : Bool)
      → IsSafe selected s
      → (f g : Failure) → (t.set_chip_select on s.world).0 ≡ some f
      → ((g.code ≡ chip_select_failed) ⊎ ((g.code ≡ invalid_state) × (f.code ≡ invalid_state)))
      → (g.code ≡ chip_select_failed)
        ⊎ ((g.code ≡ invalid_state) × IsSafe selected (after_select t on s))
  doubt s on h f g raw (inl e) = inl e
  doubt s on h f g raw (inr (e, i)) =
      inr (e, record { high = λ k. laws.rejected on s.world f raw i ∙ h.high k })

  deassert_first-Ends :
      (b : Bool)
      → Ends (IsSafe selected) (deassert_first t b) (λ _. IsHigh selected) (λ _. IsSafe selected)
  unfolding deassert_first set_chip_select ◌>>=◌ Ended
  deassert_first-Ends b = record {
    at = λ s h. elim (status_cases b (t.set_chip_select false s.world).0) [
      | inl (e, n) ↦
          rw e (deasserted-Ends.at (after_select t false s) (laws.applied false s.world n))
      | inr (f, g, raw, e, c) ↦
          rw e (deassert_failed-Ends g (after_select t false s) (doubt s false h f g raw c))
    ];
  }

  release-Ends :
      (b : Bool) (r : Status)
      → Ends (Ended r) (release t b r) (λ _. IsHigh selected) (λ _. IsSafe selected)
  unfolding release Ended
  release-Ends b r =
      Ends-if b (unlock_bus t >> after_deadline t r) (lift r)
        (λ _.
          Ends-bind _ _ _ (Ends-kept _ _ (unlock_bus-Level t laws) (Level-Ended r) (Ended-IsSafe r))
            λ _. after_deadline-Ends r)
        (λ _. Ends-lift r λ s h. h)

  -- A step that leaves the pin, in a context that is safe.
  IsSafe-Ends :
      {A : Type 0} {m : Step W A}
      → Moves (Level selected) m
      → Ends (IsSafe selected) m (λ _. IsSafe selected) (λ _. IsSafe selected)
  IsSafe-Ends {m} h = Ends-kept _ m h Level-IsSafe λ f s k. k

  pub synchronize-Ends :
      Ends
        (IsSafe selected)
        (synchronize_chip_select t)
        (λ _. IsHigh selected)
        (λ _. IsSafe selected)
  unfolding synchronize_chip_select Ended
  synchronize-Ends = Ends-bind _ _ _ (IsSafe-Ends (check_deadline-Level t laws)) λ _.
      Ends-gets _ _ λ uncertain.
        Ends-from (λ s h. h.0)
          (Ends-bind _ _ _ (IsSafe-Ends (try_lock-Level t laws)) λ locked.
            Ends-bind _ _ _
              (IsSafe-Ends (
                Moves-if locked _ _ (deadline_expired-Level t laws)
                  (Moves-pure Level-preorder false)))
              λ expired.
                Ends-if _ _ _
                  (λ _.
                    Ends-bind (λ _. IsSafe selected) _ _ (IsSafe-Ends (unlock_bus-Level t laws))
                      λ _. raise_timeout-Ends)
                  (λ _.
                    Ends-bind _ _ _
                      (Ends-from (λ s h. (h, tt)) (Ends-attempt _ (deassert_first-Ends uncertain)))
                      λ r. Ends-from (λ s h. h.1) (release-Ends locked r)))
