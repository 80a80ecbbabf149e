-- ===== src/Driver/Consistency/ReadBack.antt =====
-- The agreement that the read-back test comes to: it starts from a ready driver, whose conversions
-- are over, and makes it ready again only after the whole image is verified.
use max.Prelude.{ℕ, ◌≡◌, refl, ◌∙◌, ap, Bool, false, arith}
use max.Status.{Status, Result, ok, err, ready, restore_failed, combined_failure_detail}
use max.Driver.{Transport, Driver, Context}
use max.Driver.Action.{Step, lift, raise, on_status, modify_driver, ◌>>◌}
use max.Driver.Action.Moves.{Moves, Moves-both, Moves-attempt, moves_rules}
use max.Driver.Action.Ends.{
  Ends, Outcome, Ends-any, Ends-bind, Ends-from, Ends-gets, Ends-if, Ends-kept, Ends-lift,
  Ends-modify,
}
use max.Driver.Access.{read_registers_internal}
use max.Driver.Access.Rules.{read_registers_internal-rule, write_registers_internal-rule}
use max.Driver.Bus.{faulted}
use max.Driver.Clock.Rules.{now-rule, deadline_expired-rule}
use max.Driver.Bus.Rules.{frames_clock-rule}
use max.Driver.Clock.{raise_timeout}
use max.Driver.Requests.{require_ready, make_operation}
use max.Driver.Start.{request}
use max.Driver.Stop.{in_cleanup, expired_result}
use max.Driver.Stop.Rules.{expired_result-rule}
use max.Driver.Raw.{
  try_pattern, restore_saved, conclude_pattern, readback_body, register_readback_test,
}
use max.Driver.Consistency.{IsAgreed, Agrees, Agrees-frames, Agrees-cleanup, agrees_rules}
use max.Driver.Consistency.Flags.{
  IsQuiet, SameFlags, SameFlags-preorder, SameFlags-frames, SameFlags-IsQuiet, operation-SameFlags,
  verify-SameFlags, verify-known,
}
use max.Driver.Consistency.Requests.{make_operation-Agrees, finish-Agrees}
use max.Driver.Consistency.Cleanup.{
  kept-Agrees, IsKnown, lift-IsAgreed, in_cleanup-Ends, failed-IsAgreed,
}

abbrev IsSteady : {W : Type 0} → Context W → Type 0
IsSteady s = IsAgreed s × IsQuiet s

-- What a step keeps of a steady driver.
module _ {W A : Type 0} where
  IsSteady-kept :
      (m : Step W A)
      → Moves Agrees m
      → Moves SameFlags m
      → Ends IsSteady m (λ _. IsSteady) (λ _. IsAgreed)
  IsSteady-kept m h k =
      Ends-kept IsSteady m (Moves-both m h k)
        (λ s u r p. (r.0.kept p.0, SameFlags-IsQuiet s u r.1 p.1)) λ f u p. p.0

module _ {W : Type 0} (t : Transport W) where
  make_operation-SameFlags : (ms : ℕ) → Moves SameFlags (make_operation t ms)
  unfolding make_operation
  make_operation-SameFlags ms =
      search
        (
          moves_rules, SameFlags-preorder, now-rule, frames_clock-rule, SameFlags-frames,
          operation-SameFlags,
        )
        depth 20

  read-SameFlags : (address count : ℕ) → Moves SameFlags (read_registers_internal t address count)
  read-SameFlags address count = search (SameFlags-frames, read_registers_internal-rule)

  try_pattern-Agrees : (saved : ℕ) → Moves Agrees (try_pattern t saved)
  unfolding try_pattern
  try_pattern-Agrees saved =
      search (agrees_rules, read_registers_internal-rule, write_registers_internal-rule) depth 30

  try_pattern-SameFlags : (saved : ℕ) → Moves SameFlags (try_pattern t saved)
  unfolding try_pattern
  try_pattern-SameFlags saved =
      search
        (
          moves_rules, SameFlags-preorder, SameFlags-frames, read_registers_internal-rule,
          write_registers_internal-rule,
        )
        depth 30

  expired_result-SameFlags :
      (expired : Bool) (status : Status) → Moves SameFlags (expired_result t expired status)
  unfolding expired_result raise_timeout
  expired_result-SameFlags expired status =
      search (moves_rules, SameFlags-preorder, operation-SameFlags) depth 24

  restored-SameFlags :
      (expired : Bool) (saved : ℕ) → Moves SameFlags (in_cleanup t expired (restore_saved t saved))
  unfolding in_cleanup restore_saved
  restored-SameFlags expired saved =
      search
        (
          moves_rules, SameFlags-preorder, SameFlags-frames, operation-SameFlags,
          write_registers_internal-rule, verify-SameFlags,
        )
        depth 30

  restore_saved-IsKnown :
      (saved : ℕ) → Ends (λ _. Unit {0}) (restore_saved t saved) (λ _. IsKnown) (λ _ _. Unit {0})
  unfolding restore_saved
  restore_saved-IsKnown saved = Ends-bind (λ _ _. Unit {0}) _ _ (Ends-any _) λ _. verify-known t

-- What a cleanup that gave `r` leaves of a driver without a conversion.
abbrev IsRestored : {W : Type 0} → Status → Context W → Type 0
IsRestored r s = Outcome {A = Unit {0}} (λ _. IsKnown) (λ _ _. Unit {0}) r s × IsQuiet s

module _ {W : Type 0} where
  concluded-IsAgreed :
      (result cleanup : Status)
      → Ends {W = W} {A = Unit {0}}
          (IsRestored cleanup)
          (on_status cleanup
            (λ _. modify_driver (λ d. record d { state = ready }) >> lift result)
            λ c. do
              modify_driver faulted
              on_status result
                  (λ _. lift (err c))
                  λ f.
                    raise restore_failed "communication test and threshold restore both failed"
                      (combined_failure_detail f.code c.code))
          (λ _. IsAgreed)
          (λ _. IsAgreed)
  concluded-IsAgreed result (ok _) =
      Ends-bind (λ _. IsAgreed) _ _
        (Ends-modify _ λ s h. rw (h.0, h.1.continuous, h.1.armed, h.1.fresh) refl)
        λ _. lift-IsAgreed result
  concluded-IsAgreed result (err c) = Ends-from (λ s h. tt) (failed-IsAgreed _ result c)

  pairs :
      (r : Result Status) (s u : Context W)
      → SameFlags s u
      → IsQuiet s
      → Outcome
          (λ c v. Outcome {A = Unit {0}} (λ _. IsKnown) (λ _ _. Unit {0}) c v)
          (λ _. IsAgreed)
          r
          u
      → Outcome IsRestored (λ _. IsAgreed) r u
  pairs (ok c) s u k q h = (h, SameFlags-IsQuiet s u k q)
  pairs (err f) s u k q h = h

module _ {W : Type 0} (t : Transport W) where
  in_cleanup-IsRestored :
      (expired : Bool) (saved : ℕ)
      → Ends IsSteady (in_cleanup t expired (restore_saved t saved)) IsRestored (λ _. IsAgreed)
  in_cleanup-IsRestored expired saved = record {
    at = λ s p.
        pairs (in_cleanup t expired (restore_saved t saved) s).0 s _
          ((restored-SameFlags t expired saved).at s) p.1
          ((in_cleanup-Ends t expired (restore_saved t saved) (restore_saved-IsKnown t saved)
              (λ f s h. h)).at
            s tt);
  }

  conclude_pattern-IsAgreed :
      (saved : ℕ) (status : Status)
      → Ends IsSteady (conclude_pattern t saved status) (λ _. IsAgreed) (λ _. IsAgreed)
  unfolding conclude_pattern
  conclude_pattern-IsAgreed saved status =
      Ends-bind (λ _. IsSteady) _ _
        (IsSteady-kept _ (deadline_expired-rule (Agrees-frames t).clock)
          (deadline_expired-rule (SameFlags-frames t).clock))
        λ expired.
          Ends-bind (λ _. IsSteady) _ _
            (IsSteady-kept _
              (Moves-attempt _ (expired_result-rule (Agrees-cleanup t) expired status))
              (Moves-attempt _ (expired_result-SameFlags t expired status)))
            λ result.
              Ends-bind IsRestored _ _ (in_cleanup-IsRestored expired saved)
                (concluded-IsAgreed result)

  readback_body-IsAgreed : Ends IsSteady (readback_body t) (λ _. IsAgreed) (λ _. IsAgreed)
  unfolding readback_body
  readback_body-IsAgreed =
      Ends-bind (λ _. IsSteady) _ _
        (IsSteady-kept _ (search (agrees_rules, read_registers_internal-rule))
          (read-SameFlags t _ _))
        λ bytes.
          Ends-bind (λ _. IsSteady) _ _
            (IsSteady-kept _ (try_pattern-Agrees t _) (try_pattern-SameFlags t _))
            λ tried.
              Ends-bind (λ _. IsAgreed) _ _
                (Ends-if (tried.0) _ _ (λ _. conclude_pattern-IsAgreed _ _)
                  λ _. Ends-from (λ s h. h.0) (lift-IsAgreed _))
                λ _. lift-IsAgreed (tried.1)

-- A ready driver that agrees with what it knows runs no conversion.
ready-IsSteady :
    {W : Type 0} (a : Unit {0}) (s : Context W)
    → IsAgreed s
    → require_ready s.driver ≡ ok a
    → IsSteady s
unfolding require_ready
ready-IsSteady a s h e = ground arith

module _ {W : Type 0} where
  guarded :
      (d : Driver) (r : Status) (s : Context W)
      → IsAgreed s
      → s.driver ≡ d
      → require_ready d ≡ r
      → Outcome {A = Unit {0}} (λ _. IsSteady) (λ _. IsAgreed) r s
  guarded d (ok a) s h e k = ready-IsSteady a s h (ap require_ready e ∙ k)
  guarded d (err f) s h e k = h

  lifted :
      (r : Status) (s : Context W)
      → IsSteady s
      → Outcome {A = Unit {0}} (λ _. IsSteady) (λ _. IsAgreed) r s
  lifted (ok a) s h = h
  lifted (err f) s h = h.0

module _ {W : Type 0} (t : Transport W) where
  readback_request-IsAgreed :
      (timeout_ms : ℕ)
      → Ends IsAgreed
          (request t require_ready timeout_ms false (readback_body t))
          (λ _. IsAgreed)
          (λ _. IsAgreed)
  unfolding request
  readback_request-IsAgreed timeout_ms =
      Ends-bind (λ _. IsAgreed) _ _ (Ends-modify _ λ s h. h)
        λ _. Ends-gets _ _ λ d.
          Ends-bind (λ _. IsSteady) _ _ (Ends-lift _ λ s h. guarded d _ s h.0 h.1 refl)
            λ _.
              Ends-bind (λ _. IsSteady) _ _ (Ends-lift _ (lifted _))
                λ _.
                  Ends-bind (λ _. IsSteady) _ _
                    (IsSteady-kept _ (make_operation-Agrees t _) (make_operation-SameFlags t _))
                    λ _. readback_body-IsAgreed t

  pub register_readback_test-Agrees :
      (timeout_ms : ℕ) → Moves Agrees (register_readback_test t timeout_ms)
  unfolding register_readback_test
  register_readback_test-Agrees timeout_ms =
      finish-Agrees _ _ (kept-Agrees _ (readback_request-IsAgreed timeout_ms))
