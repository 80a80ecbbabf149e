-- ===== src/Driver/Consistency/Cleanup.antt =====
-- How an operation that cleans up after itself comes to agreement, and the fault detection that
-- does so.
use max.Prelude.{ℕ, ◌≡◌, refl, Bool, true, String, ◌==◌}
use max.Status.{Failure, Status, Result, ok, err, combined_failure_detail, restore_failed}
use max.Driver.{Transport, Operation, Context}
use max.Driver.Action.{Step, lift, raise, on_status, modify_driver, ◌>>◌}
use max.Driver.Action.Moves.{Moves, Moves-bind, Moves-attempt, Moves-pure}
use max.Driver.Action.Ends.{
  Ends, Outcome, Ends-any, Ends-attempt, Ends-attempted, Ends-bind, Ends-from, Ends-gets, Ends-if,
  Ends-lift, Ends-modify, Ends-on_status, Ends-pure,
}
use max.Driver.Bus.{faulted}
use max.Driver.Apply.{configured}
use max.Driver.Clock.{now_ms, deadline_expired, merge_timeout_observations}
use max.Driver.Stop.{in_cleanup}
use max.Driver.Clock.Rules.{sleep_within_deadline-rule}
use max.Driver.Conversions.Rules.{read_fault_status_internal-rule}
use max.Driver.Stop.Rules.{write_runtime_config-rule, clear_faults_internal-rule}
use max.Driver.FaultCycle.Rules.{wait_for_fault_cycle-rule, complete_manual_cycle-rule}
use max.Driver.Detection.{
  restore_image, conclude_cycle, run_cycle, detect_faults, automatic_commands, manual_commands,
  finish_output, read_fault_status, automatic_request, run_automatic_fault_detection,
  run_manual_fault_detection,
}
use max.Driver.Consistency.Requests.{
  reset-Agrees, make_operation-Agrees, request-Agrees, finished-Agrees,
}
use max.Driver.Consistency.{IsAgreed, Agrees, Agrees-preorder, agrees_rules}
use max.Driver.Consistency.Flags.{verify-known}

module _ {W A : Type 0} where
  either :
      (r : Result A) (u : Context W)
      → Outcome {W = W} {A = A} (λ _. IsAgreed) (λ _. IsAgreed) r u
      → IsAgreed u
  either (ok _) u h = h
  either (err _) u h = h

  both :
      (r : Result A) (u : Context W)
      → IsAgreed u
      → Outcome {W = W} {A = A} (λ _. IsAgreed) (λ _. IsAgreed) r u
  both (ok _) u h = h
  both (err _) u h = h

  -- A step that ends in agreement, wherever it starts, keeps it; and one that keeps it ends in it.
  pub ends-Agrees :
      (m : Step W A) → Ends (λ _. Unit {0}) m (λ _. IsAgreed) (λ _. IsAgreed) → Moves Agrees m
  ends-Agrees m h = record { at = λ s. record { kept = λ _. either (m s).0 _ (h.at s tt) } }

  pub Agrees-ends :
      (m : Step W A) → Moves Agrees m → Ends IsAgreed m (λ _. IsAgreed) (λ _. IsAgreed)
  Agrees-ends m h = record { at = λ s p. both (m s).0 _ ((h.at s).kept p) }

  pub kept-Agrees :
      (m : Step W A) → Ends IsAgreed m (λ _. IsAgreed) (λ _. IsAgreed) → Moves Agrees m
  kept-Agrees m h = record { at = λ s. record { kept = λ p. either (m s).0 _ (h.at s p) } }

  pub lift-IsAgreed :
      (r : Result A) → Ends {W = W} IsAgreed (lift r) (λ _. IsAgreed) (λ _. IsAgreed)
  lift-IsAgreed r = Ends-lift r λ s h. both r s h

module _ {W : Type 0} (t : Transport W) {E : Failure → Context W → Type 0} where
  now-Ends : {P : Context W → Type 0} → Ends P (now_ms t) (λ _ _. Unit {0}) E
  unfolding now_ms
  now-Ends = record { at = λ s p. tt }

  pub expired-Ends : Ends (λ _. Unit {0}) (deadline_expired t) (λ _ _. Unit {0}) E
  unfolding deadline_expired
  expired-Ends = Ends-gets _ _ λ o.
      Ends-if (o.timeout_ms == 0) _ _ (λ _. Ends-pure _ λ s p. tt)
        λ _. Ends-bind (λ _ _. Unit {0}) _ _ now-Ends λ now. Ends-pure _ λ s p. tt

abbrev pub IsKnown : {W : Type 0} → Context W → Type 0
IsKnown u = u.driver.configuration_known ≡ true

module _ {W : Type 0} (t : Transport W) where
  restore_image-IsKnown : Ends (λ _. Unit {0}) (restore_image t) (λ _. IsKnown) (λ _ _. Unit {0})
  unfolding restore_image
  restore_image-IsKnown =
      Ends-bind (λ _ _. Unit {0}) _ _ (Ends-any _)
        λ _.
          Ends-bind (λ _ _. Unit {0}) _ _ (Ends-any _)
            λ d.
              Ends-bind (λ _ _. Unit {0}) _ _ (Ends-any _)
                λ _. Ends-bind (λ _ _. Unit {0}) _ _ (Ends-any _) λ _. verify-known t

  -- A cleanup that succeeds leaves what its steps do.
  pub in_cleanup-Ends :
      {Q : Context W → Type 0} {E : Failure → Context W → Type 0} (expired : Bool)
      (m : Step W (Unit {0}))
      → Ends (λ _. Unit {0}) m (λ _. Q) (λ _ _. Unit {0})
      → ((f : Operation → Operation) (s : Context W)
          → Q s
          → Q (record s { operation = f s.operation }))
      → Ends
          (λ _. Unit {0})
          (in_cleanup t expired m)
          (λ r s. Outcome {A = Unit {0}} (λ _. Q) (λ _ _. Unit {0}) r s)
          E
  unfolding in_cleanup
  in_cleanup-Ends {Q} expired m h k = Ends-gets _ _ λ o.
      Ends-bind (λ _ _. Unit {0} × Unit {0}) _ _ (Ends-modify _ λ s p. (tt, tt))
        λ _.
          Ends-bind (λ r s. Unit {0} × Outcome {A = Unit {0}} (λ _. Q) (λ _ _. Unit {0}) r s) _ _
            (Ends-attempt m h)
            λ r.
              Ends-bind (λ _ s. Outcome {A = Unit {0}} (λ _. Q) (λ _ _. Unit {0}) r s) _ _
                (Ends-modify _ λ s p. moved o r s p.1) λ _. Ends-pure r λ s p. p
    where
      moved :
          (o : Operation) (r : Status) (s : Context W)
          → Outcome {A = Unit {0}} (λ _. Q) (λ _ _. Unit {0}) r s
          → Outcome {A = Unit {0}}
              (λ _. Q)
              (λ _ _. Unit {0})
              r
              (record s { operation = merge_timeout_observations o s.operation })
      moved o (ok _) s q = k (merge_timeout_observations o) s q
      moved o (err _) s q = tt

module _ {W : Type 0} where
  -- The result of a failed cleanup, after the driver has gone into its fault state.
  pub failed-IsAgreed :
      (message : String) (result : Status) (c : Failure)
      → Ends {W = W} {A = Unit {0}}
          (λ _. Unit {0})
          (do
            modify_driver faulted
            on_status result
                (λ _. lift (err c))
                λ f. raise restore_failed message (combined_failure_detail f.code c.code))
          (λ _ u. IsAgreed u)
          (λ _. IsAgreed)
  failed-IsAgreed message result c =
      Ends-bind (λ _. IsAgreed) _ _ (Ends-modify _ λ s h. refl)
        λ _. Ends-on_status result _ _ (λ _ _. lift-IsAgreed (err c)) λ f _. lift-IsAgreed _

  concluded-IsAgreed :
      (message : String) (result cleanup : Status)
      → Ends {W = W} {A = Unit {0}}
          (λ s. Outcome {A = Unit {0}} (λ _. IsKnown) (λ _ _. Unit {0}) cleanup s)
          (on_status cleanup
            (λ _. modify_driver configured >> lift result)
            λ c. do
              modify_driver faulted
              on_status result
                  (λ _. lift (err c))
                  λ f. raise restore_failed message (combined_failure_detail f.code c.code))
          (λ _. IsAgreed)
          (λ _. IsAgreed)
  concluded-IsAgreed message result (ok _) =
      Ends-bind (λ _. IsAgreed) _ _ (Ends-modify _ λ s h. rw h refl) λ _. lift-IsAgreed result
  concluded-IsAgreed message result (err c) =
      Ends-from (λ s h. tt) (failed-IsAgreed message result c)

module _ {W : Type 0} (t : Transport W) where
  conclude_cycle-Agrees :
      (message : String) (status : Status) → Moves Agrees (conclude_cycle t message status)
  unfolding conclude_cycle
  conclude_cycle-Agrees message status = ends-Agrees _ (
      Ends-bind (λ _ _. Unit {0}) _ _ (expired-Ends t)
        λ expired.
          Ends-bind (λ _ _. Unit {0}) _ _ (Ends-attempted _)
            λ result.
              Ends-bind _ _ _
                (in_cleanup-Ends t expired (restore_image t) (restore_image-IsKnown t) λ f s h. h)
                (concluded-IsAgreed message result))

  run_cycle-Agrees :
      (biased : Status) (commands : Step W (Unit {0}))
      → Moves Agrees commands
      → Moves Agrees (run_cycle t biased commands)
  unfolding run_cycle
  run_cycle-Agrees biased commands h =
      search
        (
          agrees_rules, sleep_within_deadline-rule, wait_for_fault_cycle-rule,
          read_fault_status_internal-rule,
        )
        depth 30

  detect_faults-Agrees :
      (message : String) (commands : Step W (Unit {0}))
      → Moves Agrees commands
      → Moves Agrees (detect_faults t message commands)
  unfolding detect_faults
  detect_faults-Agrees message commands h =
      search
        (
          agrees_rules, clear_faults_internal-rule, write_runtime_config-rule, run_cycle-Agrees,
          conclude_cycle-Agrees,
        )
        depth 30

  automatic-Agrees : Moves Agrees (automatic_commands t)
  unfolding automatic_commands
  automatic-Agrees =
      search (agrees_rules, sleep_within_deadline-rule, write_runtime_config-rule) depth 30

  manual-Agrees : Moves Agrees (manual_commands t)
  unfolding manual_commands
  manual-Agrees =
      search (agrees_rules, complete_manual_cycle-rule, write_runtime_config-rule) depth 30

  finish_output-Agrees :
      {A : Type 0} (initial : A) (m : Step W (A × Status))
      → Moves Agrees m
      → Moves Agrees (finish_output initial m)
  finish_output-Agrees initial m h = Moves-bind Agrees-preorder _ _ (Moves-attempt m h) λ outcome.
      Moves-bind Agrees-preorder _ _ (finished-Agrees _ _) λ _. Moves-pure Agrees-preorder _

  pub read_fault_status-Agrees : (timeout_ms : ℕ) → Moves Agrees (read_fault_status t timeout_ms)
  unfolding read_fault_status
  read_fault_status-Agrees timeout_ms =
      search (agrees_rules, finish_output-Agrees, request-Agrees, read_fault_status_internal-rule)
        depth 30

  pub run_automatic_fault_detection-Agrees :
      (timeout_ms : ℕ) → Moves Agrees (run_automatic_fault_detection t timeout_ms)
  unfolding run_automatic_fault_detection automatic_request
  run_automatic_fault_detection-Agrees timeout_ms =
      search
        (
          agrees_rules, finish_output-Agrees, reset-Agrees, make_operation-Agrees,
          detect_faults-Agrees, automatic-Agrees,
        )
        depth 30

  pub run_manual_fault_detection-Agrees :
      (timeout_ms : ℕ) → Moves Agrees (run_manual_fault_detection t timeout_ms)
  unfolding run_manual_fault_detection
  run_manual_fault_detection-Agrees timeout_ms =
      search
        (agrees_rules, finish_output-Agrees, request-Agrees, detect_faults-Agrees, manual-Agrees)
        depth 30
