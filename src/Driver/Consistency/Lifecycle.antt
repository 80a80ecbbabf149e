-- ===== src/Driver/Consistency/Lifecycle.antt =====
-- The agreement that `begin`, `recover` and a probe come to.
use max.Prelude.{ℕ, ◌≡◌, refl, Bool, true, false, if◌then◌else◌}
use max.Status.{Failure, Status, Result, ok, err}
use max.Config.{DeviceConfig}
use max.Driver.{Transport, Driver, Context}
use max.Driver.Action.{Step, lift, attempt, on_status, modify_driver, ◌>>=◌, ◌>>◌}
use max.Driver.Action.Moves.{Moves, Moves-bind, Moves-lift, Moves-modify, Moves-read}
use max.Driver.Access.Rules.{read_persistent_image-rule, read_registers_internal-rule}
use max.Driver.Action.Ends.{
  Ends, Outcome, Ends-any, Ends-attempt, Ends-attempted, Ends-bind, Ends-from, Ends-gets, Ends-kept,
  Ends-modify,
}
use max.Driver.Bus.{faulted}
use max.Driver.Apply.Outcomes.{IsConfigured, IsRetained, apply_configuration_internal-Ends}
use max.Driver.Apply.{apply_configuration_internal}
use max.Driver.Stop.Rules.{fault-rule}
use max.Driver.Probe.{probe, read_untracked, read_device}
use max.Driver.Binding.{BeginConfig}
use max.Driver.Lifecycle.{
  begun, recovered, restored, refused_with, provably_unchanged, refuse, bring_up, begin_bound,
  begin, recover_failed, recover_request, recover, recover_device,
}
use max.Driver.Consistency.{
  IsAgreed, is_consistent, Agrees, Agrees-preorder, agrees_rules, counted-Agrees,
}
use max.Driver.Consistency.Flags.{
  IsQuiet, SameFlags-IsQuiet, clear_faults-SameFlags, verify-SameFlags,
}
use max.Driver.Consistency.Requests.{make_operation-Agrees, reset-Agrees, finish-Agrees}
use max.Driver.Consistency.Cleanup.{ends-Agrees, lift-IsAgreed}

module _ {W : Type 0} where
  nothing : (f : Failure) (u : Context W) → IsQuiet u → Unit {0}
  nothing f u q = tt

  configured-IsQuiet : (config : DeviceConfig) (u : Context W) → IsConfigured config u → IsQuiet u
  configured-IsQuiet config u h = record {
    continuous = rw (h.idle) refl;
    armed = rw (h.idle) refl;
    fresh = rw (h.idle) refl;
  }

  applied-IsQuiet :
      (config : DeviceConfig) (r : Result (Unit {0})) (s u : Context W)
      → Outcome (λ _. IsConfigured config) (λ _. IsRetained s) r u
      → Outcome (λ _. IsQuiet) (λ _ _. Unit {0}) r u
  applied-IsQuiet config (ok _) s u h = configured-IsQuiet config u h
  applied-IsQuiet config (err _) s u h = tt

  begun_agreed : (u : Context W) → IsQuiet u → is_consistent (begun u.driver) ≡ true
  begun_agreed u q = rw (q.continuous, q.armed, q.fresh) refl

module _ {W : Type 0} (t : Transport W) where
  apply-IsQuiet :
      (config : DeviceConfig)
      → Ends
          (λ _. Unit {0})
          (apply_configuration_internal t config)
          (λ _. IsQuiet)
          (λ _ _. Unit {0})
  apply-IsQuiet config = record {
    at = λ s _.
        applied-IsQuiet config (apply_configuration_internal t config s).0 s _
          (apply_configuration_internal-Ends t config s);
  }

  -- A device that was brought up runs no conversion.
  bring_up-IsQuiet :
      (config : BeginConfig)
      → Ends (λ _. Unit {0}) (bring_up t config) (λ _. IsQuiet) (λ _ _. Unit {0})
  unfolding bring_up
  bring_up-IsQuiet config =
      Ends-bind (λ _ _. Unit {0}) _ _ (Ends-any _)
        λ _.
          Ends-bind (λ _ _. Unit {0}) _ _ (Ends-any _)
            λ _.
              Ends-bind (λ _ _. Unit {0}) _ _ (Ends-any _)
                λ _.
                  Ends-bind (λ _ _. Unit {0}) _ _ (Ends-any _)
                    λ _.
                      Ends-bind (λ _ _. Unit {0}) _ _ (Ends-any _)
                        λ d. Ends-bind _ _ _ (apply-IsQuiet d.desired) λ _.
                          Ends-bind _ _ _
                            (Ends-kept IsQuiet _ (clear_faults-SameFlags t) SameFlags-IsQuiet
                              nothing)
                            λ _. Ends-kept IsQuiet _ (verify-SameFlags t) SameFlags-IsQuiet nothing

  begun-Ends :
      (status : Status)
      → Ends
          (λ s. Outcome {W = W} {A = Unit {0}} (λ _. IsQuiet) (λ _ _. Unit {0}) status s)
          (on_status status (λ _. modify_driver begun) λ f. modify_driver faulted >> lift (err f))
          (λ _. IsAgreed)
          (λ _. IsAgreed)
  begun-Ends (ok _) = Ends-modify _ begun_agreed
  begun-Ends (err f) =
      Ends-bind (λ _. IsAgreed) _ _ (Ends-modify _ λ s h. refl) λ _. lift-IsAgreed _

  begin_bound-Agrees : (config : BeginConfig) → Moves Agrees (begin_bound t config)
  unfolding begin_bound
  begin_bound-Agrees config = ends-Agrees _ (
      Ends-bind (λ _ _. Unit {0}) _ _ (Ends-modify _ λ s h. tt)
        λ _.
          Ends-bind (λ _ _. Unit {0} × Unit {0}) _ _ (Ends-modify _ λ s h. (tt, tt))
            λ _.
              Ends-bind _ _ _ (Ends-attempt _ (bring_up-IsQuiet config))
                λ status. Ends-from (λ s h. h.1) (begun-Ends status))

  refuse-Agrees : (status : Status) → Moves Agrees (refuse t status)
  unfolding refuse
  refuse-Agrees status = search (agrees_rules, refused-Agrees) depth 20
    where
      refused-Agrees :
          (status : Status) → Moves (Agrees {W = W}) (modify_driver (refused_with status))
      refused-Agrees status = Moves-modify _ λ s. record { kept = λ h. h }

  pub begin-Agrees : (config : BeginConfig) → Moves Agrees (begin t config)
  unfolding begin
  begin-Agrees config =
      search (agrees_rules, refuse-Agrees, finish-Agrees, begin_bound-Agrees) depth 30

  -- A failed recovery goes back to the driver that it started from, or to the fault state.
  recover_failed-Ends :
      (baseline : Driver) (f : Failure)
      → is_consistent baseline ≡ true
      → Ends (λ _. Unit {0}) (recover_failed t baseline f) (λ _. IsAgreed) (λ _. IsAgreed)
  unfolding recover_failed
  recover_failed-Ends baseline f h = Ends-gets _ _ λ o.
      Ends-bind (λ _. IsAgreed) _ _
        (Ends-modify _ λ s p. chosen (provably_unchanged baseline o f) s.driver)
        λ _. lift-IsAgreed _
    where
      chosen :
          (b : Bool) (d : Driver)
          → is_consistent ((if b then restored baseline else faulted) d) ≡ true
      chosen true d = h
      chosen false d = refl

  recovered-Ends :
      (baseline : Driver) (status : Status)
      → is_consistent baseline ≡ true
      → Ends
          (λ _. Unit {0})
          (on_status status (λ _. modify_driver recovered) (recover_failed t baseline))
          (λ _. IsAgreed)
          (λ _. IsAgreed)
  recovered-Ends baseline (ok _) h = Ends-modify _ λ s p. refl
  recovered-Ends baseline (err f) h = recover_failed-Ends baseline f h

  abbrev settled : Context W → Step W (Unit {0})
  settled s = attempt (recover_device t) >>= λ status.
      on_status status (λ _. modify_driver recovered) (recover_failed t s.driver)

  from_baseline : (s : Context W) → Agrees s (settled s s).1
  from_baseline s = record { kept = λ h. ((ends-Agrees _ (ends h)).at s).kept h }
    where
      ends :
          is_consistent s.driver ≡ true
          → Ends (λ _. Unit {0}) (settled s) (λ _. IsAgreed) (λ _. IsAgreed)
      ends h =
          Ends-bind (λ _ _. Unit {0}) _ _ (Ends-attempted _)
            λ status. recovered-Ends s.driver status h

  recover_request-Agrees : (timeout_ms : ℕ) → Moves Agrees (recover_request t timeout_ms)
  unfolding recover_request
  recover_request-Agrees timeout_ms =
      let p = Agrees-preorder in
      Moves-bind p _ _ (reset-Agrees _) λ _.
        Moves-bind p _ _ (Moves-lift p _) λ _.
          Moves-bind p _ _ (make_operation-Agrees t timeout_ms) λ _. Moves-read _ _ from_baseline

  pub recover-Agrees : (timeout_ms : ℕ) → Moves Agrees (recover t timeout_ms)
  unfolding recover
  recover-Agrees timeout_ms =
      search (agrees_rules, refuse-Agrees, finish-Agrees, recover_request-Agrees) depth 30

  read_device-Agrees : Moves Agrees (read_device t)
  unfolding read_device
  read_device-Agrees =
      search (agrees_rules, read_persistent_image-rule, read_registers_internal-rule) depth 30

  pub probe-Agrees : (timeout_ms : ℕ) → Moves Agrees (probe t timeout_ms)
  unfolding probe read_untracked
  probe-Agrees timeout_ms =
      search (agrees_rules, counted-Agrees, fault-rule, make_operation-Agrees, read_device-Agrees)
        depth 30
