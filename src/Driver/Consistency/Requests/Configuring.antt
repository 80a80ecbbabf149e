-- ===== src/Driver/Consistency/Requests/Configuring.antt =====
-- The requests that configure the device, read its registers or its faults keep the agreement.
use max.Prelude.{ℕ, ◌≡◌, refl, Bool}
use max.Status.{Status, ok, err}
use max.Config.{DeviceConfig, FaultThresholds}
use max.Config.Bytes.{ThresholdBytes}
use max.Driver.{Transport, Context}
use max.Driver.Action.{lift, modify_driver, on_status, ◌>>◌}
use max.Driver.Action.Moves.{Moves}
use max.Driver.Action.Ends.{
  Ends, Outcome, Ends-gets, Ends-bind, Ends-modify, Ends-lift, Ends-attempt,
}
use max.Driver.Bus.{faulted}
use max.Driver.Access.Rules.{read_registers_internal-rule, write_registers_internal-rule}
use max.Driver.Apply.{configured, adopt, write_configuration, apply_configuration_internal}
use max.Driver.Apply.Outcomes.{IsVerified, verify-Ends}
use max.Driver.Requests.{apply_request, apply_configuration, apply_changed}
use max.Driver.Stop.Rules.{fault-rule, clear_faults_internal-rule}
use max.Driver.Detection.{
  thresholds_request, set_fault_thresholds_raw, clear_faults, read_thresholds,
  read_fault_thresholds_raw,
}
use max.Driver.Raw.{
  restore_writable_defaults, write_candidate, write_register, write_verified_request,
  write_register_verified, read_registers_request, read_registers, read_register_request,
  read_register, dump_request, dump_registers,
}
use max.Driver.Consistency.{IsAgreed, Agrees, agrees_rules}
use max.Driver.Consistency.Requests.{
  reset-Agrees, make_operation-Agrees, finish-Agrees, request-Agrees,
}

module _ {W : Type 0} where
  either :
      (r : Status) (u : Context W)
      → Outcome {W = W} {A = Unit {0}} (λ _. IsAgreed) (λ _. IsAgreed) r u
      → IsAgreed u
  either (ok _) u h = h
  either (err _) u h = h

  -- The end of an adoption whose verification gave `r`.
  adopted-Ends :
      (config previous : DeviceConfig) (r : Status)
      → Ends {W = W}
          (λ s. Unit {0} × Outcome (λ _. IsVerified config) (λ _ u. u.driver.desired ≡ config) r s)
          (on_status r
            (λ _. modify_driver configured)
            λ f. do modify_driver (λ d. faulted (record d { desired = previous })); lift (err f))
          (λ _. IsAgreed)
          (λ _. IsAgreed)
  adopted-Ends config previous (ok _) = Ends-modify _ λ s h. rw (h.1.known) refl
  adopted-Ends config previous (err f) =
      Ends-bind (λ _. IsAgreed) _ _ (Ends-modify _ λ s h. refl) λ _. Ends-lift _ λ s h. h

module _ {W : Type 0} (t : Transport W) where
  -- Adopting a configuration ends in agreement, wherever it starts.
  adopt-Ends :
      (config : DeviceConfig)
      → Ends (λ _. Unit {0}) (adopt t config) (λ _. IsAgreed) (λ _. IsAgreed)
  unfolding adopt
  adopt-Ends config = Ends-gets _ _ λ previous.
      Ends-bind (λ _ s. (s.driver.desired ≡ config) × Unit {0}) _ _
        (Ends-modify _ λ s h. (refl, tt))
        λ _.
          Ends-bind
            (λ r s.
              Unit {0} × Outcome (λ _. IsVerified config) (λ _ u. u.driver.desired ≡ config) r s)
            _ _ (Ends-attempt _ (verify-Ends t config)) (adopted-Ends config previous)

  adopt-Agrees : (config : DeviceConfig) → Moves Agrees (adopt t config)
  adopt-Agrees config = record {
    at = λ s. record { kept = λ h. either (adopt t config s).0 _ ((adopt-Ends config).at s tt) };
  }

  write_configuration-Agrees :
      (config : DeviceConfig) (th : ThresholdBytes) → Moves Agrees (write_configuration t config th)
  unfolding write_configuration
  write_configuration-Agrees config th =
      search (agrees_rules, fault-rule, write_registers_internal-rule) depth 30

  pub apply_configuration_internal-Agrees :
      (config : DeviceConfig) → Moves Agrees (apply_configuration_internal t config)
  unfolding apply_configuration_internal
  apply_configuration_internal-Agrees config =
      search (agrees_rules, write_configuration-Agrees, adopt-Agrees) depth 30

  pub apply_configuration-Agrees :
      (config : DeviceConfig) (timeout_ms : ℕ)
      → Moves Agrees (apply_configuration t config timeout_ms)
  unfolding apply_configuration apply_request
  apply_configuration-Agrees config timeout_ms =
      search
        (
          agrees_rules, finish-Agrees, reset-Agrees, make_operation-Agrees,
          apply_configuration_internal-Agrees,
        )
        depth 30

  pub apply_changed-Agrees :
      (change : DeviceConfig → DeviceConfig) (timeout_ms : ℕ)
      → Moves Agrees (apply_changed t change timeout_ms)
  unfolding apply_changed
  apply_changed-Agrees change timeout_ms =
      search (agrees_rules, apply_configuration-Agrees) depth 10

  pub set_fault_thresholds_raw-Agrees :
      (thresholds : FaultThresholds) (timeout_ms : ℕ)
      → Moves Agrees (set_fault_thresholds_raw t thresholds timeout_ms)
  unfolding set_fault_thresholds_raw thresholds_request
  set_fault_thresholds_raw-Agrees thresholds timeout_ms =
      search
        (
          agrees_rules, finish-Agrees, reset-Agrees, make_operation-Agrees,
          apply_configuration_internal-Agrees,
        )
        depth 30

  pub clear_faults-Agrees : (timeout_ms : ℕ) → Moves Agrees (clear_faults t timeout_ms)
  unfolding clear_faults
  clear_faults-Agrees timeout_ms =
      search (agrees_rules, finish-Agrees, request-Agrees, clear_faults_internal-rule) depth 30

  pub restore_writable_defaults-Agrees :
      (timeout_ms : ℕ) → Moves Agrees (restore_writable_defaults t timeout_ms)
  unfolding restore_writable_defaults
  restore_writable_defaults-Agrees timeout_ms =
      search
        (
          agrees_rules, finish-Agrees, request-Agrees, clear_faults_internal-rule,
          apply_configuration_internal-Agrees,
        )
        depth 30

  -- A raw write goes through the configuration engine.
  write_candidate-Agrees :
      (address value timeout_ms : ℕ) → Moves Agrees (write_candidate t address value timeout_ms)
  unfolding write_candidate
  write_candidate-Agrees address value timeout_ms =
      search
        (agrees_rules, reset-Agrees, make_operation-Agrees, apply_configuration_internal-Agrees)
        depth 30

  pub write_register-Agrees :
      (address value timeout_ms : ℕ) → Moves Agrees (write_register t address value timeout_ms)
  unfolding write_register
  write_register-Agrees address value timeout_ms = search (finish-Agrees, write_candidate-Agrees)

  pub write_register_verified-Agrees :
      (address value timeout_ms : ℕ)
      → Moves Agrees (write_register_verified t address value timeout_ms)
  unfolding write_register_verified write_verified_request
  write_register_verified-Agrees address value timeout_ms =
      search
        (
          agrees_rules, finish-Agrees, write_candidate-Agrees, fault-rule,
          read_registers_internal-rule,
        )
        depth 30

  pub read_registers-Agrees :
      (start_address : ℕ) (has_out : Bool) (length timeout_ms : ℕ)
      → Moves Agrees (read_registers t start_address has_out length timeout_ms)
  unfolding read_registers read_registers_request
  read_registers-Agrees start_address has_out length timeout_ms =
      search
        (
          agrees_rules, finish-Agrees, reset-Agrees, make_operation-Agrees,
          read_registers_internal-rule,
        )
        depth 30

  pub read_register-Agrees :
      (address timeout_ms : ℕ) → Moves Agrees (read_register t address timeout_ms)
  unfolding read_register read_register_request
  read_register-Agrees address timeout_ms =
      search
        (
          agrees_rules, finish-Agrees, reset-Agrees, make_operation-Agrees,
          read_registers_internal-rule,
        )
        depth 30

  pub dump_registers-Agrees :
      (has_out : Bool) (capacity timeout_ms : ℕ)
      → Moves Agrees (dump_registers t has_out capacity timeout_ms)
  unfolding dump_registers dump_request
  dump_registers-Agrees has_out capacity timeout_ms =
      search
        (
          agrees_rules, finish-Agrees, reset-Agrees, make_operation-Agrees,
          read_registers_internal-rule,
        )
        depth 30

  pub read_fault_thresholds_raw-Agrees :
      (timeout_ms : ℕ) → Moves Agrees (read_fault_thresholds_raw t timeout_ms)
  unfolding read_fault_thresholds_raw read_thresholds
  read_fault_thresholds_raw-Agrees timeout_ms =
      search (agrees_rules, finish-Agrees, request-Agrees, read_registers_internal-rule) depth 30
