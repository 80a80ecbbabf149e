-- ===== src/Driver/Lifecycle/Verified.antt =====
-- The registers after a recovery: what its writes leave of the verified image
-- (src/MAX31865.cpp, `recover`).
use max.Prelude.{◌≡◌, refl, sym, ◌∙◌, subst, ℕ, false, not, arith}
use max.Status.{ok, err, Status, success}
use max.Commands.{config_fault_clear}
use max.Config.{DeviceConfig, persistent_config_byte, persistent_byte_matches}
use max.Config.Bytes.{Image, ThresholdBytes, encode_thresholds, verify_byte, verify_image}
use max.Driver.{Transport, Context, Registers}
use max.Driver.Action.Ends.{
  Ends, Outcome, Ends-any, Ends-attempt_kept, Ends-bind, Ends-failing, Ends-from, Ends-gets,
  Ends-gives, Ends-given, Ends-if, Ends-lift, Ends-modify, Ends-on_status,
}
use max.Driver.Bus.Quiet.{Quiet, Quiet-frames}
use max.Driver.Access.Rules.{write_registers_internal-rule}
use max.Driver.Apply.{
  config_written, valid_command_bits, write_runtime_config, apply_configuration_internal,
  clear_faults_internal,
}
use max.Driver.Apply.Outcomes.{
  observed_image, IsConfigured, IsRetained, apply_configuration_internal-Ends,
}
use max.Driver.Lifecycle.{recover_device}

-- An image that passed, with its CONFIG byte the one that is asked for, passes again.
rewritten :
    (config : ℕ) (thresholds : ThresholdBytes) (actual : Image)
    → verify_image (record { config = config; thresholds = thresholds }) actual ≡ success
    → verify_image
        (record { config = config; thresholds = thresholds })
        (record actual { config = config })
      ≡ success
unfolding verify_image verify_byte persistent_byte_matches
rewritten config thresholds actual h = ground arith

-- The observed registers agree with the image of the desired configuration.
pub record HasImage {W : Type 0} (config : DeviceConfig) (u : Context W) : Type 0 where
  pub desired : u.driver.desired ≡ config
  pub expected : ThresholdBytes
  pub encoded : encode_thresholds config ≡ ok expected
  pub verified :
      verify_image
        (record {
          config = persistent_config_byte config config.bias_enabled false;
          thresholds = expected;
        })
        (observed_image u.driver.observed)
      ≡ success

-- And the record of the fault status is forgotten.
pub record IsCleared {W : Type 0} (u : Context W) : Type 0 where
  pub image : HasImage u.driver.desired u
  pub forgotten : u.driver.stamps.has_last_fault_status ≡ false

module _ {W : Type 0} where
  Quiet-HasImage :
      (config : DeviceConfig) (s u : Context W) → Quiet s u → HasImage config s → HasImage config u
  Quiet-HasImage config s u q h = record {
    desired = q.desired ∙ h.desired;
    expected = h.expected;
    encoded = h.encoded;
    verified = subst (is_verified h.expected) (sym q.observed) h.verified;
  }
    where
      is_verified : ThresholdBytes → Registers → Type 0
      is_verified th r =
          verify_image
            (record {
              config = persistent_config_byte config config.bias_enabled false;
              thresholds = th;
            })
            (observed_image r)
          ≡ success

  IsConfigured-HasImage :
      (config : DeviceConfig) (u : Context W) → IsConfigured config u → HasImage config u
  IsConfigured-HasImage config u h = record {
    desired = h.verified.desired;
    expected = h.verified.expected;
    encoded = h.verified.encoded;
    verified = h.verified.verified;
  }

module _ {W : Type 0} (t : Transport W) where
  -- A CONFIG write that succeeds, of the byte that the desired configuration asks for.
  write_runtime_config-Ends :
      (config : DeviceConfig) (command_bits : ℕ)
      → Ends
          (HasImage config)
          (write_runtime_config t config.bias_enabled false command_bits)
          (λ _. HasImage config)
          (λ _ _. Unit {0})
  unfolding write_runtime_config
  write_runtime_config-Ends config bits =
      Ends-if (not (valid_command_bits bits)) _ _ (λ _. Ends-lift _ λ s h. tt)
        λ _. Ends-gets _ _ λ desired.
          Ends-from (λ s h. (h.0, sym h.1 ∙ h.0.desired))
            (Ends-given λ e.
              Ends-bind (λ _. HasImage config) _ _
                (Ends-attempt_kept (HasImage config) _
                  (write_registers_internal-rule (Quiet-frames t) _ _ _) (Quiet-HasImage config))
                λ status. Ends-gets _ _ λ o.
                  Ends-on_status status _ _ (λ _ _. Ends-modify _ λ s h. written desired e s h.0)
                    λ f _. Ends-bind (λ _ _. Unit {0}) _ _ (Ends-any _) λ _. Ends-lift _ λ s h. tt)
    where
      written :
          (desired : DeviceConfig)
          → desired ≡ config
          → (s : Context W) → HasImage config s
          → HasImage config (record s {
            driver =
                config_written (persistent_config_byte desired config.bias_enabled false) s.driver;
          })
      written desired e s h = record {
        desired = h.desired;
        expected = h.expected;
        encoded = h.encoded;
        verified = rw e (rewritten _ h.expected (observed_image s.driver.observed) h.verified);
      }

  clear_faults_internal-Ends :
      (config : DeviceConfig)
      → Ends (HasImage config) (clear_faults_internal t) (λ _. IsCleared) (λ _ _. Unit {0})
  unfolding clear_faults_internal
  clear_faults_internal-Ends config = Ends-gets _ _ λ desired.
      Ends-from (λ s h. (h.0, sym h.1 ∙ h.0.desired))
        (Ends-given λ e.
          Ends-bind (λ _. HasImage desired) _ _
            (Ends-from (λ s h. subst (λ c. HasImage c s) (sym e) h)
              (write_runtime_config-Ends desired config_fault_clear))
            λ _. Ends-modify _ λ s h. cleared s (subst (λ c. HasImage c s) (sym h.desired) h))
    where
      cleared :
          (s : Context W)
          → HasImage s.driver.desired s
          → IsCleared (record s {
            driver = record s.driver {
              stamps = record s.driver.stamps { has_last_fault_status = false };
            };
          })
      cleared s h = record {
        image = record {
          desired = refl;
          expected = h.expected;
          encoded = h.encoded;
          verified = h.verified;
        };
        forgotten = refl;
      }

  apply-Ends :
      (config : DeviceConfig)
      → Ends
          (λ _. Unit {0})
          (apply_configuration_internal t config)
          (λ _. HasImage config)
          (λ _ _. Unit {0})
  apply-Ends config =
      Ends-failing (λ _. HasImage config) (λ f u h. tt)
        (Ends-gives (λ _ u h. IsConfigured-HasImage config u h)
          (record { at = λ s p. asked s _ _ (apply_configuration_internal-Ends t config s) }))
    where
      asked :
          (s : Context W) (r : Status) (u : Context W)
          → Outcome (λ _. IsConfigured config) (λ _. IsRetained s) r u
          → Outcome (λ _. IsConfigured config) (λ _ _. Unit {0}) r u
      asked s (ok _) u h = h
      asked s (err f) u h = tt

  -- The work of a recovery, if it succeeds, leaves the observed registers in agreement with the
  -- desired configuration.
  pub recover_device-Ends :
      Ends (λ _. Unit {0}) (recover_device t) (λ _. IsCleared) (λ _ _. Unit {0})
  unfolding recover_device
  recover_device-Ends =
      Ends-bind (λ _ _. Unit {0}) _ _ (Ends-any _)
        λ _. Ends-gets _ _ λ d.
          Ends-bind (λ _ _. Unit {0}) _ _ (Ends-any _)
            λ _.
              Ends-bind (λ _ _. Unit {0}) _ _ (Ends-any _)
                λ _.
                  Ends-bind (λ _ _. Unit {0}) _ _ (Ends-any _)
                    λ _. Ends-gets _ _ λ now.
                      Ends-bind (λ _. HasImage now.desired) _ _
                        (Ends-from (λ s p. tt) (apply-Ends now.desired))
                        λ _. clear_faults_internal-Ends now.desired
