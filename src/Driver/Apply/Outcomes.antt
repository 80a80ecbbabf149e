-- ===== src/Driver/Apply/Outcomes.antt =====
-- What a configuration request leaves behind.
use max.Prelude.{ap, subst, ◌≡◌, refl, sym, ◌∙◌, ◌⊎◌, inr, true, false, arith}
use max.Status.{Failure, ok, err, Status, success, ready, fault}
use max.Config.{DeviceConfig, persistent_config_byte}
use max.Config.Bytes.{Image, ThresholdBytes, encode_thresholds, verify_image}
use max.Driver.{Transport, Context, Registers}
use max.Driver.Action.{lift, ◌>>◌, on_status, modify_driver}
use max.Driver.Action.Moves.{Moves, moves_rules, Moves-modify}
use max.Driver.Action.Ends.{
  Ends, Ends-attempt, Ends-lift, Ends-modify, Ends-kept, Ends-bind, Ends-gets, Ends-lifted,
  Ends-from, Outcome,
}
use max.Driver.Bus.{faulted}
use max.Driver.Bus.Quiet.{Quiet, Quiet-preorder, Quiet-frames}
use max.Driver.Access.{verify_desired_image, idle}
use max.Driver.Access.Rules.{read_persistent_image-rule, write_registers_internal-rule}
use max.Driver.Apply.{configured, adopt, write_configuration, apply_configuration_internal}

-- The configuration registers as the driver last saw them.
abbrev pub observed_image : Registers → Image
observed_image r = record {
  config = r.config;
  thresholds = record {
    high_msb = r.high_fault_msb;
    high_lsb = r.high_fault_lsb;
    low_msb = r.low_fault_msb;
    low_lsb = r.low_fault_lsb;
  };
}

-- The observed image passed the verification against `config`.
pub record IsVerified {W : Type 0} (config : DeviceConfig) (u : Context W) : Type 0 where
  pub desired : u.driver.desired ≡ config
  pub known : u.driver.configuration_known ≡ true
  pub expected : ThresholdBytes
  pub encoded : encode_thresholds config ≡ ok expected
  pub verified :
      verify_image
        (record {
          config = persistent_config_byte config config.bias_enabled false;
          thresholds = expected;
        })
        (observed_image u.driver.observed)
      ≡ success

pub record IsConfigured {W : Type 0} (config : DeviceConfig) (u : Context W) : Type 0 where
  pub state : u.driver.state ≡ ready
  pub idle : u.driver.conversion ≡ idle u.driver.conversion
  pub verified : IsVerified config u

-- The desired configuration is the old one, and the lifecycle too unless it is a fault.
pub record IsRetained {W : Type 0} (s u : Context W) : Type 0 where
  pub desired : u.driver.desired ≡ s.driver.desired
  pub lifecycle :
      ((u.driver.state ≡ s.driver.state)
        × (u.driver.configuration_known ≡ s.driver.configuration_known))
      ⊎ ((u.driver.state ≡ fault) × (u.driver.configuration_known ≡ false))

module _ {W : Type 0} where
  faulted-Quiet : Moves (Quiet {W = W}) (modify_driver faulted)
  faulted-Quiet = Moves-modify _ λ s. ground arith

  Quiet-IsRetained : (s u : Context W) → Quiet s u → IsRetained s u
  Quiet-IsRetained s u q = record { desired = q.desired; lifecycle = q.lifecycle }

module _ {W : Type 0} (t : Transport W) where
  pub write_configuration-Quiet :
      (config : DeviceConfig) (thresholds : ThresholdBytes)
      → Moves Quiet (write_configuration t config thresholds)
  unfolding write_configuration
  write_configuration-Quiet config thresholds =
      search
        (moves_rules, Quiet-preorder, Quiet-frames, faulted-Quiet, write_registers_internal-rule)
        depth 16

  pub verify-Ends :
      (config : DeviceConfig)
      → Ends
          (λ s. s.driver.desired ≡ config)
          (verify_desired_image t)
          (λ _. IsVerified config)
          (λ _ u. u.driver.desired ≡ config)
  unfolding verify_desired_image
  verify-Ends config = Ends-gets _ _ λ d.
      Ends-bind _ _ _ (Ends-lifted (encode_thresholds d) λ f s h. h.0) λ th.
        Ends-bind _ _ _
          (Ends-kept _ _ (read_persistent_image-rule (Quiet-frames t))
            (λ s u q h. ((q.desired ∙ h.0.0, q.desired ∙ h.0.1), h.1)) (λ f u h. h.0.0))
          λ actual. Ends-bind _ _ _ (Ends-lifted _ λ f s h. h.0.0) λ _. Ends-modify _ λ s h.
            record {
              desired = h.0.0.0;
              known = refl;
              expected = th;
              encoded = ap encode_thresholds (same h.0.0.0 h.0.0.1) ∙ h.0.1;
              verified = subst (is_verified th actual) (sym (same h.0.0.0 h.0.0.1)) h.1;
            }
    where
      same : {d e : DeviceConfig} → d ≡ config → d ≡ e → config ≡ e
      same p q = sym p ∙ q

      is_verified : ThresholdBytes → Image → DeviceConfig → Type 0
      is_verified th actual d =
          verify_image
            (record { config = persistent_config_byte d d.bias_enabled false; thresholds = th })
            actual
          ≡ success

  -- Adopting a configuration from a context where the desired one is that of `s0`.
  adopt-Ends :
      (s0 : Context W) (config : DeviceConfig)
      → Ends (Quiet s0) (adopt t config) (λ _. IsConfigured config) (λ _. IsRetained s0)
  unfolding adopt
  adopt-Ends s0 config = Ends-gets _ _ λ previous.
      Ends-bind (λ _ s. (s.driver.desired ≡ config) × (previous ≡ s0.driver.desired)) _ _
        (Ends-modify _ λ s h. (refl, sym h.1 ∙ h.0.desired))
        λ _.
          Ends-bind
            (λ r s.
              (previous ≡ s0.driver.desired)
              × Outcome (λ _. IsVerified config) (λ _ u. u.driver.desired ≡ config) r s)
            _ _ (Ends-attempt _ (verify-Ends config)) (branch previous)
    where
      branch :
          (previous : DeviceConfig) (r : Status)
          → Ends
              (λ s.
                (previous ≡ s0.driver.desired)
                × Outcome (λ _. IsVerified config) (λ _ u. u.driver.desired ≡ config) r s)
              (on_status r
                (λ _. modify_driver configured)
                λ f. do
                  modify_driver (λ d. faulted (record d { desired = previous }))
                  lift (err f))
              (λ _. IsConfigured config)
              (λ _. IsRetained s0)
      branch previous (ok _) = Ends-modify _ λ s h. record {
        state = refl;
        idle = refl;
        verified = record {
          desired = h.1.desired;
          known = h.1.known;
          expected = h.1.expected;
          encoded = h.1.encoded;
          verified = h.1.verified;
        };
      }
      branch previous (err f) =
          Ends-bind (λ _. IsRetained s0) _ _
            (Ends-modify _ λ s h. record { desired = h.0; lifecycle = inr (refl, refl) })
            λ _. Ends-lift _ λ s h. h

  -- An accepted configuration is verified and the driver ready and idle; a refused or failed one
  -- leaves the desired configuration as it was, and the lifecycle too, unless it drops to a fault
  -- with nothing known.
  pub apply_configuration_internal-Ends :
      (config : DeviceConfig) (s : Context W)
      → Outcome
          (λ _. IsConfigured config)
          (λ _. IsRetained s)
          (apply_configuration_internal t config s).0
          (apply_configuration_internal t config s).1
  unfolding apply_configuration_internal
  apply_configuration_internal-Ends config s = (body s).at s (Quiet-preorder.same s)
    where
      kept : (s0 : Context W) (f : Failure) (u : Context W) → Quiet s0 u → IsRetained s0 u
      kept s0 f u = Quiet-IsRetained s0 u

      body :
          (s0 : Context W)
          → Ends
              (Quiet s0)
              (apply_configuration_internal t config)
              (λ _. IsConfigured config)
              (λ _. IsRetained s0)
      body s0 = Ends-bind _ _ _ (Ends-lifted _ (kept s0)) λ _.
          Ends-bind _ _ _ (Ends-lifted _ λ f u h. kept s0 f u h.0) λ th.
            Ends-bind _ _ _
              (Ends-from (λ _ h. h.0.0)
                (Ends-kept _ _ (write_configuration-Quiet config th)
                  (λ x y q h. Quiet-preorder.chain s0 x y h q) (kept s0)))
              λ _. adopt-Ends s0 config
