-- ===== src/Driver/Consistency/Flags.antt =====
-- The flags of a conversion that the lifecycle depends on, through the steps that do not move
-- them.
use max.Prelude.{ℕ, ◌≡◌, refl, ◌∙◌, Bool, true, false, arith}
use max.Status.{Status, ok, err}
use max.Config.{DeviceConfig}
use max.Config.Bytes.{Image}
use max.Driver.{Transport, Operation, Context}
use max.Driver.Action.{modify_operation, modify_driver, modify_stamps}
use max.Driver.Action.Moves.{IsPreorder, Moves, moves_rules, Moves-modify}
use max.Driver.Action.Ends.{Ends, Outcome}
use max.Driver.Bus.{faulted}
use max.Driver.Bus.Rules.{FrameRules, WorldRules, WorldRules-FrameRules}
use max.Driver.Access.{verified, verify_desired_image}
use max.Driver.Access.Rules.{read_persistent_image-rule, write_registers_internal-rule}
use max.Driver.Apply.{config_written, write_runtime_config, clear_faults_internal}
use max.Driver.Apply.Outcomes.{IsVerified, verify-Ends}

-- The three flags are those of before.
pub record SameFlags {W : Type 0} (s u : Context W) : Type 0 where
  pub continuous : u.driver.conversion.continuous ≡ s.driver.conversion.continuous
  pub armed : u.driver.conversion.one_shot_armed ≡ s.driver.conversion.one_shot_armed
  pub fresh : u.driver.conversion.fresh_result_armed ≡ s.driver.conversion.fresh_result_armed

-- No conversion runs and none is awaited.
pub record IsQuiet {W : Type 0} (s : Context W) : Type 0 where
  pub continuous : s.driver.conversion.continuous ≡ false
  pub armed : s.driver.conversion.one_shot_armed ≡ false
  pub fresh : s.driver.conversion.fresh_result_armed ≡ false

pub SameFlags-IsQuiet : {W : Type 0} (s u : Context W) → SameFlags s u → IsQuiet s → IsQuiet u
SameFlags-IsQuiet s u h q = record {
  continuous = h.continuous ∙ q.continuous;
  armed = h.armed ∙ q.armed;
  fresh = h.fresh ∙ q.fresh;
}

module _ {W : Type 0} where
  same : (s : Context W) → SameFlags s s
  same s = record { continuous = refl; armed = refl; fresh = refl }

  pub SameFlags-preorder : IsPreorder (SameFlags {W = W})
  SameFlags-preorder = record {
    same = same;
    chain = λ s t u p q. record {
      continuous = q.continuous ∙ p.continuous;
      armed = q.armed ∙ p.armed;
      fresh = q.fresh ∙ p.fresh;
    };
  }

  SameFlags-world : WorldRules (SameFlags {W = W})
  SameFlags-world = record {
    preorder = SameFlags-preorder;
    world = λ w s. ground arith;
    operation = λ f. Moves-modify _ λ s. ground arith;
    session = λ f. Moves-modify _ λ s. ground arith;
    lock_failure = λ code. Moves-modify _ λ s. ground arith;
    transfer_failure = Moves-modify _ λ s. ground arith;
    known = Moves-modify _ λ s. ground arith;
    failed = Moves-modify _ λ s. ground arith;
    horizon = λ now ms. Moves-modify _ λ s. ground arith;
    frame_noted = Moves-modify _ λ s. ground arith;
  }

  pub SameFlags-frames : (t : Transport W) → FrameRules t SameFlags
  SameFlags-frames t = WorldRules-FrameRules t SameFlags-world

  pub operation-SameFlags :
      (f : Operation → Operation) → Moves (SameFlags {W = W}) (modify_operation f)
  operation-SameFlags = SameFlags-world.operation

  faulted-SameFlags : Moves (SameFlags {W = W}) (modify_driver faulted)
  faulted-SameFlags = Moves-modify _ λ s. ground arith

  written-SameFlags : (byte : ℕ) → Moves (SameFlags {W = W}) (modify_driver (config_written byte))
  written-SameFlags byte = Moves-modify _ λ s. ground arith

  verified-SameFlags : (image : Image) → Moves (SameFlags {W = W}) (modify_driver (verified image))
  verified-SameFlags image = Moves-modify _ λ s. ground arith

module _ {W : Type 0} (t : Transport W) where
  pub verify-SameFlags : Moves SameFlags (verify_desired_image t)
  unfolding verify_desired_image
  verify-SameFlags =
      search
        (
          moves_rules, SameFlags-preorder, SameFlags-frames, read_persistent_image-rule,
          verified-SameFlags,
        )
        depth 30

  write_runtime_config-SameFlags :
      (bias continuous : Bool) (bits : ℕ)
      → Moves SameFlags (write_runtime_config t bias continuous bits)
  unfolding write_runtime_config
  write_runtime_config-SameFlags bias continuous bits =
      search
        (
          moves_rules, SameFlags-preorder, SameFlags-frames, write_registers_internal-rule,
          written-SameFlags, faulted-SameFlags,
        )
        depth 30

  stamped-SameFlags :
      Moves (SameFlags {W = W}) (modify_stamps (λ x. record x { has_last_fault_status = false }))
  stamped-SameFlags = Moves-modify _ λ s. ground arith

  pub clear_faults-SameFlags : Moves SameFlags (clear_faults_internal t)
  unfolding clear_faults_internal
  clear_faults-SameFlags =
      search (moves_rules, SameFlags-preorder, write_runtime_config-SameFlags, stamped-SameFlags)
        depth 30

  -- A verified image is known.
  pub verify-known :
      Ends
        (λ _. Unit {0})
        (verify_desired_image t)
        (λ _ u. u.driver.configuration_known ≡ true)
        (λ _ _. Unit {0})
  verify-known = record {
    at = λ s _. known _ (verify_desired_image t s).0 _ ((verify-Ends t s.driver.desired).at s refl);
  }
    where
      known :
          (config : DeviceConfig) (r : Status) (u : Context W)
          → Outcome {W = W} {A = Unit {0}}
              (λ _. IsVerified config)
              (λ _ u. u.driver.desired ≡ config)
              r
              u
          → Outcome {W = W} {A = Unit {0}}
              (λ _ u. u.driver.configuration_known ≡ true)
              (λ _ _. Unit {0})
              r
              u
      known config (ok _) u h = h.known
      known config (err _) u h = tt
