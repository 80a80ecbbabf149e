-- ===== src/Driver/Consistency.antt =====
-- The lifecycle state agrees with what the driver knows of the device, and how the parts of an
-- operation keep it so.
pub mod Flags
pub mod Requests
pub mod Cleanup
pub mod ReadBack
pub mod Lifecycle
pub mod Reachable
use max.Prelude.{ℕ, ◌≡◌, refl, Bool, true, false, not, ◌&&◌, ◌||◌, arith}
use max.Status.{State, uninitialized, ready, converting, fault}
use max.Driver.{Transport, Driver, Context, Counters}
use max.Driver.Action.{modify, modify_driver, modify_counters}
use max.Driver.Action.Moves.{IsPreorder, Moves, Moves-modify, moves_rules}
use max.Driver.Clock.{read_pin}
use max.Driver.Bus.{note_frame}
use max.Driver.Bus.Rules.{FrameRules, frames_clock-rule, WorldRules, WorldRules-FrameRules}
use max.Driver.Readiness.{update_timed_readiness}
use max.Driver.Conversions.Rules.{LookRules}
use max.Driver.Stop.{stopped}
use max.Driver.Stop.Rules.{StopRules, CleanupRules}

abbrev agrees : State → Bool → Bool → Bool → Bool → Bool
agrees uninitialized known continuous armed fresh = not known
agrees ready known continuous armed fresh = known && not (continuous || armed || fresh)
agrees converting known continuous armed fresh = true
agrees fault known continuous armed fresh = not known

-- `Ready` means known, with no conversion running or awaited; `Fault` and `Uninitialized` mean
-- not known.
abbrev pub is_consistent : Driver → Bool
is_consistent d =
    let c = d.conversion in
    agrees d.state d.configuration_known c.continuous c.one_shot_armed c.fresh_result_armed

abbrev pub IsAgreed : {W : Type 0} → Context W → Type 0
IsAgreed u = is_consistent u.driver ≡ true

-- Consistency is kept.
pub record Agrees {W : Type 0} (s u : Context W) : Type 0 where
  pub kept : is_consistent s.driver ≡ true → is_consistent u.driver ≡ true

module _ {W : Type 0} where
  pub Agrees-preorder : IsPreorder (Agrees {W = W})
  Agrees-preorder = record {
    same = λ s. record { kept = λ h. h };
    chain = λ s t u p q. record { kept = λ h. q.kept (p.kept h) };
  }

  noted : (s : Context W) → (note_frame s).driver ≡ s.driver
  noted s = ground arith

  Agrees-note_frame : Moves (Agrees {W = W}) (modify note_frame)
  Agrees-note_frame = Moves-modify _ λ s. record { kept = λ h. rw (noted s) h }

  Agrees-world : WorldRules (Agrees {W = W})
  Agrees-world = record {
    preorder = Agrees-preorder;
    world = λ w s. record { kept = λ h. h };
    operation = λ f. Moves-modify _ λ s. record { kept = λ h. h };
    session = λ f. Moves-modify _ λ s. record { kept = λ h. h };
    lock_failure = λ code. Moves-modify _ λ s. record { kept = λ h. h };
    transfer_failure = Moves-modify _ λ s. record { kept = λ h. h };
    known = Moves-modify _ λ s. record { kept = λ h. h };
    failed = Moves-modify _ λ s. record { kept = λ h. refl };
    horizon = λ now ms. Moves-modify _ λ s. record { kept = λ h. h };
    frame_noted = Agrees-note_frame;
  }

-- Timed readiness moves neither the lifecycle nor the flags that it reads.
pub timed-agrees :
    (now : ℕ) (d : Driver)
    → is_consistent d ≡ true
    → is_consistent (update_timed_readiness now d) ≡ true
unfolding update_timed_readiness
timed-agrees now d h = ground arith

pub stopped-agrees : (d : Driver) → is_consistent (stopped d) ≡ true
stopped-agrees d = ground arith

-- Fewer flags do no harm.
pub agrees-fewer :
    (state : State) (known continuous armed fresh : Bool)
    → agrees state known continuous armed fresh ≡ true
    → agrees state known continuous false false ≡ true
agrees-fewer state known continuous armed fresh h = ground arith

module _ {W : Type 0} where
  pub timed-Agrees : (now : ℕ) → Moves (Agrees {W = W}) (modify_driver (update_timed_readiness now))
  timed-Agrees now = Moves-modify _ λ s. record { kept = timed-agrees now s.driver }

  pub counted-Agrees : (f : Counters → Counters) → Moves (Agrees {W = W}) (modify_counters f)
  counted-Agrees f = Moves-modify _ λ s. record { kept = λ h. h }

module _ {W : Type 0} (t : Transport W) where
  pub Agrees-frames : FrameRules t Agrees
  Agrees-frames = WorldRules-FrameRules t Agrees-world

  pub Agrees-looks : LookRules t Agrees
  unfolding read_pin
  Agrees-looks = record {
    frames = Agrees-frames;
    pin = record { at = λ s. record { kept = λ h. h } };
    counted = counted-Agrees;
    stamped = λ f. Moves-modify _ λ s. record { kept = λ h. h };
    timed = timed-Agrees;
    halted = Moves-modify _ λ s. record { kept = λ h. h };
    rearmed = λ now ms. Moves-modify _ λ s. record { kept = λ h. h };
  }

  pub Agrees-stop : StopRules t Agrees
  Agrees-stop = record {
    looks = Agrees-looks;
    unsafe = Moves-modify _ λ s. record { kept = λ h. h };
    fault = Moves-modify _ λ s. record { kept = λ h. refl };
    config_byte = λ byte. Moves-modify _ λ s. record { kept = λ h. h };
    disarmed = Moves-modify _ λ s. record { kept = agrees-fewer _ _ _ _ _ };
    certain = Moves-modify _ λ s. record { kept = λ h. h };
    stopped = Moves-modify _ λ s. record { kept = λ h. stopped-agrees s.driver };
  }

module _ {W : Type 0} (t : Transport W) where
  pub Agrees-cleanup : CleanupRules t Agrees
  Agrees-cleanup = record {
    stops = Agrees-stop t;
    cleanup = λ expired. Moves-modify _ λ s. record { kept = λ h. h };
    merged = λ o. Moves-modify _ λ s. record { kept = λ h. h };
  }

pub ruleset agrees_rules =
    (moves_rules, frames_clock-rule, Agrees-preorder, Agrees-frames, Agrees-looks, Agrees-stop)
