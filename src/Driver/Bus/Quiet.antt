-- ===== src/Driver/Bus/Quiet.antt =====
-- What the bus leaves alone: the configuration, what conversion runs or is awaited, and the
-- lifecycle, unless a frame drops it to a fault with nothing known.
use max.Prelude.{ℕ, ◌≡◌, ◌⊎◌, false, List, arith}
use max.Status.{fault}
use max.Driver.{Transport, Context}
use max.Driver.Action.Moves.{IsPreorder, Moves, Moves-modify}
use max.Driver.Bus.{transact}
use max.Driver.Bus.Rules.{FrameRules, WorldRules, WorldRules-FrameRules, transact-rule}

pub record Quiet {W : Type 0} (s u : Context W) : Type 0 where
  pub desired : u.driver.desired ≡ s.driver.desired
  pub observed : u.driver.observed ≡ s.driver.observed
  pub continuous : u.driver.conversion.continuous ≡ s.driver.conversion.continuous
  pub armed : u.driver.conversion.one_shot_armed ≡ s.driver.conversion.one_shot_armed
  pub fresh : u.driver.conversion.fresh_result_armed ≡ s.driver.conversion.fresh_result_armed
  pub lifecycle :
      ((u.driver.state ≡ s.driver.state)
        × (u.driver.configuration_known ≡ s.driver.configuration_known))
      ⊎ ((u.driver.state ≡ fault) × (u.driver.configuration_known ≡ false))

module _ {W : Type 0} where
  pub Quiet-preorder : IsPreorder (Quiet {W = W})
  Quiet-preorder = record { same = λ s. ground arith; chain = λ s t u p q. ground arith }

  pub Quiet-rules : WorldRules (Quiet {W = W})
  Quiet-rules = record {
    preorder = Quiet-preorder;
    world = λ w s. ground arith;
    operation = λ f. Moves-modify _ λ s. ground arith;
    session = λ f. Moves-modify _ λ s. ground arith;
    lock_failure = λ code. Moves-modify _ λ s. ground arith;
    transfer_failure = Moves-modify _ λ s. ground arith;
    known = Moves-modify _ λ s. ground arith;
    failed = Moves-modify _ λ s. ground arith;
    horizon = λ now ms. Moves-modify _ λ s. ground arith;
    frame_noted = Moves-modify _ λ s. ground arith;
  }

pub Quiet-frames : {W : Type 0} (t : Transport W) → FrameRules t Quiet
Quiet-frames t = WorldRules-FrameRules t Quiet-rules

-- A frame, whatever becomes of it, leaves the desired configuration, the observed registers, and
-- whether a conversion runs continuously, is armed, or a fresh result is awaited, as they are, and
-- the lifecycle too, unless it drops it to a fault with nothing known.
pub transact-Quiet : {W : Type 0} (t : Transport W) (tx : List ℕ) → Moves Quiet (transact t tx)
transact-Quiet t tx = transact-rule (Quiet-frames t) tx
