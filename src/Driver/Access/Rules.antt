-- ===== src/Driver/Access/Rules.antt =====
-- Register reads and writes keep what frames keep.
use max.Prelude.{ℕ, List}
use max.Driver.{Transport, Context}
use max.Driver.Action.Moves.{Moves}
use max.Driver.Bus.Rules.{FrameRules, frame_rules, transact-rule}
use max.Driver.Access.{read_registers_internal, write_registers_internal, read_persistent_image}

module _ {ℓ} {W : Type 0} {t : Transport W} {R : Context W → Context W → Type ℓ}
    (rules : FrameRules t R) where
  pub read_registers_internal-rule :
      (start_address length : ℕ) → Moves R (read_registers_internal t start_address length)
  unfolding read_registers_internal
  read_registers_internal-rule start_address length = search (frame_rules, transact-rule) depth 12

  pub read_persistent_image-rule : Moves R (read_persistent_image t)
  unfolding read_persistent_image
  read_persistent_image-rule = search (frame_rules, read_registers_internal-rule) depth 12

  pub write_registers_internal-rule :
      (start_address : ℕ) (values : List ℕ) (length : ℕ)
      → Moves R (write_registers_internal t start_address values length)
  unfolding write_registers_internal
  write_registers_internal-rule start_address values length =
      search (frame_rules, transact-rule) depth 16
