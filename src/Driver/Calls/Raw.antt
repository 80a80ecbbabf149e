-- ===== src/Driver/Calls/Raw.antt =====
-- Raw register access keeps what frames keep.
use max.Prelude.{ℕ, Bool}
use max.Status.{Status}
use max.Driver.Raw.{
  read_register_request, read_register, read_registers_request, read_registers, write_candidate,
  write_register, write_verified_request, write_register_verified, dump_request, dump_registers,
  restore_writable_defaults, try_pattern, restore_saved, conclude_pattern, readback_body,
  register_readback_test,
}
use max.Driver.Calls.Configuring.{verify_desired_image-rule, apply_configuration_internal-rule}
use max.Driver.{Transport, Context}
use max.Driver.Action.Moves.{Moves}
use max.Driver.Calls.{CallRules, call_rules, make_operation-rule, request-rule, finish-rule}

module _ {ℓ} {W : Type 0} {t : Transport W} {R : Context W → Context W → Type ℓ}
    (rules : CallRules t R) where
  pub read_register-rule : (address timeout_ms : ℕ) → Moves R (read_register t address timeout_ms)
  unfolding read_register read_register_request
  read_register-rule address timeout_ms =
      search (call_rules, finish-rule, make_operation-rule) depth 30

  pub read_registers-rule :
      (start_address : ℕ) (has_out : Bool) (length timeout_ms : ℕ)
      → Moves R (read_registers t start_address has_out length timeout_ms)
  unfolding read_registers read_registers_request
  read_registers-rule start_address has_out length timeout_ms =
      search (call_rules, finish-rule, make_operation-rule) depth 30

  write_candidate-rule :
      (address value timeout_ms : ℕ) → Moves R (write_candidate t address value timeout_ms)
  unfolding write_candidate
  write_candidate-rule address value timeout_ms =
      search (call_rules, make_operation-rule, apply_configuration_internal-rule) depth 30

  pub write_register-rule :
      (address value timeout_ms : ℕ) → Moves R (write_register t address value timeout_ms)
  unfolding write_register
  write_register-rule address value timeout_ms =
      search (call_rules, finish-rule, write_candidate-rule) depth 30

  pub write_register_verified-rule :
      (address value timeout_ms : ℕ) → Moves R (write_register_verified t address value timeout_ms)
  unfolding write_register_verified write_verified_request
  write_register_verified-rule address value timeout_ms =
      search (call_rules, finish-rule, write_candidate-rule) depth 30

  pub dump_registers-rule :
      (has_out : Bool) (capacity timeout_ms : ℕ)
      → Moves R (dump_registers t has_out capacity timeout_ms)
  unfolding dump_registers dump_request
  dump_registers-rule has_out capacity timeout_ms =
      search (call_rules, finish-rule, make_operation-rule) depth 30

  pub restore_writable_defaults-rule :
      (timeout_ms : ℕ) → Moves R (restore_writable_defaults t timeout_ms)
  unfolding restore_writable_defaults
  restore_writable_defaults-rule timeout_ms =
      search (call_rules, finish-rule, request-rule, apply_configuration_internal-rule) depth 30

  try_pattern-rule : (saved : ℕ) → Moves R (try_pattern t saved)
  unfolding try_pattern
  try_pattern-rule saved = search (call_rules) depth 30

  restore_saved-rule : (saved : ℕ) → Moves R (restore_saved t saved)
  unfolding restore_saved
  restore_saved-rule saved = search (call_rules, verify_desired_image-rule) depth 30

  conclude_pattern-rule : (saved : ℕ) (status : Status) → Moves R (conclude_pattern t saved status)
  unfolding conclude_pattern
  conclude_pattern-rule saved status = search (call_rules, restore_saved-rule) depth 30

  readback_body-rule : Moves R (readback_body t)
  unfolding readback_body
  readback_body-rule = search (call_rules, try_pattern-rule, conclude_pattern-rule) depth 30

  pub register_readback_test-rule : (timeout_ms : ℕ) → Moves R (register_readback_test t timeout_ms)
  unfolding register_readback_test
  register_readback_test-rule timeout_ms =
      search (call_rules, finish-rule, request-rule, readback_body-rule) depth 30
