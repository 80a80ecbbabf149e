-- ===== src/Driver/Raw.antt =====
-- Raw register access (src/MAX31865.cpp, from `prepareRegisterWriteCandidate` to
-- `registerReadbackTest`).
use max.Prelude.{
  [], ℕ, zero, suc, ◌+◌, ◌-◌, ◌*◌, Bool, true, false, not, ◌||◌, String, List, ◌∷◌, pos, bit_and,
  bit_or, bit_xor, ◌==◌, ltb, get_or, if◌then◌else◌,
}
use max.Status.{
  register_address_invalid, invalid_argument, register_verify_failed, restore_failed, Status,
  Result, err, success, fail, is_ok, status_of, ready, combined_failure_detail,
}
use max.Commands.{reg_config, reg_low_fault_lsb, num_registers, threshold_lsb_defined_mask}
use max.Config.{default_device_config, persistent_byte_matches}
use max.Protocol.{register_address_valid, register_name}
use max.Driver.{Transport, operation_at}
use max.Driver.Action.{
  ◌>>=◌, Step, pure, lift, raise, gets, attempt, ◌>>◌, on_status, modify_driver, modify_operation,
}
use max.Driver.Clock.{deadline_expired}
use max.Driver.Bus.{faulted}
use max.Driver.Access.{read_registers_internal, write_registers_internal, verify_desired_image}
use max.Driver.Apply.{apply_configuration_internal, clear_faults_internal}
use max.Driver.Health.{finish}
use max.Driver.Requests.{validate_timeout, require_ready, make_operation}
use max.Driver.Stop.{in_cleanup, expired_result}
use max.Driver.Start.{request}
use max.Driver.Raw.Candidate.{prepare_register_write_candidate}
pub mod Candidate
pub mod Written

abbrev require_address : ℕ → Status
require_address address =
    if register_address_valid address
    then success
    else fail register_address_invalid "register address is outside 0..7" (pos address)

-- The span of a raw read into a buffer, which may be null.
abbrev require_read_span : Bool → ℕ → ℕ → Status
require_read_span has_out start_address length =
    if not has_out || (length == 0)
    then fail invalid_argument "invalid register read span" (pos start_address)
    else if not (register_address_valid start_address) || ltb (num_registers - start_address) length
    then fail register_address_invalid "invalid register read span" (pos start_address)
    else success

-- `MAX31865RegisterDump`.
pub record RegisterDump : Type 0 where
  pub address : ℕ
  pub name : String
  pub value : ℕ

-- The rows of a dump, from an index on.
abbrev pub dump_rows : ℕ → ℕ → List ℕ → List RegisterDump
dump_rows zero index registers = []
dump_rows (suc n) index registers =
    record { address = index; name = register_name index; value = get_or registers index 0 }
    ∷ dump_rows n (index + 1) registers

module _ {W : Type 0} (t : Transport W) where
  unfoldable pub read_register_request : ℕ → ℕ → Step W ℕ
  read_register_request address timeout_ms = do
    modify_operation (λ _. operation_at 0 0)
    d ← gets (λ s. s.driver)
    lift (require_ready d)
    lift (validate_timeout timeout_ms true)
    lift (require_address address)
    make_operation t timeout_ms
    bytes ← read_registers_internal t address 1
    pure (get_or bytes 0 0)

  unfoldable pub read_register : ℕ → ℕ → Step W ℕ
  read_register address timeout_ms = finish true (read_register_request address timeout_ms)

  unfoldable pub read_registers_request : ℕ → Bool → ℕ → ℕ → Step W (List ℕ)
  read_registers_request start_address has_out length timeout_ms = do
    modify_operation (λ _. operation_at 0 0)
    d ← gets (λ s. s.driver)
    lift (require_ready d)
    lift (validate_timeout timeout_ms (length == 1))
    lift (require_read_span has_out start_address length)
    make_operation t timeout_ms
    read_registers_internal t start_address length

  unfoldable pub read_registers : ℕ → Bool → ℕ → ℕ → Step W (List ℕ)
  read_registers start_address has_out length timeout_ms =
      finish true (read_registers_request start_address has_out length timeout_ms)

  -- The configuration with one register written, verified against the device.
  unfoldable pub write_candidate : ℕ → ℕ → ℕ → Step W (Unit {0})
  write_candidate address value timeout_ms = do
    modify_operation (λ _. operation_at 0 0)
    d ← gets (λ s. s.driver)
    lift (require_ready d)
    lift (validate_timeout timeout_ms false)
    candidate ← lift (prepare_register_write_candidate d.desired address value)
    make_operation t timeout_ms
    apply_configuration_internal t candidate

  unfoldable pub write_register : ℕ → ℕ → ℕ → Step W (Unit {0})
  write_register address value timeout_ms = finish true (write_candidate address value timeout_ms)

  unfoldable pub write_verified_request : ℕ → ℕ → ℕ → Step W ℕ
  write_verified_request address value timeout_ms = do
    write_candidate address value timeout_ms
    bytes ← read_registers_internal t address 1
    let observed = get_or bytes 0 0
    if persistent_byte_matches address observed value
        then pure observed
        else modify_driver faulted
          >> raise register_verify_failed "target diagnostic readback mismatch"
              (pos (bit_or (value * 256) observed))

  unfoldable pub write_register_verified : ℕ → ℕ → ℕ → Step W ℕ
  write_register_verified address value timeout_ms =
      finish true (write_verified_request address value timeout_ms)

  unfoldable pub dump_request : Bool → ℕ → ℕ → Step W (List RegisterDump × ℕ)
  dump_request has_out capacity timeout_ms = do
    modify_operation (λ _. operation_at 0 0)
    d ← gets (λ s. s.driver)
    lift (require_ready d)
    lift (validate_timeout timeout_ms false)
    lift (
        if not has_out || ltb capacity num_registers
        then fail invalid_argument "register dump output capacity is smaller than eight" (pos 0)
        else success)
    make_operation t timeout_ms
    registers ← read_registers_internal t reg_config num_registers
    pure (dump_rows num_registers 0 registers, num_registers)

  unfoldable pub dump_registers : Bool → ℕ → ℕ → Step W (List RegisterDump × ℕ)
  dump_registers has_out capacity timeout_ms =
      finish true (dump_request has_out capacity timeout_ms)

  unfoldable pub restore_writable_defaults : ℕ → Step W (Unit {0})
  restore_writable_defaults timeout_ms = finish true (
      request t require_ready timeout_ms false
        do apply_configuration_internal t default_device_config; clear_faults_internal t)

  -- A pattern that differs from the saved byte, written and read back; the value is what was
  -- read, and the flag says whether the device may hold the pattern.
  unfoldable pub try_pattern : ℕ → Step W (Bool × Result ℕ)
  try_pattern saved = do
    let pattern = bit_and (bit_xor saved 0xa8) threshold_lsb_defined_mask
    written ← attempt (write_registers_internal t reg_low_fault_lsb (pattern ∷ []) 1)
    o ← gets (λ s. s.operation)
    observed ← attempt do
      lift written
      bytes ← read_registers_internal t reg_low_fault_lsb 1
      let observed = get_or bytes 0 0
      if persistent_byte_matches reg_low_fault_lsb observed pattern
          then pure observed
          else raise register_verify_failed "threshold communication-test readback mismatch"
              (pos observed)
    pure (is_ok written || o.last_transfer_attempted, observed)

  unfoldable pub restore_saved : ℕ → Step W (Unit {0})
  restore_saved saved = do
    write_registers_internal t reg_low_fault_lsb (saved ∷ []) 1
    verify_desired_image t

  -- The saved byte goes back; the driver is ready only if the whole image is verified again.
  unfoldable pub conclude_pattern : ℕ → Status → Step W (Unit {0})
  conclude_pattern saved status = do
    expired ← deadline_expired t
    result ← attempt (expired_result t expired status)
    cleanup ← in_cleanup t expired (restore_saved saved)
    on_status cleanup (λ _. modify_driver (λ d. record d { state = ready }) >> lift result)
        λ c. do
          modify_driver faulted
          on_status result (λ _. lift (err c))
              λ f.
                raise restore_failed "communication test and threshold restore both failed"
                  (combined_failure_detail f.code c.code)

  unfoldable pub readback_body : Step W ℕ
  readback_body = do
    bytes ← read_registers_internal t reg_low_fault_lsb 1
    let saved = get_or bytes 0 0
    tried ← try_pattern saved
    (if tried.0 then conclude_pattern saved (status_of (tried.1)) else lift (status_of (tried.1)))
    lift (tried.1)

  unfoldable pub register_readback_test : ℕ → Step W ℕ
  register_readback_test timeout_ms =
      finish true (request t require_ready timeout_ms false readback_body)
