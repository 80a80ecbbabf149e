-- ===== src/Status/Codes.antt =====
-- Error codes are told apart by their numbers.
use max.Prelude.{ℕ, ◌≡◌, refl, ap, true, Option, none, some, ◌==◌, ==_iff, if◌then◌else◌}
use max.Status.{
  Error, not_initialized, invalid_argument, invalid_state, busy, unsupported_command, no_data,
  timing_unavailable, register_address_invalid, bus_lock_timeout, bus_lock_failed,
  spi_transfer_failed, chip_select_failed, gpio_failed, operation_timeout, drdy_timeout,
  register_verify_failed, probe_mismatch, configuration_unknown, device_fault, restore_failed,
  conversion_out_of_range, code_number, same_code,
}

-- The code of a number, as `static_cast<MAX31865Error>` reads it.
error_of : ℕ → Option Error
error_of n =
    if n == 1
    then some not_initialized
    else if n == 2
    then some invalid_argument
    else if n == 3
    then some invalid_state
    else if n == 4
    then some busy
    else if n == 5
    then some unsupported_command
    else if n == 6
    then some no_data
    else if n == 7
    then some timing_unavailable
    else if n == 8
    then some register_address_invalid
    else if n == 9
    then some bus_lock_timeout
    else if n == 10
    then some bus_lock_failed
    else if n == 11
    then some spi_transfer_failed
    else if n == 12
    then some chip_select_failed
    else if n == 13
    then some gpio_failed
    else if n == 14
    then some operation_timeout
    else if n == 15
    then some drdy_timeout
    else if n == 16
    then some register_verify_failed
    else if n == 17
    then some probe_mismatch
    else if n == 18
    then some configuration_unknown
    else if n == 19
    then some device_fault
    else if n == 20
    then some restore_failed
    else if n == 21
    then some conversion_out_of_range
    else none

error_of-code_number : (e : Error) → error_of (code_number e) ≡ some e
unfolding error_of
error_of-code_number not_initialized = refl
error_of-code_number invalid_argument = refl
error_of-code_number invalid_state = refl
error_of-code_number busy = refl
error_of-code_number unsupported_command = refl
error_of-code_number no_data = refl
error_of-code_number timing_unavailable = refl
error_of-code_number register_address_invalid = refl
error_of-code_number bus_lock_timeout = refl
error_of-code_number bus_lock_failed = refl
error_of-code_number spi_transfer_failed = refl
error_of-code_number chip_select_failed = refl
error_of-code_number gpio_failed = refl
error_of-code_number operation_timeout = refl
error_of-code_number drdy_timeout = refl
error_of-code_number register_verify_failed = refl
error_of-code_number probe_mismatch = refl
error_of-code_number configuration_unknown = refl
error_of-code_number device_fault = refl
error_of-code_number restore_failed = refl
error_of-code_number conversion_out_of_range = refl

pub code_number-injective : (a b : Error) → code_number a ≡ code_number b → a ≡ b
code_number-injective a b e = cc (error_of-code_number a, error_of-code_number b, ap error_of e)

pub same_code-eq : (a b : Error) → same_code a b ≡ true → a ≡ b
same_code-eq a b h = code_number-injective a b ((==_iff _ _).0 h)

pub same_code-true : (a b : Error) → a ≡ b → same_code a b ≡ true
same_code-true a b e = (==_iff _ _).1 (ap code_number e)

pub same_code_self : (a : Error) → same_code a a ≡ true
same_code_self a = (==_iff _ _).1 refl
