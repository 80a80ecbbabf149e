-- ===== src/Status.antt =====
-- Results of operations (include/MAX31865/Status.h). An operation returns a value or a failure
-- record; `MAX31865Status` is the case without a value. Its code `Ok` is the constructor `ok`.
pub mod Codes
pub mod Names
use max.Prelude.{
  ℕ, ℤ, pos, String, Bool, true, false, ◌||◌, Option, some, ◌==◌, ◌*◌, bit_or, bit_and, ◌/◌,
  if◌then◌else◌, is_nonneg, pos_part,
}

pub data Error : Type 0 where
  not_initialized invalid_argument invalid_state busy unsupported_command no_data : Error
  timing_unavailable register_address_invalid : Error
  bus_lock_timeout bus_lock_failed spi_transfer_failed chip_select_failed gpio_failed : Error
  operation_timeout drdy_timeout : Error
  register_verify_failed probe_mismatch configuration_unknown device_fault restore_failed : Error
  conversion_out_of_range : Error

-- The numbers of `enum class MAX31865Error`, in which `Ok` is 0.
abbrev pub code_number : Error → ℕ
code_number not_initialized = 1
code_number invalid_argument = 2
code_number invalid_state = 3
code_number busy = 4
code_number unsupported_command = 5
code_number no_data = 6
code_number timing_unavailable = 7
code_number register_address_invalid = 8
code_number bus_lock_timeout = 9
code_number bus_lock_failed = 10
code_number spi_transfer_failed = 11
code_number chip_select_failed = 12
code_number gpio_failed = 13
code_number operation_timeout = 14
code_number drdy_timeout = 15
code_number register_verify_failed = 16
code_number probe_mismatch = 17
code_number configuration_unknown = 18
code_number device_fault = 19
code_number restore_failed = 20
code_number conversion_out_of_range = 21

-- `a == b` on error codes.
abbrev pub same_code : Error → Error → Bool
same_code a b = code_number a == code_number b

-- `msg` is a nullable `const char *`.
pub record Failure : Type 0 where
  pub code : Error
  pub msg : Option String
  pub detail : ℤ

pub data Result (A : Type 0) : Type 0 where
  ok : A → Result A
  err : Failure → Result A

abbrev pub Status : Type 0
Status = Result (Unit {0})

-- `MAX31865Status::Ok()`.
abbrev pub success : Status
success = ok tt

-- `MAX31865Status::Error(code, msg, detail)`.
abbrev pub fail : {A : Type 0} → Error → String → ℤ → Result A
fail c m d = err (record { code = c; msg = some m; detail = d })

abbrev pub is_ok : {A : Type 0} → Result A → Bool
is_ok (ok a) = true
is_ok (err f) = false

-- `status.code == code` for an error code.
abbrev pub has_code : {A : Type 0} → Error → Result A → Bool
has_code c (ok a) = false
has_code c (err f) = same_code f.code c

abbrev pub status_of : {A : Type 0} → Result A → Status
status_of (ok a) = success
status_of (err f) = err f

infixl 5 ◌>>=◌ ◌>>◌
abbrev pub ◌>>=◌ : {A B : Type 0} → Result A → (A → Result B) → Result B
ok a >>= f = f a
err e >>= f = err e

abbrev pub ◌>>◌ : {A B : Type 0} → Result A → Result B → Result B
m >> k = m >>= λ _. k

-- `if (!test) return Error(...)`.
abbrev pub require : Bool → Error → String → ℤ → Status
require true c m d = success
require false c m d = fail c m d

-- `combinedFailureDetail`: both codes in one detail word.
unfoldable pub combined_failure_detail : Error → Error → ℤ
combined_failure_detail primary cleanup =
    pos (bit_or (code_number primary * 256) (code_number cleanup))

-- `statusContainsTimeout`: the code itself, or one of the two codes of a restore failure.
unfoldable pub status_contains_timeout : Status → Error → Bool
status_contains_timeout (ok _) timeout = false
status_contains_timeout (err f) timeout =
    same_code f.code timeout
    || (if same_code f.code restore_failed
        then (if is_nonneg f.detail then both_codes (pos_part f.detail) else false)
        else false)
  where
    both_codes : ℕ → Bool
    both_codes d =
        (bit_and (d / 256) 255 == code_number timeout) || (bit_and d 255 == code_number timeout)

pub data State : Type 0 where
  uninitialized ready converting fault : State

pub data DriverState : Type 0 where
  uninit operational degraded offline : DriverState

-- `MAX31865FaultStatus`.
pub record FaultStatus : Type 0 where
  pub raw : ℕ
  pub high_threshold : Bool
  pub low_threshold : Bool
  pub refin_high : Bool
  pub refin_low : Bool
  pub rtdin_low : Bool
  pub over_under_voltage : Bool

-- `MAX31865FaultStatus::any`.
abbrev pub any : FaultStatus → Bool
any f =
    f.high_threshold || f.low_threshold || f.refin_high || f.refin_low || f.rtdin_low
    || f.over_under_voltage
