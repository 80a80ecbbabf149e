-- ===== src/Driver/Normalize.antt =====
-- The statuses of the callbacks, brought to the codes of their roles (src/MAX31865.cpp, the
-- functions `normalize…Status`).
pub mod Roles
use max.Prelude.{Bool, true, false, ◌||◌, String, Option, none, some, pos, if◌then◌else◌}
use max.Status.{
  Error, invalid_state, bus_lock_timeout, bus_lock_failed, chip_select_failed, spi_transfer_failed,
  gpio_failed, code_number, same_code, Failure, ok, err, Status, success, fail,
}

-- `status.msg != nullptr ? status.msg : fallback`.
abbrev or_message : Option String → String → Option String
or_message none fallback = some fallback
or_message (some m) fallback = some m

-- The failure with its own code and detail, where the role documents the code, or the role's.
abbrev keep_or : Bool → Error → String → Failure → Status
keep_or true role fallback f =
    err (record { code = f.code; msg = or_message f.msg fallback; detail = f.detail })
keep_or false role fallback f = fail role fallback (pos (code_number f.code))

unfoldable pub normalize_lock_status : Option Failure → Status
normalize_lock_status none = success
normalize_lock_status (some f) =
    keep_or
      (same_code f.code invalid_state
        || same_code f.code bus_lock_timeout
        || same_code f.code bus_lock_failed)
      bus_lock_failed "bus lock callback failed" f

unfoldable pub normalize_chip_select_status : Option Failure → Status
normalize_chip_select_status none = success
normalize_chip_select_status (some f) =
    keep_or (same_code f.code invalid_state || same_code f.code chip_select_failed)
      chip_select_failed "chip-select callback failed" f

-- A rejected deassertion is a framing failure. The message is the callback's own, or a fallback.
abbrev promote : Option String → Status → Status
promote msg (ok _) = success
promote msg (err f) =
    if same_code f.code invalid_state
    then err (record {
      code = chip_select_failed;
      msg = or_message msg "chip-select deassert precondition failed";
      detail = pos (code_number invalid_state);
    })
    else err f

abbrev message : Option Failure → Option String
message (some f) = f.msg
message none = none

unfoldable pub normalize_required_deassert_status : Option Failure → Status
unfolding normalize_chip_select_status
normalize_required_deassert_status status =
    promote (message status) (normalize_chip_select_status status)

unfoldable pub normalize_transfer_status : Option Failure → Status
normalize_transfer_status none = success
normalize_transfer_status (some f) =
    keep_or (same_code f.code invalid_state || same_code f.code spi_transfer_failed)
      spi_transfer_failed "SPI transfer callback failed" f

unfoldable pub normalize_gpio_status : Option Failure → Status
normalize_gpio_status none = success
normalize_gpio_status (some f) =
    keep_or (same_code f.code invalid_state || same_code f.code gpio_failed) gpio_failed
      "GPIO callback failed" f
