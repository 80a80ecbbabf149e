-- ===== src/Protocol.antt =====
-- The register-frame codec (src/MAX31865_Protocol.cpp, include/MAX31865/Protocol.h). A buffer is
-- a list of bytes, `none` where the pointer is null; an encoder returns the destination as it is
-- left and the frame's length, and leaves both alone where it fails.
pub mod Frames
pub mod Words
use max.Prelude.{
  [], ℕ, zero, suc, ◌+◌, ◌-◌, ◌*◌, ◌/◌, Bool, true, false, not, ◌||◌, String, Option, none, some,
  List, ◌∷◌, pos, bit_and, bit_or, leb, ◌==◌, if◌then◌else◌, get_or, replicate, u8, u16, to_int32,
}
use max.Status.{
  ◌>>◌, ◌>>=◌, invalid_argument, register_address_invalid, unsupported_command, Result, ok, Status,
  success, fail, require,
}
use max.Commands.{
  read_mask, write_bit, num_registers, reg_config, reg_rtd_msb, reg_rtd_lsb, reg_high_fault_msb,
  reg_high_fault_lsb, reg_low_fault_msb, reg_low_fault_lsb, reg_fault_status, reg_last,
  config_persistent_mask, threshold_lsb_defined_mask, fault_defined_mask, rtd_fault_bit,
  adc_code_max,
}

pub data RegisterAccess : Type 0 where
  read_only read_write : RegisterAccess

unfoldable pub register_address_valid : ℕ → Bool
register_address_valid address = leb address reg_last

unfoldable pub register_access : ℕ → RegisterAccess
register_access address =
    if (address == reg_config)
      || (address == reg_high_fault_msb)
      || (address == reg_high_fault_lsb)
      || (address == reg_low_fault_msb)
      || (address == reg_low_fault_lsb)
    then read_write
    else read_only

unfoldable pub register_name : ℕ → String
register_name address =
    if address == reg_config
    then "CONFIG"
    else if address == reg_rtd_msb
    then "RTD_MSB"
    else if address == reg_rtd_lsb
    then "RTD_LSB"
    else if address == reg_high_fault_msb
    then "HIGH_FAULT_MSB"
    else if address == reg_high_fault_lsb
    then "HIGH_FAULT_LSB"
    else if address == reg_low_fault_msb
    then "LOW_FAULT_MSB"
    else if address == reg_low_fault_lsb
    then "LOW_FAULT_LSB"
    else if address == reg_fault_status
    then "FAULT_STATUS"
    else "INVALID"

unfoldable pub register_verify_mask : ℕ → ℕ
register_verify_mask address =
    if address == reg_config
    then config_persistent_mask
    else if (address == reg_rtd_msb)
        || (address == reg_rtd_lsb)
        || (address == reg_high_fault_msb)
        || (address == reg_low_fault_msb)
    then 255
    else if (address == reg_high_fault_lsb) || (address == reg_low_fault_lsb)
    then threshold_lsb_defined_mask
    else if address == reg_fault_status
    then fault_defined_mask
    else 0

unfoldable pub register_read_acknowledges_drdy : ℕ → Bool
register_read_acknowledges_drdy address = (address == reg_rtd_msb) || (address == reg_rtd_lsb)

unfoldable pub validate_span : ℕ → ℕ → Status
unfolding register_address_valid
validate_span start_address length = do
  require (register_address_valid start_address) register_address_invalid
      "invalid MAX31865 register start address" (pos start_address)
  require (not (length == 0)) invalid_argument "zero-length MAX31865 register span" (pos 0)
  require (leb length (num_registers - start_address)) register_address_invalid
      "MAX31865 register span exceeds the register map" (pos start_address)

abbrev is_some : {A : Type 0} → Option A → Bool
is_some none = false
is_some (some a) = true

-- The bytes that a pointer leads to.
abbrev pub contents : Option (List ℕ) → List ℕ
contents none = []
contents (some bytes) = bytes

-- The first `n` bytes of a buffer.
abbrev pub copy : ℕ → List ℕ → List ℕ
copy zero bytes = []
copy (suc n) [] = 0 ∷ copy n []
copy (suc n) (b ∷ bytes) = b ∷ copy n bytes

-- `tx[index] = frame[index]` for every index of the frame; the rest of `tx` stays.
abbrev pub overwrite : List ℕ → List ℕ → List ℕ
overwrite [] tx = tx
overwrite (b ∷ frame) [] = []
overwrite (b ∷ frame) (_ ∷ tx) = b ∷ overwrite frame tx

unfoldable pub encode_read_frame : ℕ → ℕ → Option (List ℕ) → ℕ → Result (List ℕ × ℕ)
unfolding validate_span
encode_read_frame start_address length tx capacity = do
  validate_span start_address length
  require (is_some tx) invalid_argument "null MAX31865 read-frame destination" (pos 0)
  let required = length + 1
  require (leb required capacity) invalid_argument "MAX31865 read-frame destination is too small"
      (to_int32 capacity)
  let frame = bit_and start_address read_mask ∷ replicate length 0
  ok (overwrite frame (contents tx), required)

-- The loop over the span: every address of it is writable.
check_writable : ℕ → ℕ → Status
unfolding register_access
check_writable zero address = success
check_writable (suc n) address =
    let rest = check_writable n (u8 (address + 1)) in
    elim (register_access address) [
      | read_write ↦ rest
      | read_only ↦
          fail unsupported_command "MAX31865 register span includes a read-only register"
            (pos address)
    ]

unfoldable pub encode_write_frame :
    ℕ → Option (List ℕ) → ℕ → Option (List ℕ) → ℕ → Result (List ℕ × ℕ)
unfolding validate_span check_writable
encode_write_frame start_address values length tx capacity = do
  validate_span start_address length
  require (not (not (is_some values) || not (is_some tx))) invalid_argument
      "null MAX31865 write-frame buffer" (pos 0)
  let required = length + 1
  require (leb required capacity) invalid_argument "MAX31865 write-frame destination is too small"
      (to_int32 capacity)
  check_writable length start_address
  let frame = bit_or start_address write_bit ∷ copy length (contents values)
  ok (overwrite frame (contents tx), required)

-- Two bytes as a big-endian 16-bit word.
abbrev pub packed : ℕ → ℕ → ℕ
packed msb lsb = u16 (bit_or (msb * 256) lsb)

pub record RtdWord : Type 0 where
  pub raw_register : ℕ
  pub raw_code : ℕ
  pub fault : Bool

unfoldable pub decode_rtd : Option (List ℕ) → ℕ → Result RtdWord
decode_rtd bytes length = do
  require (not (not (is_some bytes) || not (length == 2))) invalid_argument
      "MAX31865 RTD response must contain exactly two bytes" (to_int32 length)
  let word = packed (get_or (contents bytes) 0 0) (get_or (contents bytes) 1 0)
  ok (record {
    raw_register = word;
    raw_code = word / 2;
    fault = not (bit_and word rtd_fault_bit == 0);
  })

-- The two bytes that `max31865EncodeThreshold` writes; the destination is never null here.
unfoldable pub encode_threshold : ℕ → Result (ℕ × ℕ)
encode_threshold threshold = do
  require (leb threshold adc_code_max) invalid_argument "MAX31865 threshold code exceeds 15 bits"
      (pos threshold)
  let word = u16 (threshold * 2)
  ok (u8 (word / 256), u8 (bit_and word 255))

-- `max31865DecodeThreshold` at a source that is not null.
unfoldable pub decode_threshold : ℕ → ℕ → ℕ
decode_threshold msb lsb = packed msb lsb / 2
