-- ===== src/Arduino/Wiring.antt =====
-- The wiring of the backend (`validatePins` and the pin tests of
-- src/platform/arduino/MAX31865ArduinoBackend.cpp).
pub mod Accepted
use max.Prelude.{
  [], ℕ, ℤ, pos, negsuc, Bool, false, not, ◌&&◌, ◌||◌, String, List, ◌∷◌, ltb, ◌==◌, if◌then◌else◌,
}
use max.Status.{◌>>◌, ◌>>=◌, Status, success, invalid_argument, fail}
use max.Arduino.{Pins, Platform, pin_unused}

-- `a == b` and `value < MAX31865_PIN_UNUSED` on `int32_t`.
abbrev pub same_pin : ℤ → ℤ → Bool
same_pin (pos a) (pos b) = a == b
same_pin (negsuc a) (negsuc b) = a == b
same_pin _ _ = false

abbrev pub is_unused : ℤ → Bool
is_unused pin = same_pin pin pin_unused

abbrev is_invalid : ℤ → Bool
is_invalid (pos n) = false
is_invalid (negsuc n) = ltb 0 n

abbrev in_range : ℕ → ℤ → Bool
in_range count (pos n) = ltb n count
in_range count (negsuc n) = false

-- `invalidPin`.
abbrev invalid_pin : String → ℤ → Status
invalid_pin message pin = fail invalid_argument message pin

-- The later roles of a used pin.
abbrev pub is_among : ℤ → List ℤ → Bool
is_among pin [] = false
is_among pin (other ∷ rest) = same_pin pin other || is_among pin rest

abbrev pub pin_list : Pins → List ℤ
pin_list pins = pins.sck ∷ pins.miso ∷ pins.mosi ∷ pins.chip_select ∷ pins.data_ready ∷ []

abbrev pub output_list : Pins → List ℤ
output_list pins = pins.sck ∷ pins.mosi ∷ pins.chip_select ∷ []

module _ {S W : Type 0} (p : Platform S W) where
  unfoldable pub is_input_capable : ℤ → Bool
  is_input_capable pin = in_range p.pin_count pin && p.pin_is_valid pin

  unfoldable pub is_output_capable : ℤ → Bool
  is_output_capable pin = in_range p.pin_count pin && p.pin_can_output pin

  -- One round of the first loop, with the pins of the later roles.
  unfoldable pub check_pin : ℤ → List ℤ → Status
  check_pin pin rest =
      if is_invalid pin
      then invalid_pin "invalid negative Arduino pin" pin
      else if not (is_unused pin) && not (is_input_capable pin)
      then invalid_pin "Arduino pin is outside target GPIO range" pin
      else if is_unused pin
      then success
      else if is_among pin rest
      then invalid_pin "duplicate Arduino pin role" pin
      else success

  unfoldable pub check_pins : List ℤ → Status
  check_pins [] = success
  check_pins (pin ∷ rest) = do check_pin pin rest; check_pins rest

  unfoldable pub check_outputs : List ℤ → Status
  check_outputs [] = success
  check_outputs (pin ∷ rest) =
      if not (is_output_capable pin)
      then invalid_pin "Arduino pin is not output-capable" pin
      else check_outputs rest

  unfoldable pub validate_pins : Pins → Status
  validate_pins pins =
      if is_unused pins.sck
        || is_unused pins.miso
        || is_unused pins.mosi
        || is_unused pins.chip_select
      then invalid_pin "required Arduino pin is unused" pin_unused
      else do check_pins (pin_list pins); check_outputs (output_list pins)
