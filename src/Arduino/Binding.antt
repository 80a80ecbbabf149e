-- ===== src/Arduino/Binding.antt =====
-- The binding of a backend and the set-up of its control pins
-- (`max31865ArduinoBackendBind` and `max31865ArduinoConfigureControlPins`).
use max.Prelude.{
  ℕ, ℤ, pos, Bool, true, false, not, ◌||◌, Option, none, some, ltb, ◌==◌, if◌then◌else◌, i32_max,
}
use max.Status.{invalid_argument, invalid_state, fail, Result, ok, require, ◌>>◌}
use max.Commands.{spi_max_hz}
use max.Arduino.{Pins, Arbiter, Backend, Platform, no_arbiter}
use max.Arduino.Wiring.{is_unused, validate_pins}

-- `spiClockHz == 0U || spiClockHz > SPI_MAX_HZ`.
abbrev pub invalid_clock : ℕ → Bool
invalid_clock hz = (hz == 0) || ltb spi_max_hz hz

abbrev pub clamped : ℕ → ℤ
clamped hz = if ltb i32_max hz then pos i32_max else pos hz

abbrev is_null : {A : Type 0} → Option A → Bool
is_null none = true
is_null (some a) = false

abbrev pub incomplete : {W : Type 0} → Option (Arbiter W) → Bool
incomplete none = false
incomplete (some a) = is_null a.lock || is_null a.unlock

abbrev pub stored_arbiter : {W : Type 0} → Option (Arbiter W) → Arbiter W
stored_arbiter none = no_arbiter
stored_arbiter (some a) = a

module _ {S W : Type 0} (p : Platform S W) where
  -- The result is the bound backend; on a failure the caller keeps the old one.
  unfoldable pub bind : S → ℕ → Pins → Option (Arbiter W) → Result (Backend S W)
  bind settings hz pins arbiter = do
    require (not (invalid_clock hz)) invalid_argument
        "Arduino SPI clock must be within the MAX31865 limit" (clamped hz)
    validate_pins p pins
    require (not (incomplete arbiter)) invalid_argument
        "Arduino arbiter requires lock and unlock callbacks" (pos 0)
    ok (record {
      has_spi = true;
      settings = settings;
      spi_clock_hz = hz;
      pins = pins;
      arbiter = stored_arbiter arbiter;
      pins_configured = false;
    })

  -- The pin calls, in their order.
  abbrev pub control_pins : Pins → W → W
  control_pins pins w =
      let driven = p.pin_mode pins.chip_select true (p.digital_write pins.chip_select true w) in
      if not (is_unused pins.data_ready) then p.pin_mode pins.data_ready false driven else driven

  unfoldable pub configure_control_pins : Backend S W → W → Result (Backend S W) × W
  configure_control_pins backend w =
      if not backend.has_spi
      then (fail invalid_state "Arduino backend is not bound" (pos 0), w)
      else (ok (record backend { pins_configured = true }), control_pins backend.pins w)
