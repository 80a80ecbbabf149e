-- ===== src/Arduino.antt =====
-- The Arduino backend of the transport (src/platform/arduino/MAX31865ArduinoBackend.cpp and
-- include/MAX31865/ArduinoBackend.h). The Arduino core, the SPI library and the application's
-- arbiter are parameters over whatever state `W` they share; `S` is the type of `SPISettings`.
pub mod Wiring
pub mod Binding
pub mod Callbacks
pub mod Contract
pub mod SetUp
use max.Prelude.{ℕ, ℤ, negsuc, Bool, false, Option, none, List}
use max.Status.{Failure}

-- `MAX31865Pins` (include/MAX31865/Config.h).
pub record Pins : Type 0 where
  pub sck : ℤ
  pub miso : ℤ
  pub mosi : ℤ
  pub chip_select : ℤ
  pub data_ready : ℤ

-- `MAX31865_PIN_UNUSED`.
abbrev pub pin_unused : ℤ
pin_unused = negsuc 0

-- `MAX31865ArduinoBusArbiter`. Its callbacks may be null; the user pointer is part of `W`.
pub record Arbiter (W : Type 0) : Type 0 where
  pub lock : Option (ℕ → W → Option Failure × W)
  pub unlock : Option (W → W)

-- `MAX31865ArduinoBackend`. Of the SPI object only whether it is bound is held.
pub record Backend (S W : Type 0) : Type 0 where
  pub has_spi : Bool
  pub settings : S
  pub spi_clock_hz : ℕ
  pub pins : Pins
  pub arbiter : Arbiter W
  pub pins_configured : Bool

-- What the backend calls of Arduino. A level is true for HIGH.
pub record Platform (S W : Type 0) : Type 0 where
  -- `SPISettings()`
  pub default_settings : S
  -- `SOC_GPIO_PIN_COUNT`, `digitalPinIsValid` and `digitalPinCanOutput`
  pub pin_count : ℕ
  pub pin_is_valid : ℤ → Bool
  pub pin_can_output : ℤ → Bool
  pub digital_write : ℤ → Bool → W → W
  pub digital_read : ℤ → W → Bool × W
  -- `pinMode`, true for OUTPUT
  pub pin_mode : ℤ → Bool → W → W
  pub begin_transaction : S → W → W
  pub end_transaction : W → W
  pub transfer_bytes : List ℕ → W → List ℕ × W
  pub millis : W → ℕ × W
  pub micros : W → ℕ × W
  pub delay : ℕ → W → W
  pub delay_microseconds : ℕ → W → W

abbrev pub no_pins : Pins
no_pins = record {
  sck = pin_unused;
  miso = pin_unused;
  mosi = pin_unused;
  chip_select = pin_unused;
  data_ready = pin_unused;
}

abbrev pub no_arbiter : {W : Type 0} → Arbiter W
no_arbiter = record { lock = none; unlock = none }

-- The constructor.
unfoldable pub unbound : {S W : Type 0} → Platform S W → Backend S W
unbound p = record {
  has_spi = false;
  settings = p.default_settings;
  spi_clock_hz = 0;
  pins = no_pins;
  arbiter = no_arbiter;
  pins_configured = false;
}
