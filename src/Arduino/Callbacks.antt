-- ===== src/Arduino/Callbacks.antt =====
-- The callbacks that the backend gives to the driver, and the transport made of them
-- (src/platform/arduino/MAX31865ArduinoBackend.cpp). Each is given the user pointer, which may be
-- null; the transport passes its backend.
use max.Prelude.{
  ℕ, pos, Bool, true, not, ◌||◌, String, Option, none, some, List, ltb, ◌==◌, if◌then◌else◌, length,
}
use max.Status.{
  Error, invalid_state, bus_lock_timeout, bus_lock_failed, spi_transfer_failed, gpio_failed,
  code_number, same_code, Failure, Result, ok, err, fail,
}
use max.Commands.{max_frame_bytes}
use max.Driver.{Transport}
use max.Arduino.{Backend, Platform}
use max.Arduino.Wiring.{is_unused}
use max.Arduino.Binding.{invalid_clock}

abbrev failure : Error → String → ℕ → Failure
failure code message detail = record { code = code; msg = some message; detail = pos detail }

-- `pin`, the one enumerator of `MAX31865Pin`.
abbrev pub drdy : ℕ
drdy = 0

-- The arbiter's statuses that the backend passes on; any other becomes `BusLockFailed`.
abbrev arbiter_failure : Failure → Failure
arbiter_failure f =
    if same_code f.code bus_lock_timeout || same_code f.code bus_lock_failed
    then f
    else failure bus_lock_failed "Arduino bus arbiter returned invalid status" (code_number f.code)

module _ {S W : Type 0} where
  -- The backend that the user pointer points to, once it is configured.
  unfoldable pub validate_configured : Option (Backend S W) → Result (Backend S W)
  validate_configured none = fail invalid_state "Arduino control pins are not configured" (pos 0)
  validate_configured (some b) =
      if not b.has_spi || not b.pins_configured || invalid_clock b.spi_clock_hz
      then fail invalid_state "Arduino control pins are not configured" (pos 0)
      else ok b

module _ {W : Type 0} where
  -- A callback of a configured backend; one that is not configured is rejected without any call.
  abbrev configured_call :
      {A : Type 0} → Result A → (A → W → Option Failure × W) → W → Option Failure × W
  configured_call (ok b) f w = f b w
  configured_call (err e) f w = (some e, w)

  abbrev pub lock_arbiter : Option (ℕ → W → Option Failure × W) → ℕ → W → Option Failure × W
  lock_arbiter none ms w = (none, w)
  lock_arbiter (some lock) ms w = lock ms w

  abbrev pub unlock_arbiter : Option (W → W) → W → W
  unlock_arbiter none w = w
  unlock_arbiter (some unlock) w = unlock w

module _ {S W : Type 0} (p : Platform S W) where
  abbrev pub transaction_begun : Backend S W → Option Failure × W → Option Failure × W
  transaction_begun b (none, w) = (none, p.begin_transaction b.settings w)
  transaction_begun b (some f, w) = (some (arbiter_failure f), w)

  unfoldable pub lock_bus : Option (Backend S W) → ℕ → W → Option Failure × W
  lock_bus user timeout_ms =
      configured_call (validate_configured user)
        λ b w. transaction_begun b (lock_arbiter b.arbiter.lock timeout_ms w)

  unfoldable pub unlock_bus : Option (Backend S W) → W → W
  unlock_bus none w = w
  unlock_bus (some b) w =
      if not b.has_spi || not b.pins_configured
      then w
      else unlock_arbiter b.arbiter.unlock (p.end_transaction w)

  unfoldable pub set_chip_select : Option (Backend S W) → Bool → W → Option Failure × W
  set_chip_select user asserted =
      configured_call (validate_configured user)
        λ b w. (none, p.digital_write b.pins.chip_select (not asserted) w)

  abbrev pub exchanged : List ℕ → W → Option Failure × List ℕ × W
  exchanged tx w =
      if (length tx == 0) || ltb max_frame_bytes (length tx)
      then (some (failure spi_transfer_failed "invalid Arduino SPI transfer" 0), List.[], w)
      else let (rx, w') = p.transfer_bytes tx w in (none, rx, w')

  abbrev transferred : Result (Backend S W) → List ℕ → W → Option Failure × List ℕ × W
  transferred (ok b) tx w = exchanged tx w
  transferred (err e) tx w = (some e, List.[], w)

  -- The buffers are not null, as the driver passes them; the time that is left is not used.
  unfoldable pub transfer : Option (Backend S W) → List ℕ → ℕ → W → Option Failure × List ℕ × W
  transfer user tx timeout_ms w = transferred (validate_configured user) tx w

  -- The level that the caller passes keeps its value unless the pin is read.
  abbrev pub level_read :
      Result (Backend S W) → ℕ → Option Bool → W → Option Failure × Option Bool × W
  level_read (err e) role level w = (some e, level, w)
  level_read (ok b) role none w =
      (some (failure gpio_failed "Arduino GPIO input pointer is null" role), none, w)
  level_read (ok b) role (some level) w =
      if not (role == drdy)
      then (some (failure gpio_failed "Arduino GPIO read role is unsupported" role), some level, w)
      else if is_unused b.pins.data_ready
      then (some (failure gpio_failed "Arduino input pin is unavailable" role), some level, w)
      else let (observed, w') = p.digital_read b.pins.data_ready w in (none, some observed, w')

  unfoldable pub read_pin :
      Option (Backend S W) → ℕ → Option Bool → W → Option Failure × Option Bool × W
  read_pin user role level w = level_read (validate_configured user) role level w

  abbrev value_or : Bool → Option Bool → Bool
  value_or d none = d
  value_or d (some level) = level

  -- `max31865ArduinoTransport`: a snapshot of the capability; the callbacks read the backend,
  -- which stays as it is while a driver uses the transport.
  unfoldable pub arduino_transport : Backend S W → Transport W
  arduino_transport b = record {
    has_lock_bus = true;
    has_unlock_bus = true;
    has_set_chip_select = true;
    has_transfer = true;
    has_read_pin = true;
    has_now_ms = true;
    has_sleep_ms = true;
    has_delay_us = true;
    has_now_us = true;
    has_drdy = not (is_unused b.pins.data_ready);
    lock_bus = lock_bus (some b);
    unlock_bus = unlock_bus (some b);
    set_chip_select = set_chip_select (some b);
    transfer = transfer (some b);
    read_pin = λ w.
        let (r, level, w') = read_pin (some b) drdy (some true) w in (r, value_or true level, w');
    now_ms = p.millis;
    now_us = p.micros;
    sleep_ms = p.delay;
    delay_us = p.delay_microseconds;
  }
