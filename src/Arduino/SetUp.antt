-- ===== src/Arduino/SetUp.antt =====
-- The set-up of a backend: its binding, its control pins, and the transport that it then gives.
use max.Prelude.{
  ℕ, ℤ, pos, ◌≡◌, ◌↔◌, ◌≤◌, ◌<◌, refl, sym, subst, ap, ◌∙◌, Bool, true, false, not, String, Option,
  arith,
}
use max.Status.{invalid_argument, Error, Status, ok, err, success, require, ◌>>◌}
use max.Commands.{spi_max_hz}
use max.Arduino.{Pins, Arbiter, Backend, Platform}
use max.Arduino.Wiring.{validate_pins}
use max.Arduino.Wiring.Accepted.{IsWired, validate_pins_iff}
use max.Arduino.Binding.{
  invalid_clock, clamped, incomplete, stored_arbiter, bind, control_pins, configure_control_pins,
}
use max.Arduino.Callbacks.{arduino_transport}
use max.Arduino.Contract.{IsTransport, IsUsable, PinLaws, ArbiterLaws, laws-IsTransport}

-- The backend that a binding stores.
abbrev pub stored : {S W : Type 0} → S → ℕ → Pins → Option (Arbiter W) → Backend S W
stored settings hz pins arbiter = record {
  has_spi = true;
  settings = settings;
  spi_clock_hz = hz;
  pins = pins;
  arbiter = stored_arbiter arbiter;
  pins_configured = false;
}

-- A chain of three guards.
guarded_iff :
    {A : Type 0} (x y z : Status) (a b : A)
    → ((x >> (y >> (z >> ok a))) ≡ ok b) ↔ ((x ≡ success) × (y ≡ success) × (z ≡ success) × (a ≡ b))
guarded_iff (ok _) (ok _) (ok _) a b = ground arith
guarded_iff (ok _) (ok _) (err f) a b = ground arith
guarded_iff (ok _) (err f) z a b = ground arith
guarded_iff (err f) y z a b = ground arith

allowed_iff :
    (c : Error) (m : String) (d : ℤ) (b : Bool) → (require (not b) c m d ≡ success) ↔ (b ≡ false)
allowed_iff c m d b = ground arith

clock_iff : (hz : ℕ) → (invalid_clock hz ≡ false) ↔ ((0 < hz) × (hz ≤ spi_max_hz))
clock_iff hz = ground arith

module _ {S W : Type 0} (p : Platform S W) where
  -- A binding is accepted exactly when the clock is positive and within the device's limit, the
  -- wiring is accepted, and an arbiter, where there is one, has both callbacks; the backend that is
  -- stored is then the one that was given, with its control pins not configured yet.
  pub bind_iff :
      (settings : S) (hz : ℕ) (pins : Pins) (arbiter : Option (Arbiter W)) (b : Backend S W)
      → (bind p settings hz pins arbiter ≡ ok b) ↔ (
          (0 < hz)
          × (hz ≤ spi_max_hz)
          × IsWired p pins
          × (incomplete arbiter ≡ false)
          × (stored settings hz pins arbiter ≡ b))
  unfolding bind
  bind_iff settings hz pins arbiter b = ground (
    arith,
    guarded_iff
        (require (not (invalid_clock hz)) invalid_argument
          "Arduino SPI clock must be within the MAX31865 limit" (clamped hz))
        (validate_pins p pins)
        (require (not (incomplete arbiter)) invalid_argument
          "Arduino arbiter requires lock and unlock callbacks" (pos 0))
        (stored settings hz pins arbiter) b,
    allowed_iff invalid_argument "Arduino SPI clock must be within the MAX31865 limit" (clamped hz)
        (invalid_clock hz),
    allowed_iff invalid_argument "Arduino arbiter requires lock and unlock callbacks" (pos 0)
        (incomplete arbiter),
    clock_iff hz,
    validate_pins_iff p pins,
  )

  configured_lem :
      (b b' : Backend S W) (w w' : W)
      → configure_control_pins p b w ≡ (ok b', w')
      → (b.has_spi ≡ true)
        × (record b { pins_configured = true } ≡ b')
        × (control_pins p b.pins w ≡ w')
  unfolding configure_control_pins
  configured_lem b b' w w' e = ground arith

  -- The inactive level is written before the output is enabled, and nothing moves it then.
  control_pins-high :
      (pins : Pins) (level : ℤ → W → Bool) (w : W)
      → PinLaws p pins level
      → level pins.chip_select (control_pins p pins w) ≡ true
  control_pins-high pins level w laws = ground (
    arith,
    laws.wrote pins.chip_select true w,
    laws.mode pins.chip_select pins.chip_select true (p.digital_write pins.chip_select true w),
    laws.mode pins.chip_select pins.data_ready false
        (p.pin_mode pins.chip_select true (p.digital_write pins.chip_select true w)),
  )

  usable :
      (settings : S) (hz : ℕ) (pins : Pins) (arbiter : Option (Arbiter W))
      → (0 < hz) × (hz ≤ spi_max_hz)
      → IsWired p pins
      → IsUsable p (record (stored settings hz pins arbiter) { pins_configured = true })
  usable settings hz pins arbiter c w = record {
    spi = refl;
    clock = (clock_iff hz).1 c;
    configured = refl;
    wired = w;
  }

  -- A backend that was bound and whose control pins were then configured gives the driver a
  -- transport that keeps its contract: the required callbacks are there, a chip-select call that
  -- succeeds sets the level and nothing else moves it, and each callback fails with its documented
  -- codes only; and chip select is high from the set-up on. Arduino's pin calls must do what they
  -- document, and the arbiter must leave the chip-select pin alone.
  pub set_up-IsTransport :
      (settings : S) (hz : ℕ) (pins : Pins) (arbiter : Option (Arbiter W)) (b b' : Backend S W)
      (w w' : W) (level : ℤ → W → Bool)
      → bind p settings hz pins arbiter ≡ ok b
      → configure_control_pins p b w ≡ (ok b', w')
      → PinLaws p pins level
      → ArbiterLaws (stored_arbiter arbiter) level pins.chip_select
      → IsTransport (arduino_transport p b') (λ v. not (level pins.chip_select v))
        × (level pins.chip_select w' ≡ true)
  set_up-IsTransport settings hz pins arbiter b b' w w' level bound configured laws keeps =
      let c = configured_lem b b' w w' configured in
      set_up (ap {A = Backend S W} (λ x. record x { pins_configured = true }) h.4 ∙ c.1)
        (ap (λ x. control_pins p x.pins w) h.4 ∙ c.2)
    where
      h :
          (0 < hz)
          × (hz ≤ spi_max_hz)
          × IsWired p pins
          × (incomplete arbiter ≡ false)
          × (stored settings hz pins arbiter ≡ b)
      h = (bind_iff settings hz pins arbiter b).0 bound

      set_up :
          (record (stored settings hz pins arbiter) { pins_configured = true } ≡ b')
          → (control_pins p pins w ≡ w')
          → IsTransport (arduino_transport p b') (λ v. not (level pins.chip_select v))
            × (level pins.chip_select w' ≡ true)
      set_up e k = (
        subst (λ x. IsTransport (arduino_transport p x) λ v. not (level pins.chip_select v)) e
            (laws-IsTransport p level _ (usable settings hz pins arbiter (h.0, h.1) h.2) laws
              keeps),
        ap (level pins.chip_select) (sym k) ∙ control_pins-high pins level w laws,
      )
