-- ===== src/Arduino/Contract.antt =====
-- The contract of a transport, as include/MAX31865/Transport.h documents it, and the Arduino
-- backend against it.
use max.Prelude.{
  ℕ, ℤ, ◌≡◌, ◌≢◌, refl, sym, ap, ◌∙◌, ◌⊎◌, Bool, true, false, not, Option, none, some, List, arith,
}
use max.Status.{
  Error, invalid_state, bus_lock_timeout, bus_lock_failed, spi_transfer_failed, chip_select_failed,
  gpio_failed, Failure, ok, success,
}
use max.Driver.{Transport}
use max.Driver.Binding.{validate_transport}
use max.Driver.Bus.Level.{ChipSelectLaws}
use max.Arduino.{Pins, Arbiter, Backend, Platform}
use max.Arduino.Wiring.Accepted.{IsWired}
use max.Arduino.Binding.{invalid_clock}
use max.Arduino.Callbacks.{
  validate_configured, lock_bus, unlock_bus, set_chip_select, transfer, read_pin, arduino_transport,
  transaction_begun, lock_arbiter, unlock_arbiter, exchanged, level_read, drdy,
}

-- A failure has one of the codes that its callback documents.
abbrev HasCode : Option Failure → Error → Error → Type 0
HasCode none a b = Unit
HasCode (some f) a b = (f.code ≡ a) ⊎ (f.code ≡ b)

abbrev HasLockCode : Option Failure → Type 0
HasLockCode none = Unit
HasLockCode (some f) =
    (f.code ≡ invalid_state) ⊎ ((f.code ≡ bus_lock_timeout) ⊎ (f.code ≡ bus_lock_failed))

-- What the driver asks of its transport.
pub record IsTransport {W : Type 0} (t : Transport W) (selected : W → Bool) : Type 0 where
  pub complete : validate_transport t ≡ success
  pub chip_select : ChipSelectLaws t selected
  pub lock_codes : (ms : ℕ) (w : W) → HasLockCode (t.lock_bus ms w).0
  pub select_codes :
      (on : Bool) (w : W) → HasCode (t.set_chip_select on w).0 invalid_state chip_select_failed
  pub transfer_codes :
      (tx : List ℕ) (ms : ℕ) (w : W)
      → HasCode (t.transfer tx ms w).0 invalid_state spi_transfer_failed
  pub pin_codes : (w : W) → HasCode (t.read_pin w).0 invalid_state gpio_failed

-- What Arduino documents of the levels that pins are driven to: a write sets the level of its pin,
-- a mode, a transaction and the clock leave all levels, and a transfer moves its own two pins.
pub record PinLaws {S W : Type 0} (p : Platform S W) (pins : Pins) (level : ℤ → W → Bool)
    : Type 0 where
  pub wrote : (pin : ℤ) (high : Bool) (w : W) → level pin (p.digital_write pin high w) ≡ high
  pub mode :
      (pin other : ℤ) (output : Bool) (w : W) → level pin (p.pin_mode other output w) ≡ level pin w
  pub begun : (pin : ℤ) (s : S) (w : W) → level pin (p.begin_transaction s w) ≡ level pin w
  pub ended : (pin : ℤ) (w : W) → level pin (p.end_transaction w) ≡ level pin w
  pub exchanged :
      (pin : ℤ) (tx : List ℕ) (w : W)
      → pins.sck ≢ pin
      → pins.mosi ≢ pin
      → level pin (p.transfer_bytes tx w).1 ≡ level pin w
  pub read : (pin other : ℤ) (w : W) → level pin (p.digital_read other w).1 ≡ level pin w
  pub micros : (pin : ℤ) (w : W) → level pin (p.micros w).1 ≡ level pin w
  pub clock : (pin : ℤ) (w : W) → level pin (p.millis w).1 ≡ level pin w
  pub slept : (pin : ℤ) (ms : ℕ) (w : W) → level pin (p.delay ms w) ≡ level pin w
  pub delayed : (pin : ℤ) (us : ℕ) (w : W) → level pin (p.delay_microseconds us w) ≡ level pin w

-- The arbiter drives no pin of the device.
pub record ArbiterLaws {W : Type 0} (arbiter : Arbiter W) (level : ℤ → W → Bool) (pin : ℤ)
    : Type 0 where
  pub locked :
      (lock : ℕ → W → Option Failure × W) (ms : ℕ) (w : W)
      → arbiter.lock ≡ some lock
      → level pin (lock ms w).1 ≡ level pin w
  pub unlocked :
      (unlock : W → W) (w : W) → arbiter.unlock ≡ some unlock → level pin (unlock w) ≡ level pin w

not-not : (b : Bool) → not (not b) ≡ b
not-not b = ground arith

accepts : (f : Failure) → none ≡ some f → ⊥
accepts f e = ground arith

module _ {S W : Type 0} (p : Platform S W) where
  -- A backend that the callbacks accept.
  pub record IsUsable (b : Backend S W) : Type 0 where
    pub spi : b.has_spi ≡ true
    pub clock : invalid_clock b.spi_clock_hz ≡ false
    pub configured : b.pins_configured ≡ true
    pub wired : IsWired p b.pins

  accepted : (b : Backend S W) → IsUsable b → validate_configured (some b) ≡ ok b
  unfolding validate_configured
  accepted b u = rw (u.spi, u.clock, u.configured) refl

  module _ (level : ℤ → W → Bool) (b : Backend S W) (u : IsUsable b) (laws : PinLaws p b.pins level)
      (arbiter : ArbiterLaws b.arbiter level b.pins.chip_select) where
    abbrev selected : W → Bool
    selected w = not (level b.pins.chip_select w)

    select_lem :
        (on : Bool) (w : W)
        → set_chip_select p (some b) on w ≡ (none, p.digital_write b.pins.chip_select (not on) w)
    unfolding set_chip_select
    select_lem on w = rw (accepted b u) refl

    lock_lem :
        (ms : ℕ) (w : W)
        → lock_bus p (some b) ms w ≡ transaction_begun p b (lock_arbiter b.arbiter.lock ms w)
    unfolding lock_bus
    lock_lem ms w = rw (accepted b u) refl

    unlock_lem :
        (w : W) → unlock_bus p (some b) w ≡ unlock_arbiter b.arbiter.unlock (p.end_transaction w)
    unfolding unlock_bus
    unlock_lem w = rw (u.spi, u.configured) refl

    transfer_lem : (tx : List ℕ) (ms : ℕ) (w : W) → transfer p (some b) tx ms w ≡ exchanged p tx w
    unfolding transfer
    transfer_lem tx ms w = rw (accepted b u) refl

    begun_level :
        (r : Option Failure × W)
        → level b.pins.chip_select (transaction_begun p b r).1 ≡ level b.pins.chip_select r.1
    begun_level (none, w) = laws.begun _ _ w
    begun_level (some f, w) = refl

    arbiter_level :
        (lock : Option (ℕ → W → Option Failure × W)) (ms : ℕ) (w : W)
        → b.arbiter.lock ≡ lock
        → level b.pins.chip_select (lock_arbiter lock ms w).1 ≡ level b.pins.chip_select w
    arbiter_level none ms w e = refl
    arbiter_level (some lock) ms w e = arbiter.locked lock ms w e

    unlocked_level :
        (unlock : Option (W → W)) (w : W)
        → b.arbiter.unlock ≡ unlock
        → level b.pins.chip_select (unlock_arbiter unlock w) ≡ level b.pins.chip_select w
    unlocked_level none w e = refl
    unlocked_level (some unlock) w e = arbiter.unlocked unlock w e

    exchanged_level :
        (tx : List ℕ) (w : W)
        → level b.pins.chip_select (exchanged p tx w).2 ≡ level b.pins.chip_select w
    exchanged_level tx w =
        ground (
          arith,
          laws.exchanged b.pins.chip_select tx w u.wired.sck_alone.1.1.0 u.wired.mosi_alone.0,
        )

    pin_lem :
        (w : W) → read_pin p (some b) drdy (some true) w ≡ level_read p (ok b) drdy (some true) w
    unfolding read_pin
    pin_lem w = rw (accepted b u) refl

    read_level :
        (w : W)
        → level b.pins.chip_select (level_read p (ok b) drdy (some true) w).2
          ≡ level b.pins.chip_select w
    read_level w = ground (arith, laws.read b.pins.chip_select b.pins.data_ready w)

    laws-ChipSelectLaws : ChipSelectLaws (arduino_transport p b) selected
    unfolding arduino_transport
    laws-ChipSelectLaws = record {
      applied =
          λ on w e. rw (select_lem on w, laws.wrote b.pins.chip_select (not on) w) (not-not on);
      rejected = λ on w f e k. absurd (accepts f (sym (ap (λ x. x.0) (select_lem on w)) ∙ e));
      lock = λ ms w. rw (lock_lem ms w) (ap not (begun_level _ ∙ arbiter_level _ ms w refl));
      unlock = λ w. rw (unlock_lem w) (ap not (unlocked_level _ _ refl ∙ laws.ended _ w));
      bytes = λ tx ms w. rw (transfer_lem tx ms w) (ap not (exchanged_level tx w));
      pin = λ w. rw (pin_lem w) (ap not (read_level w));
      clock = λ w. ap not (laws.clock _ w);
      micros = λ w. ap not (laws.micros _ w);
      sleep = λ ms w. ap not (laws.slept _ ms w);
      delay = λ us w. ap not (laws.delayed _ us w);
    }

    -- The codes of the five callbacks, whatever the arbiter says.
    arbiter_code : (r : Option Failure × W) → HasLockCode (transaction_begun p b r).0
    arbiter_code (none, w) = tt
    arbiter_code (some f, w) = ground arith

    exchanged_code :
        (tx : List ℕ) (w : W) → HasCode (exchanged p tx w).0 invalid_state spi_transfer_failed
    exchanged_code tx w = ground arith

    pin_code :
        (w : W) → HasCode (level_read p (ok b) drdy (some true) w).0 invalid_state gpio_failed
    pin_code w = ground arith

    pub laws-IsTransport : IsTransport (arduino_transport p b) selected
    unfolding arduino_transport validate_transport
    laws-IsTransport = record {
      complete = ground arith;
      chip_select = laws-ChipSelectLaws;
      lock_codes = λ ms w. rw (lock_lem ms w) (arbiter_code _);
      select_codes = λ on w. rw (select_lem on w) tt;
      transfer_codes = λ tx ms w. rw (transfer_lem tx ms w) (exchanged_code tx w);
      pin_codes = λ w. rw (pin_lem w) (pin_code w);
    }
