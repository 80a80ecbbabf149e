-- ===== src/Examples/Arduino.antt =====
-- Concrete runs of the theorems on the Arduino backend: a board whose state is the level of each
-- pin, without an arbiter.
use max.Prelude.{
  ℤ, pos, ◌≡◌, refl, Bool, true, false, not, ◌↔◌, ◌<◌, ◌≤◌, Option, none, some, ltb, arith,
  if◌then◌else◌,
}
use max.Status.{ok, success}
use max.Commands.{spi_max_hz}
use max.Arduino.{Pins, Arbiter, Backend, Platform, no_arbiter}
use max.Arduino.Wiring.{
  same_pin, validate_pins, check_pins, check_pin, check_outputs, is_input_capable,
  is_output_capable,
}
use max.Arduino.Wiring.Accepted.{IsWired, same_pin_iff, validate_pins_iff}
use max.Arduino.Binding.{incomplete, control_pins, bind, configure_control_pins}
use max.Arduino.Callbacks.{arduino_transport}
use max.Arduino.Contract.{IsTransport, PinLaws, ArbiterLaws}
use max.Arduino.SetUp.{stored, bind_iff, set_up-IsTransport}

abbrev in_use : ℤ → Bool
in_use (pos n) = ltb n 40
in_use _ = false

abbrev Levels : Type 0
Levels = ℤ → Bool

abbrev board : Platform (Unit {0}) Levels
board = record {
  default_settings = tt;
  pin_count = 40;
  pin_is_valid = in_use;
  pin_can_output = in_use;
  digital_write = λ pin high w other. if same_pin pin other then high else w other;
  digital_read = λ pin w. (w pin, w);
  pin_mode = λ pin output w. w;
  begin_transaction = λ s w. w;
  end_transaction = λ w. w;
  transfer_bytes = λ tx w. (tx, w);
  millis = λ w. (0, w);
  micros = λ w. (0, w);
  delay = λ ms w. w;
  delay_microseconds = λ us w. w;
}

abbrev wiring : Pins
wiring = record {
  sck = pos 18;
  miso = pos 19;
  mosi = pos 23;
  chip_select = pos 5;
  data_ready = pos 4;
}

abbrev level : ℤ → Levels → Bool
level pin w = w pin

abbrev nobody : Option (Arbiter Levels)
nobody = none

abbrev all_low : Levels
all_low pin = false

board-PinLaws : PinLaws board wiring level
board-PinLaws = record {
  wrote = λ pin high w. rw ((same_pin_iff pin pin).1 refl) refl;
  mode = λ pin other output w. refl;
  begun = λ pin s w. refl;
  ended = λ pin w. refl;
  exchanged = λ pin tx w h k. refl;
  read = λ pin other w. refl;
  clock = λ pin w. refl;
  micros = λ pin w. refl;
  slept = λ pin ms w. refl;
  delayed = λ pin us w. refl;
}

nobody-ArbiterLaws : ArbiterLaws (no_arbiter {W = Levels}) level (pos 5)
nobody-ArbiterLaws = record {
  locked = λ lock ms w e. absurd (nothing_there e);
  unlocked = λ unlock w e. absurd (nothing_there e);
}
  where
    nothing_there : {A : Type 0} {a : A} → none ≡ some a → ⊥
    nothing_there e = ground arith

bound : bind board tt 1000000 wiring nobody ≡ ok (stored tt 1000000 wiring nobody)
unfolding bind validate_pins check_pins check_pin check_outputs is_input_capable is_output_capable
bound = refl

abbrev ready_backend : Backend (Unit {0}) Levels
ready_backend = record (stored tt 1000000 wiring nobody) { pins_configured = true }

configured :
    configure_control_pins board (stored tt 1000000 wiring nobody) all_low
    ≡ (ok ready_backend, control_pins board wiring all_low)
unfolding configure_control_pins
configured = refl

set_up-IsTransport_example :
    IsTransport (arduino_transport board ready_backend) (λ v. not (level (pos 5) v))
    × (level (pos 5) (control_pins board wiring all_low) ≡ true)
set_up-IsTransport_example =
    set_up-IsTransport board tt 1000000 wiring nobody (stored tt 1000000 wiring nobody)
      ready_backend all_low (control_pins board wiring all_low) level bound configured board-PinLaws
      nobody-ArbiterLaws

validate_pins_iff_example : (validate_pins board wiring ≡ success) ↔ IsWired board wiring
validate_pins_iff_example = validate_pins_iff board wiring

bind_iff_example : (bind board tt 1000000 wiring nobody ≡ ok (stored tt 1000000 wiring nobody)) ↔ (
    (0 < 1000000)
    × (1000000 ≤ spi_max_hz)
    × IsWired board wiring
    × (incomplete nobody ≡ false)
    × (stored tt 1000000 wiring nobody ≡ stored tt 1000000 wiring nobody))
bind_iff_example = bind_iff board tt 1000000 wiring nobody (stored tt 1000000 wiring nobody)
