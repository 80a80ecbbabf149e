-- ===== src/Arduino/Wiring/Accepted.antt =====
-- What an accepted wiring is.
use max.Prelude.{
  ℤ, ◌≡◌, ◌≢◌, ◌↔◌, ◌⊎◌, Bool, true, false, List, [], ◌∷◌, ◌||◌, All, arith, if◌then◌else◌,
}
use max.Status.{Failure, Status, success, ok, err, ◌>>◌}
use max.Arduino.{Pins, Platform, pin_unused}
use max.Arduino.Wiring.{
  same_pin, is_unused, is_among, pin_list, output_list, is_input_capable, is_output_capable,
  check_pin, check_pins, check_outputs, validate_pins,
}

pub same_pin_iff : (a b : ℤ) → (same_pin a b ≡ true) ↔ (a ≡ b)
same_pin_iff a b = ground (arith)

abbrev required : Pins → List ℤ
required pins = pins.sck ∷ pins.miso ∷ pins.mosi ∷ pins.chip_select ∷ []

-- Every used pin can be read and has a role of its own, and the outputs can be driven.
pub record IsWired {S W : Type 0} (p : Platform S W) (pins : Pins) : Type 0 where
  pub readable : All (λ pin. is_input_capable p pin ≡ true) (required pins)
  pub drdy_readable : pins.data_ready ≢ pin_unused → is_input_capable p pins.data_ready ≡ true
  pub drivable : All (λ pin. is_output_capable p pin ≡ true) (output_list pins)
  pub sck_alone :
      All (λ pin. pins.sck ≢ pin) (pins.miso ∷ pins.mosi ∷ pins.chip_select ∷ pins.data_ready ∷ [])
  pub miso_alone :
      All (λ pin. pins.miso ≢ pin) (pins.mosi ∷ pins.chip_select ∷ pins.data_ready ∷ [])
  pub mosi_alone : All (λ pin. pins.mosi ≢ pin) (pins.chip_select ∷ pins.data_ready ∷ [])
  pub chip_select_alone : pins.chip_select ≢ pins.data_ready

-- A guard that let pass.
passed :
    (b : Bool) (f : Failure) (k : Status)
    → (if b then err f else k) ≡ success
    → (b ≡ false) × (k ≡ success)
passed b f k e = ground arith

module _ {S W : Type 0} (p : Platform S W) where
  -- What one round of the loop accepts.
  abbrev Fits : ℤ → List ℤ → Type 0
  Fits pin rest =
      (pin ≡ pin_unused) ⊎ ((is_input_capable p pin ≡ true) × All (λ other. pin ≢ other) rest)

  among_iff :
      (pin : ℤ) (rest : List ℤ) → (is_among pin rest ≡ false) ↔ All (λ other. pin ≢ other) rest
  among_iff pin [] = ground arith
  among_iff pin (other ∷ rest) = ground (arith, same_pin_iff pin other, among_iff pin rest)

  check_pin_iff : (pin : ℤ) (rest : List ℤ) → (check_pin p pin rest ≡ success) ↔ Fits pin rest
  unfolding check_pin is_input_capable
  check_pin_iff pin rest = ground (arith, same_pin_iff pin pin_unused, among_iff pin rest)

  abbrev AllFit : List ℤ → Type 0
  AllFit [] = Unit
  AllFit (pin ∷ rest) = Fits pin rest × AllFit rest

  then_iff : (a b : Status) → ((a >> b) ≡ success) ↔ ((a ≡ success) × (b ≡ success))
  then_iff (ok _) b = ground arith
  then_iff (err f) b = ground arith

  check_pins_iff : (pins : List ℤ) → (check_pins p pins ≡ success) ↔ AllFit pins
  unfolding check_pins
  check_pins_iff [] = ground arith
  check_pins_iff (pin ∷ rest) = ground (
    arith,
    then_iff (check_pin p pin rest) (check_pins p rest),
    check_pin_iff pin rest,
    check_pins_iff rest,
  )

  check_outputs_iff :
      (pins : List ℤ)
      → (check_outputs p pins ≡ success) ↔ All (λ pin. is_output_capable p pin ≡ true) pins
  unfolding check_outputs
  check_outputs_iff [] = ground arith
  check_outputs_iff (pin ∷ rest) = ground (arith, check_outputs_iff rest)

  capable_used : (pin : ℤ) → is_input_capable p pin ≡ true → pin ≢ pin_unused
  unfolding is_input_capable
  capable_used pin h e = ground arith

  -- The pins of the four required roles, used.
  abbrev IsRequired : Pins → Type 0
  IsRequired pins = All (λ pin. pin ≢ pin_unused) (required pins)

  IsRequired-iff :
      (pins : Pins)
      → ((is_unused pins.sck
            || is_unused pins.miso
            || is_unused pins.mosi
            || is_unused pins.chip_select)
          ≡ false)
        ↔ IsRequired pins
  IsRequired-iff pins = ground (
    arith,
    same_pin_iff pins.sck pin_unused,
    same_pin_iff pins.miso pin_unused,
    same_pin_iff pins.mosi pin_unused,
    same_pin_iff pins.chip_select pin_unused,
  )

  wired :
      (pins : Pins)
      → IsRequired pins
      → AllFit (pin_list pins)
      → All (λ pin. is_output_capable p pin ≡ true) (output_list pins)
      → IsWired p pins
  wired pins r f o = ground arith

  unwired : (pins : Pins) → IsWired p pins → AllFit (pin_list pins)
  unwired pins w = ground (arith)

  checked_iff :
      (pins : Pins)
      → ((check_pins p (pin_list pins) >> check_outputs p (output_list pins)) ≡ success)
        ↔ (AllFit (pin_list pins) × All (λ pin. is_output_capable p pin ≡ true) (output_list pins))
  checked_iff pins = ground (
    arith,
    then_iff (check_pins p (pin_list pins)) (check_outputs p (output_list pins)),
    check_pins_iff (pin_list pins),
    check_outputs_iff (output_list pins),
  )

  used : (pins : Pins) → IsWired p pins → IsRequired pins
  used pins w = ground (
    arith,
    capable_used pins.sck,
    capable_used pins.miso,
    capable_used pins.mosi,
    capable_used pins.chip_select,
  )

  -- A wiring is accepted exactly when every used pin can be read and has a role of its own and the
  -- three output pins can be driven.
  pub validate_pins_iff : (pins : Pins) → (validate_pins p pins ≡ success) ↔ IsWired p pins
  unfolding validate_pins
  validate_pins_iff pins = (
    λ e.
        let r = (IsRequired-iff pins).0 (passed _ _ _ e).0 in
        let c = (checked_iff pins).0 (passed _ _ _ e).1 in wired pins r c.0 c.1,
    λ w.
        rw ((IsRequired-iff pins).1 (used pins w))
          ((checked_iff pins).1 (unwired pins w, w.drivable)),
  )
