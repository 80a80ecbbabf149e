-- ===== src/Temperature.antt =====
-- The RTD settings and the temperature conversion (include/MAX31865/Config.h and src/MAX31865.cpp).
-- The program computes in `float` and `double`: the two types and the operations that the code
-- uses of them are parameters, and no law of theirs is assumed but where a theorem names it.
pub mod Curve
pub mod Settings
pub mod Scale
pub mod Thresholds
pub mod Requests
pub mod Agreement
pub mod Calls
pub mod Inversion
pub mod Delays
use max.Prelude.{ℕ, ℤ, pos, negsuc, Bool}
use max.Config.{default_input_filter_time_constant_us}

-- What the code does with the numbers of one type. `lit m e` is the literal of the decimal number
-- m / 10^e, and of an integer that is converted where e is 0.
pub record Arith (A : Type 0) : Type 0 where
  pub lit : ℤ → ℕ → A
  pub plus : A → A → A
  pub minus : A → A → A
  pub times : A → A → A
  pub over : A → A → A
  pub negated : A → A
  pub less : A → A → Bool
  pub at_most : A → A → Bool
  pub equal : A → A → Bool

infixl 65 ◌⊕◌ ◌⊖◌
infixl 70 ◌⊗◌ ◌⊘◌
infix 50 ◌≺◌ ◌≼◌
abbrev pub ◌⊕◌ : {A : Type 0} ⦃a : Arith A⦄ → A → A → A
◌⊕◌ ⦃a⦄ = a.plus

abbrev pub ◌⊖◌ : {A : Type 0} ⦃a : Arith A⦄ → A → A → A
◌⊖◌ ⦃a⦄ = a.minus

abbrev pub ◌⊗◌ : {A : Type 0} ⦃a : Arith A⦄ → A → A → A
◌⊗◌ ⦃a⦄ = a.times

abbrev pub ◌⊘◌ : {A : Type 0} ⦃a : Arith A⦄ → A → A → A
◌⊘◌ ⦃a⦄ = a.over

-- `x < y` and `x <= y`; `x > y` and `x >= y` are these with the sides exchanged.
abbrev pub ◌≺◌ : {A : Type 0} ⦃a : Arith A⦄ → A → A → Bool
◌≺◌ ⦃a⦄ = a.less

abbrev pub ◌≼◌ : {A : Type 0} ⦃a : Arith A⦄ → A → A → Bool
◌≼◌ ⦃a⦄ = a.at_most

abbrev pub equals : {A : Type 0} ⦃a : Arith A⦄ → A → A → Bool
equals ⦃a⦄ = a.equal

abbrev pub negate : {A : Type 0} ⦃a : Arith A⦄ → A → A
negate ⦃a⦄ = a.negated

abbrev pub literal : {A : Type 0} ⦃a : Arith A⦄ → ℤ → ℕ → A
literal ⦃a⦄ = a.lit

-- A number that the code converts from an integer, or writes without decimals.
abbrev pub whole : {A : Type 0} ⦃a : Arith A⦄ → ℕ → A
whole n = literal (pos n) 0

-- The conversions between `float` F and `double` D, and what the code calls of <math.h>.
pub record Casts (F D : Type 0) : Type 0 where
  pub widen : F → D
  pub narrow : D → F
  pub is_finite : D → Bool
  pub sqrt : D → D
  pub copysign : D → D → D
  pub floor : D → D
  -- `static_cast<uint32_t>`
  pub to_uint32 : D → ℕ
  -- `NAN`
  pub nan : F

-- `MAX31865RtdCoefficients` and `MAX31865RtdConfig`.
pub record RtdCoefficients (F : Type 0) : Type 0 where
  pub a : F
  pub b : F
  pub c : F

pub record RtdConfig (F : Type 0) : Type 0 where
  pub reference_resistor_ohms : F
  pub nominal_resistance_ohms : F
  pub coefficients : RtdCoefficients F
  pub input_filter_time_constant_us : ℕ
  pub minimum_temperature_c : F
  pub maximum_temperature_c : F

module _ {F : Type 0} ⦃single : Arith F⦄ where
  unfoldable pub iec60751_coefficients : RtdCoefficients F
  iec60751_coefficients = record {
    a = literal (pos 390830) 8;
    b = literal (negsuc 577499) 12;
    c = literal (negsuc 418300) 17;
  }

  unfoldable pub default_rtd_config : RtdConfig F
  default_rtd_config = record {
    reference_resistor_ohms = whole 400;
    nominal_resistance_ohms = whole 100;
    coefficients = iec60751_coefficients;
    input_filter_time_constant_us = default_input_filter_time_constant_us;
    minimum_temperature_c = literal (negsuc 199) 0;
    maximum_temperature_c = whole 850;
  }
