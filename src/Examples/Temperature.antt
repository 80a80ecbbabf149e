-- ===== src/Examples/Temperature.antt =====
-- Concrete runs of the theorems on temperatures: numbers in millionths, on the naturals, and a
-- sensor whose curve is a straight line from 0 to 100 degrees.
use max.Prelude.{
  ℕ, ◌+◌, ◌-◌, ◌*◌, ◌/◌, ◌^◌, ◌≤◌, ◌≡◌, refl, true, false, ltb, leb, ◌==◌, arith, pos_part, u32,
  u32_max,
}
use max.Status.{ok, success}
use max.Commands.{manual_fault_settle_multiplier}
use max.Config.{bias_settle_us_for, post_fault_settle_us_for}
use max.Temperature.{Arith, Casts, RtdConfig, ◌≺◌, ◌≼◌}
use max.Temperature.Settings.{
  validate_rtd_config, check_grid, valid_resistors, valid_domain, valid_durations,
}
use max.Temperature.Curve.{
  curve_is_strictly_increasing, resistance_at_temperature, positive_part_rises, negative_part_rises,
  nonnegative_derivative_at, resistance_derivative_at_temperature,
}
use max.Temperature.Scale.{
  clamp, lowest, highest, midpoint, invert, bisect, resistance_to_temperature,
}
use max.Temperature.Delays.{validate_rtd_config-delays}
use max.Temperature.Inversion.{Halved, Brackets, resistance_to_temperature-Brackets}
use max.Temperature.Inversion.Domain.{RoundingLaws, resistance_to_temperature-domain}

instance abbrev pub millionths : Arith ℕ
millionths = record {
  lit = λ n places. pos_part n * 1000000 / 10 ^ places;
  plus = λ a b. a + b;
  minus = λ a b. a - b;
  times = λ a b. a * b / 1000000;
  over = λ a b. a * 1000000 / b;
  negated = λ a. 0;
  less = ltb;
  at_most = leb;
  equal = λ a b. a == b;
}

abbrev pub plain : Casts ℕ ℕ
plain = record {
  widen = λ a. a;
  narrow = λ a. a;
  is_finite = λ a. true;
  sqrt = λ a. a;
  copysign = λ a b. a;
  floor = λ a. a / 1000000 * 1000000;
  to_uint32 = λ a. a / 1000000;
  nan = 0;
}

abbrev pub line : RtdConfig ℕ
line = record {
  reference_resistor_ohms = 400000000;
  nominal_resistance_ohms = 100000000;
  coefficients = record { a = 4000; b = 0; c = 0 };
  input_filter_time_constant_us = 100;
  minimum_temperature_c = 0;
  maximum_temperature_c = 100000000;
}

accepted : validate_rtd_config plain line ≡ success
unfolding validate_rtd_config check_grid valid_resistors valid_domain valid_durations
    curve_is_strictly_increasing resistance_at_temperature positive_part_rises negative_part_rises
    nonnegative_derivative_at resistance_derivative_at_temperature
accepted = refl

-- 120 ohms are 50 degrees on this line, but for the rounding.
converted : resistance_to_temperature plain line 120000000 ≡ ok 49999999
unfolding resistance_to_temperature invert bisect resistance_at_temperature
converted = refl

plain-RoundingLaws : RoundingLaws plain
plain-RoundingLaws = record {
  at = λ x. x;
  compared = λ x y h k. refl;
  sum = λ a b least greatest ha hb hl hg h k. (refl, omega arith, omega arith);
  difference = λ x y low high hx hy hl hh h k l. (refl, omega arith, omega arith);
  half = λ x h k. (refl, omega arith, omega arith);
  rounded = λ x y hx hy h. ground arith;
  exact = λ x h. refl;
}

validate_rtd_config-delays_example :
    (bias_settle_us_for 100 ≡ (100 * 21 + 1) / 2 + 1000)
    × (post_fault_settle_us_for 100 ≡ 100 * 5 + 1000)
    × ((100 * 21 + 1) / 2 + 1000 ≤ u32_max)
    × (100 * 5 + 1000 ≤ u32_max)
    × (u32 (100 * manual_fault_settle_multiplier) ≡ 100 * 5)
validate_rtd_config-delays_example = validate_rtd_config-delays plain line accepted

resistance_to_temperature-Brackets_example :
    ((120000000 ≺ lowest plain line) ≡ false)
    × ((highest plain line ≺ 120000000) ≡ false)
    × ((low : ℕ) × (high : ℕ) × (midpoint low high ≡ 49999999)
        × Halved plain line (clamp (lowest plain line) (highest plain line) 120000000) 48 low high
        × Brackets plain line
            (clamp (lowest plain line) (highest plain line) 120000000)
            0
            100000000
            low
            high)
resistance_to_temperature-Brackets_example =
    resistance_to_temperature-Brackets plain line 120000000 49999999 converted

abbrev found : ℕ
found = 49999999

resistance_to_temperature-domain_example :
    ((line.minimum_temperature_c ≼ found) ≡ true) × ((found ≼ line.maximum_temperature_c) ≡ true)
resistance_to_temperature-domain_example =
    resistance_to_temperature-domain plain plain-RoundingLaws line 120000000 found accepted
      converted
