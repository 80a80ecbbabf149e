-- ===== src/Prelude/Bits.antt =====
-- Bit masks: tables over a byte, and the fields of a word that its digits show.
use Prim.Native.Nat.{
  ℕ, zero, suc, ◌+◌, ◌*◌, ◌/◌, ◌%◌, ◌≤◌, ◌<◌, max, min, bit_and, bit_or, digits, bitwise,
  bit_or-bitwise, bit_and-bitwise,
}
use mathlib.Core.Path.{◌≡◌, refl, sym, ap, ◌∙◌}
use mathlib.Core.Logic.{◌⊎◌, inl, inr}
use mathlib.Core.Bool.{Bool, true, ◌&&◌}
use native.Mathlib.Omega.{arith}

-- `p` holds at 0 to `bound` - 1: a table that evaluation checks.
unfoldable pub all_below : ℕ → (ℕ → Bool) → Bool
all_below zero p = true
all_below (suc bound) p = all_below bound p && p bound

and_parts : (a b : Bool) → (a && b) ≡ true → (a ≡ true) × (b ≡ true)
and_parts a b h = ground arith

last_or_before : (x bound : ℕ) → x < suc bound → (x ≡ bound) ⊎ (x < bound)
last_or_before x bound h = ground arith

pub all_below_sound :
    (bound : ℕ) (p : ℕ → Bool) (x : ℕ) → all_below bound p ≡ true → x < bound → p x ≡ true
unfolding all_below
all_below_sound zero p x table inside = absurd (omega arith)
all_below_sound (suc bound) p x table inside =
    let parts = and_parts (all_below bound p) (p bound) table in
    elim (last_or_before x bound inside) [
      | inl e ↦ ap p e ∙ parts.1
      | inr less ↦ all_below_sound bound p x parts.0 less
    ]

-- A count of digits beyond the first number changes nothing.
module _ (z : ℕ → ℕ) (f : ℕ → ℕ → ℕ) where
  digits-suc : (count a b : ℕ) → a ≤ count → digits z f (suc count) a b ≡ digits z f count a b
  digits-suc zero zero b enough = refl
  digits-suc zero (suc a) b enough = absurd (omega arith)
  digits-suc (suc count) zero b enough = refl
  digits-suc (suc count) (suc a) b enough =
      ap (λ high. high * 2 + f (suc a % 2) (b % 2))
        (digits-suc count (suc a / 2) (b / 2) (omega arith))

  digits-bitwise : (count a b : ℕ) → a ≤ count → digits z f count a b ≡ bitwise z f a b
  digits-bitwise zero zero b enough = refl
  digits-bitwise zero (suc a) b enough = absurd (omega arith)
  digits-bitwise (suc count) a b enough = elim (last_or_before a (suc count) (omega arith)) [
    | inl e ↦ ap (λ n. digits z f n a b) (sym e)
    | inr less ↦ digits-suc count a b (omega arith) ∙ digits-bitwise count a b (omega arith)
  ]

  -- The lowest digit, and the digits above it.
  bitwise-halves :
      (a b : ℕ)
      → bitwise z f (suc a) b ≡ bitwise z f (suc a / 2) (b / 2) * 2 + f (suc a % 2) (b % 2)
  bitwise-halves a b =
      ap (λ high. high * 2 + f (suc a % 2) (b % 2))
        (digits-bitwise a (suc a / 2) (b / 2) (omega arith))

or_halves : (a b : ℕ) → bit_or a b ≡ bit_or (a / 2) (b / 2) * 2 + max (a % 2) (b % 2)
or_halves zero b = omega (arith, bit_or-bitwise 0 b, bit_or-bitwise 0 (b / 2))
or_halves (suc a) b = omega (
  arith,
  bitwise-halves (λ y. y) max a b,
  bit_or-bitwise (suc a) b,
  bit_or-bitwise (suc a / 2) (b / 2),
)

and_halves : (a b : ℕ) → bit_and a b ≡ bit_and (a / 2) (b / 2) * 2 + min (a % 2) (b % 2)
and_halves zero b = omega (arith, bit_and-bitwise 0 b, bit_and-bitwise 0 (b / 2))
and_halves (suc a) b = omega (
  arith,
  bitwise-halves (λ y. zero) min a b,
  bit_and-bitwise (suc a) b,
  bit_and-bitwise (suc a / 2) (b / 2),
)

-- No second digit: `|` keeps the first number, and `&` nothing.
or_digits-none : (count a : ℕ) → a ≤ count → digits (λ y. y) max count a 0 ≡ a
or_digits-none zero a enough = omega arith
or_digits-none (suc count) zero enough = refl
or_digits-none (suc count) (suc a) enough =
    omega (arith, or_digits-none count (suc a / 2) (omega arith))

and_digits-none : (count a : ℕ) → digits (λ y. zero) min count a 0 ≡ 0
and_digits-none zero a = refl
and_digits-none (suc count) zero = refl
and_digits-none (suc count) (suc a) = omega (arith, and_digits-none count (suc a / 2))

or_none : (a : ℕ) → bit_or a 0 ≡ a
or_none a = bit_or-bitwise a 0 ∙ or_digits-none a a (omega arith)

and_none : (a : ℕ) → bit_and a 0 ≡ 0
and_none a = bit_and-bitwise a 0 ∙ and_digits-none a a

-- An even number joined with another one, digit by digit.
or_even : (a half b : ℕ) → a ≡ half * 2 → bit_or a b ≡ bit_or half (b / 2) * 2 + b % 2
or_even a half b e = omega (arith, or_halves a b, ap (λ x. bit_or x (b / 2)) halved)
  where
    halved : a / 2 ≡ half
    halved = omega arith

-- A number shifted by four bits, joined with four bits.
or_nibble :
    (high low : ℕ) → bit_or (high * 16) low ≡ bit_or high (low / 2 / 2 / 2 / 2) * 16 + low % 16
or_nibble high low = omega (
  arith,
  or_even (high * 16) (high * 8) low (omega arith),
  or_even (high * 8) (high * 4) (low / 2) (omega arith),
  or_even (high * 4) (high * 2) (low / 2 / 2) (omega arith),
  or_even (high * 2) high (low / 2 / 2 / 2) (omega arith),
)

-- A high byte and a low byte joined: `(hi << 8) | lo`.
pub bit_or_bytes : (hi lo : ℕ) → lo < 256 → bit_or (hi * 256) lo ≡ hi * 256 + lo
bit_or_bytes hi lo small = omega (
  arith,
  or_nibble (hi * 16) lo,
  or_nibble hi (lo / 2 / 2 / 2 / 2),
  ap (λ x. bit_or x lo) two_nibbles,
  ap (bit_or hi) nothing_left,
  or_none hi,
)
  where
    two_nibbles : hi * 256 ≡ hi * 16 * 16
    two_nibbles = omega arith

    nothing_left : lo / 2 / 2 / 2 / 2 / 2 / 2 / 2 / 2 ≡ 0
    nothing_left = omega arith

-- A mask of ones above one digit: it passes that digit on.
and_odd : (a mask : ℕ) → bit_and a (mask * 2 + 1) ≡ bit_and (a / 2) mask * 2 + a % 2
and_odd a mask = omega (arith, and_halves a (mask * 2 + 1), ap (bit_and (a / 2)) halved)
  where
    halved : (mask * 2 + 1) / 2 ≡ mask
    halved = omega arith

-- The lowest bit, at every word.
pub bit_and_low : (a : ℕ) → bit_and a 1 ≡ a % 2
bit_and_low a = omega (arith, and_odd a 0, and_none (a / 2))

and_three :
    (x mask : ℕ)
    → bit_and x (((mask * 2 + 1) * 2 + 1) * 2 + 1) ≡ bit_and (x / 2 / 2 / 2) mask * 8 + x % 8
and_three x mask = omega (
  arith,
  and_odd x ((mask * 2 + 1) * 2 + 1),
  and_odd (x / 2) (mask * 2 + 1),
  and_odd (x / 2 / 2) mask,
)

-- The low byte, at every word: `x & 0xFF`.
pub bit_and_low8 : (a : ℕ) → bit_and a 255 ≡ a % 256
bit_and_low8 a = omega (
  arith,
  and_three a 31,
  and_three (a / 2 / 2 / 2) 3,
  and_odd (a / 2 / 2 / 2 / 2 / 2 / 2) 1,
  bit_and_low (a / 2 / 2 / 2 / 2 / 2 / 2 / 2),
)
