-- ===== src/Protocol/Words.antt =====
-- Thresholds and RTD words: what is written is read back, and every word splits into its code and
-- its fault bit.
use max.Prelude.{
  ℕ, ◌+◌, ◌-◌, ◌*◌, ◌/◌, ◌%◌, ◌≤◌, ◌<◌, ◌≡◌, refl, not, some, [], ◌∷◌, arith, ◌==◌, if◌then◌else◌,
  bit_and, u16, le→leb,
}
use max.Prelude.Bits.{bit_or_bytes, bit_and_low, bit_and_low8}
use max.Status.{ok}
use max.Commands.{adc_code_max, rtd_fault_bit}
use max.Protocol.{packed, encode_threshold, decode_threshold, decode_rtd, RtdWord}

pub packed_lem : (msb lsb : ℕ) → msb < 256 → lsb < 256 → packed msb lsb ≡ msb * 256 + lsb
packed_lem msb lsb h k = omega (arith, bit_or_bytes msb lsb k)

pub encode_threshold_lem :
    (threshold : ℕ)
    → threshold ≤ adc_code_max
    → encode_threshold threshold ≡ ok (threshold / 128, threshold % 128 * 2)
unfolding encode_threshold
encode_threshold_lem c h = rw (le→leb c adc_code_max h, bit_and_low8) (ground (arith, high, low))
  where
    high : u16 (c * 2) / 256 % 256 ≡ c / 128
    high = omega arith

    low : u16 (c * 2) % 256 % 256 ≡ c % 128 * 2
    low = omega arith

-- Every threshold code that fits 15 bits is encoded as two bytes, the second one even, and
-- decoding these bytes gives the code back.
pub decode-encode_threshold :
    (threshold : ℕ)
    → threshold ≤ adc_code_max
    → (bytes : ℕ × ℕ) × (encode_threshold threshold ≡ ok bytes)
      × (bytes.0 < 256)
      × (bytes.1 < 256)
      × (bytes.1 % 2 ≡ 0)
      × (decode_threshold bytes.0 bytes.1 ≡ threshold)
unfolding decode_threshold
decode-encode_threshold c h = (
  (c / 128, c % 128 * 2),
  encode_threshold_lem c h,
  omega arith,
  omega arith,
  omega arith,
  omega (arith, packed_lem (c / 128) (c % 128 * 2) (omega arith) (omega arith)),
)

-- Two bytes decode to a code that fits 15 bits, and encoding this code gives the two bytes back
-- with the lowest bit cleared, which the device does not store.
pub encode-decode_threshold :
    (msb lsb : ℕ)
    → msb < 256
    → lsb < 256
    → (decode_threshold msb lsb ≤ adc_code_max)
      × (encode_threshold (decode_threshold msb lsb) ≡ ok (msb, lsb - lsb % 2))
unfolding decode_threshold
encode-decode_threshold msb lsb h k =
    (fits, rw (encode_threshold_lem _ fits) (ground (arith, word)))
  where
    word : packed msb lsb ≡ msb * 256 + lsb
    word = packed_lem msb lsb h k

    fits : packed msb lsb / 2 ≤ adc_code_max
    fits = omega (arith, word)

-- An RTD frame of two bytes is never refused; its register is the big-endian word, its code fits
-- 15 bits, and the register is twice the code plus the fault bit.
pub decode_rtd_lem :
    (msb lsb : ℕ)
    → msb < 256
    → lsb < 256
    → (word : RtdWord) × (decode_rtd (some (msb ∷ lsb ∷ [])) 2 ≡ ok word)
      × (word.raw_register ≡ msb * 256 + lsb)
      × (word.raw_code ≤ adc_code_max)
      × (word.raw_register ≡ word.raw_code * 2 + (if word.fault then 1 else 0))
unfolding decode_rtd
decode_rtd_lem msb lsb h k = (_, refl, word, omega (arith, word), split (packed msb lsb))
  where
    word : packed msb lsb ≡ msb * 256 + lsb
    word = packed_lem msb lsb h k

    split : (w : ℕ) → w ≡ w / 2 * 2 + (if not (bit_and w rtd_fault_bit == 0) then 1 else 0)
    split w = ground (arith, bit_and_low w)
