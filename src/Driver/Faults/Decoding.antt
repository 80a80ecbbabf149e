-- ===== src/Driver/Faults/Decoding.antt =====
-- What the decoded fault status says of the register.
use max.Prelude.{
  ℕ, ◌+◌, ◌-◌, ◌%◌, ◌<◌, ◌≡◌, refl, Bool, true, not, ◌&&◌, ◌==◌, if◌then◌else◌, arith,
}
use max.Prelude.Bits.{all_below, all_below_sound}
use max.Status.{FaultStatus, any}
use max.Driver.Faults.{decode_fault_status}

-- The bits of the flags, put together again.
abbrev pub flag_bits : FaultStatus → ℕ
flag_bits f =
    (if f.high_threshold then 128 else 0)
    + (if f.low_threshold then 64 else 0)
    + (if f.refin_high then 32 else 0)
    + (if f.refin_low then 16 else 0)
    + (if f.rtdin_low then 8 else 0)
    + (if f.over_under_voltage then 4 else 0)

same_bool : Bool → Bool → Bool
same_bool true b = b
same_bool _ b = not b

same_bool-eq : (a b : Bool) → same_bool a b ≡ true → a ≡ b
unfolding same_bool
same_bool-eq a b h = ground arith

status_table :
    all_below 256 (λ raw.
      let f = decode_fault_status raw in
      (f.raw == raw - raw % 4) && (f.raw == flag_bits f) && same_bool (any f) (not (f.raw == 0)))
    ≡ true
unfolding all_below decode_fault_status same_bool
status_table = refl

-- For a register byte, the decoded status keeps the six documented bits, its flags are exactly
-- these bits, and some flag is set exactly where one of them is.
pub decode_fault_status_lem :
    (raw : ℕ)
    → raw < 256
    → let f = decode_fault_status raw in
      (f.raw ≡ raw - raw % 4) × (f.raw ≡ flag_bits f) × (any f ≡ not (f.raw == 0))
decode_fault_status_lem raw h =
    let entry = all_below_sound 256 _ raw status_table h in
    ground (
      arith,
      entry,
      same_bool-eq (any (decode_fault_status raw)) (not ((decode_fault_status raw).raw == 0)),
    )
