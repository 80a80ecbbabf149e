-- ===== src/Driver/Faults.antt =====
-- The fault status register (src/MAX31865.cpp, `decodeFaultStatus`, `recordFaultObservation` and
-- `readFaultStatusInternal`).
pub mod Decoding
use max.Prelude.{ℕ, Bool, true, not, ◌||◌, pos, bit_and, ◌==◌, get_or, if◌then◌else◌}
use max.Status.{device_fault, FaultStatus, any, Status, success, fail}
use max.Commands.{
  reg_fault_status, fault_defined_mask, fault_high_threshold, fault_low_threshold, fault_refin_high,
  fault_refin_low, fault_rtdin_low, fault_over_under_voltage,
}
use max.Driver.{Transport, Counters, saturating_increment}
use max.Driver.Action.{◌>>◌, ◌>>=◌, Step, pure, modify_counters, modify_stamps, when}
use max.Driver.Access.{read_registers_internal}

unfoldable pub decode_fault_status : ℕ → FaultStatus
decode_fault_status raw =
    let documented = bit_and raw fault_defined_mask in
    record {
      raw = documented;
      high_threshold = not (bit_and documented fault_high_threshold == 0);
      low_threshold = not (bit_and documented fault_low_threshold == 0);
      refin_high = not (bit_and documented fault_refin_high == 0);
      refin_low = not (bit_and documented fault_refin_low == 0);
      rtdin_low = not (bit_and documented fault_rtdin_low == 0);
      over_under_voltage = not (bit_and documented fault_over_under_voltage == 0);
    }

-- `if (test) saturatingIncrement(counter)`.
abbrev count_if : Bool → ℕ → ℕ
count_if test counter = if test then saturating_increment counter else counter

unfoldable pub record_fault_observation : FaultStatus → Counters → Counters
record_fault_observation f c = if not (any f) then c else record c {
  fault_observation = saturating_increment c.fault_observation;
  threshold_fault_observation =
      count_if (f.high_threshold || f.low_threshold) c.threshold_fault_observation;
  reference_fault_observation =
      count_if (f.refin_high || f.refin_low || f.rtdin_low) c.reference_fault_observation;
  voltage_fault_observation = count_if f.over_under_voltage c.voltage_fault_observation;
}

-- The caller's `out` is written before a fault is reported: both are the value of the step, which
-- fails where the register could not be read.
unfoldable pub read_fault_status_internal :
    {W : Type 0} → Transport W → Bool → Step W (FaultStatus × Status)
read_fault_status_internal t count_observation = do
  bytes ← read_registers_internal t reg_fault_status 1
  let candidate = decode_fault_status (get_or bytes 0 0)
  modify_stamps (λ x. record x { has_last_fault_status = true; last_fault_status = candidate.raw })
  when count_observation (modify_counters (record_fault_observation candidate))
  pure (
    candidate,
    if any candidate
        then fail device_fault "MAX31865 fault status is asserted" (pos candidate.raw)
        else success,
  )
