-- ===== src/Driver/Probe.antt =====
-- The untracked probe (src/MAX31865.cpp, `probe`).
pub mod Untracked
use max.Prelude.{ℕ, Bool, false, true, ◌||◌, pos, get_or, if◌then◌else◌}
use max.Status.{
  chip_select_failed, restore_failed, probe_mismatch, not_initialized, busy, Status, success, fail,
  Result, ok, err, same_code, State, uninitialized, converting,
}
use max.Commands.{reg_fault_status}
use max.Config.{DeviceConfig, joined_register, persistent_config_byte}
use max.Protocol.{encode_threshold}
use max.Config.Bytes.{Image, image_matches}
use max.Driver.{Transport, Counters}
use max.Driver.Action.{
  ◌>>◌, ◌>>=◌, Step, pure, lift, gets, attempt, on_status, modify_driver, modify_counters, when,
}
use max.Driver.Bus.{faulted}
use max.Driver.Access.{read_registers_internal, read_persistent_image}
use max.Driver.Requests.{validate_timeout, make_operation}

-- `MAX31865DeviceInfo`.
pub record DeviceInfo : Type 0 where
  pub config : ℕ
  pub high_threshold : ℕ
  pub low_threshold : ℕ
  pub fault_status : ℕ
  pub matches_desired : Bool

-- The transport counters of `kept`, in a record that has moved on.
abbrev pub restore_counters : Counters → Counters → Counters
restore_counters kept c = record c {
  bus_lock_timeout = kept.bus_lock_timeout;
  bus_lock_failure = kept.bus_lock_failure;
  spi_transfer_failure = kept.spi_transfer_failure;
  chip_select_failure = kept.chip_select_failure;
}

abbrev encoded_or_zero : Result (ℕ × ℕ) → ℕ × ℕ
encoded_or_zero (ok bytes) = bytes
encoded_or_zero (err f) = (0, 0)

-- The image that the desired configuration should have; `probe` ignores the encoder's status.
unfoldable pub expected_image : DeviceConfig → Image
expected_image d =
    let high = encoded_or_zero (encode_threshold d.thresholds.high_code) in
    let low = encoded_or_zero (encode_threshold d.thresholds.low_code) in
    record {
      config = persistent_config_byte d d.bias_enabled false;
      thresholds = record {
        high_msb = high.0;
        high_lsb = high.1;
        low_msb = low.0;
        low_lsb = low.1;
      };
    }

unfoldable pub device_info : DeviceConfig → Image → ℕ → DeviceInfo
device_info desired image fault_status = record {
  config = image.config;
  high_threshold = joined_register image.thresholds.high_msb image.thresholds.high_lsb;
  low_threshold = joined_register image.thresholds.low_msb image.thresholds.low_lsb;
  fault_status = fault_status;
  matches_desired = image_matches (expected_image desired) image;
}

abbrev require_probe : State → Status
require_probe uninitialized = fail not_initialized "driver is not initialized" (pos 0)
require_probe converting = fail busy "probe is not legal during conversion" (pos 0)
require_probe _ = success

module _ {W : Type 0} (t : Transport W) where
  -- The reads of `probe`.
  unfoldable pub read_device : Step W (Image × ℕ)
  read_device = do
    image ← read_persistent_image t
    bytes ← read_registers_internal t reg_fault_status 1
    pure (image, get_or bytes 0 0)

  -- The reads, with the transport counters put back, and the status of the reads as a value.
  unfoldable pub read_untracked : Step W (Result (Image × ℕ))
  read_untracked = do
    kept ← gets (λ s. s.driver.counters)
    status ← attempt read_device
    modify_counters (restore_counters kept)
    pure status

  -- `out` is written before a mismatch is reported: both are the value of the step, which fails
  -- where the device could not be read.
  unfoldable pub probe : ℕ → Step W (DeviceInfo × Status)
  probe timeout_ms = do
    d ← gets (λ s. s.driver)
    lift (require_probe d.state)
    lift (validate_timeout timeout_ms false)
    make_operation t timeout_ms
    status ← read_untracked
    on_status status
        (λ found. do
          now ← gets (λ s. s.driver)
          let info = device_info now.desired found.0 found.1
          when (if info.matches_desired then false else true) (modify_driver faulted)
          pure (
            info,
            if info.matches_desired
                then success
                else fail probe_mismatch "probe image differs from desired configuration"
                    (pos info.config),
          ))
        λ f. do
          when (same_code f.code chip_select_failed || same_code f.code restore_failed)
              (modify_driver faulted)
          lift (err f)
