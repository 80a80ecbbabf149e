-- ===== src/Driver/Access.antt =====
-- Register access, the persistent image and its verification (src/MAX31865.cpp, from
-- `readRegistersInternal` to `writeRuntimeConfig`).
pub mod Rules
use max.Prelude.{
  [], ℕ, zero, suc, ◌+◌, true, false, ◌||◌, List, ◌∷◌, some, bit_or, u8, get_or, replicate,
}
use max.Status.{is_ok}
use max.Commands.{reg_config, reg_high_fault_msb, max_frame_bytes}
use max.Protocol.{encode_read_frame, encode_write_frame}
use max.Config.{persistent_config_byte}
use max.Config.Bytes.{Image, threshold_bytes, encode_thresholds, verify_image}
use max.Driver.{Transport, Driver, Conversion}
use max.Driver.Action.{
  Step, pure, lift, gets, attempt, ◌>>=◌, ◌>>◌, modify_driver, modify_operation, when,
}
use max.Driver.Bus.{write_noted, transact}

-- The buffers `tx` and `rx`, which start as zeros.
abbrev pub frame_buffer : List ℕ
frame_buffer = replicate max_frame_bytes 0

-- The first `n` bytes of the transmit buffer.
abbrev pub take : ℕ → List ℕ → List ℕ
take zero xs = []
take (suc n) [] = []
take (suc n) (x ∷ xs) = x ∷ take n xs

-- `memcpy(out, &rx[1], length)`: bytes of the receive buffer, from an index on.
abbrev pub received : ℕ → ℕ → List ℕ → List ℕ
received zero index rx = []
received (suc n) index rx = u8 (get_or rx index 0) ∷ received n (index + 1) rx

-- The members that a verified image sets. `kPersistentObservedMask` is 0x79.
abbrev pub verified : Image → Driver → Driver
verified image d = record d {
  observed = record d.observed {
    config = image.config;
    high_fault_msb = image.thresholds.high_msb;
    high_fault_lsb = image.thresholds.high_lsb;
    low_fault_msb = image.thresholds.low_msb;
    low_fault_lsb = image.thresholds.low_lsb;
  };
  observed_valid_mask = bit_or d.observed_valid_mask 0x79;
  configuration_known = true;
}

-- The conversion flags all false; the time marks stay.
abbrev pub idle : Conversion → Conversion
idle c = record c {
  continuous = false;
  one_shot_armed = false;
  one_shot_commit_pending = false;
  one_shot_commit_uncertain = false;
  fresh_result_armed = false;
  ready_latched = false;
  timed_readiness_halted = false;
}

module _ {W : Type 0} (t : Transport W) where
  unfoldable pub read_registers_internal : ℕ → ℕ → Step W (List ℕ)
  read_registers_internal start_address length = do
    frame ← lift (encode_read_frame start_address length (some frame_buffer) max_frame_bytes)
    rx ← transact t (take frame.1 frame.0)
    pure (received length 1 rx)

  unfoldable pub write_registers_internal : ℕ → List ℕ → ℕ → Step W (Unit {0})
  write_registers_internal start_address values length = do
    frame ←
        lift (
          encode_write_frame start_address (some values) length (some frame_buffer) max_frame_bytes)
    status ← attempt (transact t (take frame.1 frame.0))
    o ← gets (λ s. s.operation)
    when (is_ok status || o.last_transfer_attempted) (modify_operation write_noted)
    lift status >>= λ _. pure tt

  unfoldable pub read_persistent_image : Step W Image
  read_persistent_image = do
    config ← read_registers_internal reg_config 1
    thresholds ← read_registers_internal reg_high_fault_msb 4
    pure (record { config = get_or config 0 0; thresholds = threshold_bytes thresholds })

  unfoldable pub verify_desired_image : Step W (Unit {0})
  verify_desired_image = do
    desired ← gets (λ s. s.driver.desired)
    thresholds ← lift (encode_thresholds desired)
    actual ← read_persistent_image
    let config = persistent_config_byte desired desired.bias_enabled false
    lift (verify_image (record { config = config; thresholds = thresholds }) actual)
    modify_driver (verified actual)
