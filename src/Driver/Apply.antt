-- ===== src/Driver/Apply.antt =====
-- The configuration engine and the run-time CONFIG writes (src/MAX31865.cpp,
-- `applyConfigurationInternal`, `writeRuntimeConfig` and `clearFaultsInternal`).
pub mod Outcomes
use max.Prelude.{
  [], ℕ, Bool, false, not, ◌||◌, ◌&&◌, ◌∷◌, pos, bit_and, bit_or, ◌==◌, if◌then◌else◌,
}
use max.Status.{
  invalid_argument, chip_select_failed, restore_failed, Error, same_code, err, is_ok, ready,
}
use max.Commands.{
  reg_config, reg_high_fault_msb, config_one_shot, config_fault_cycle_mask, config_fault_clear,
}
use max.Config.{
  DeviceConfig, persistent_config_byte, validate_device_config, valid_fault_cycle_bits,
}
use max.Config.Bytes.{ThresholdBytes, threshold_list, encode_thresholds}
use max.Driver.{Transport, Driver}
use max.Driver.Action.{
  ◌>>◌, ◌>>=◌, Step, lift, raise, gets, attempt, on_status, modify_driver, modify_stamps, when,
}
use max.Driver.Bus.{faulted}
use max.Driver.Access.{write_registers_internal, verify_desired_image, idle}

-- The codes after which the registers are in doubt even if no transfer was attempted.
abbrev pub leaves_doubt : Error → Bool
leaves_doubt code = same_code code chip_select_failed || same_code code restore_failed

-- The members that a completed configuration sets.
abbrev pub configured : Driver → Driver
configured d = record d { conversion = idle d.conversion; state = ready }

-- The members that a run-time CONFIG write sets.
abbrev pub config_written : ℕ → Driver → Driver
config_written byte d = record d {
  observed = record d.observed { config = byte };
  observed_valid_mask = bit_or d.observed_valid_mask 1;
}

-- The command bits that `writeRuntimeConfig` accepts: known bits, and one command at a time.
unfoldable pub valid_command_bits : ℕ → Bool
valid_command_bits bits = not (
    not (bit_and bits 0xd1 == 0)
    || not (valid_fault_cycle_bits (bit_and bits config_fault_cycle_mask))
    || (not (bit_and bits config_one_shot == 0) && not (bit_and bits config_fault_cycle_mask == 0))
    || (not (bit_and bits config_fault_clear == 0)
        && not (bit_and bits (bit_or config_one_shot config_fault_cycle_mask) == 0)))

module _ {W : Type 0} (t : Transport W) where
  -- The driver takes the new configuration while it verifies it, and the old one if that fails.
  unfoldable pub adopt : DeviceConfig → Step W (Unit {0})
  adopt config = do
    previous ← gets (λ s. s.driver.desired)
    modify_driver (λ d. record d { desired = config })
    status ← attempt (verify_desired_image t)
    on_status status (λ _. modify_driver configured)
        λ f. do modify_driver (λ d. faulted (record d { desired = previous })); lift (err f)

  -- The three writes, from the normally-off and bias-off state; the flag of the result says
  -- whether one of them went through.
  unfoldable pub write_configuration : DeviceConfig → ThresholdBytes → Step W (Unit {0})
  write_configuration config thresholds = do
    first ←
        attempt
          (write_registers_internal t reg_config (persistent_config_byte config false false ∷ []) 1)
    status ← attempt do
      lift first
      write_registers_internal t reg_high_fault_msb (threshold_list thresholds) 4
      write_registers_internal t reg_config
          (persistent_config_byte config config.bias_enabled false ∷ []) 1
    o ← gets (λ s. s.operation)
    on_status status (λ _. lift status)
        λ f. do
          when (is_ok first || o.last_transfer_attempted || leaves_doubt f.code)
              (modify_driver faulted)
          lift (err f)

  unfoldable pub apply_configuration_internal : DeviceConfig → Step W (Unit {0})
  apply_configuration_internal config = do
    lift (validate_device_config config)
    thresholds ← lift (encode_thresholds config)
    write_configuration config thresholds
    adopt config

  unfoldable pub write_runtime_config : Bool → Bool → ℕ → Step W (Unit {0})
  write_runtime_config bias continuous command_bits =
      if not (valid_command_bits command_bits)
      then raise invalid_argument "invalid CONFIG command-bit combination" (pos 0)
      else do
        desired ← gets (λ s. s.driver.desired)
        let persistent = persistent_config_byte desired bias continuous
        status ←
            attempt (write_registers_internal t reg_config (bit_or persistent command_bits ∷ []) 1)
        o ← gets (λ s. s.operation)
        on_status status (λ _. modify_driver (config_written persistent))
            λ f. do
              when (o.last_transfer_attempted || leaves_doubt f.code) (modify_driver faulted)
              lift (err f)

  unfoldable pub clear_faults_internal : Step W (Unit {0})
  clear_faults_internal = do
    desired ← gets (λ s. s.driver.desired)
    write_runtime_config desired.bias_enabled false config_fault_clear
    modify_stamps (λ x. record x { has_last_fault_status = false })
