-- ===== src/Config/Validation.antt =====
-- What the configuration validator accepts.
use max.Prelude.{◌≤◌, ◌≡◌, ◌≢◌, ◌↔◌, refl, true, arith}
use max.Status.{success}
use max.Commands.{adc_code_max}
use max.Config.{
  WireMode, two_wire, three_wire, four_wire, other_wire, Filter, hz60, hz50, other_filter,
  DeviceConfig, validate_device_config, valid_wire_mode, valid_filter,
}

valid_wire_mode_iff : (m : WireMode) → (valid_wire_mode m ≡ true) ↔ (m ≢ other_wire)
valid_wire_mode_iff two_wire = (λ _ e. cc, λ _. refl)
valid_wire_mode_iff three_wire = (λ _ e. cc, λ _. refl)
valid_wire_mode_iff four_wire = (λ _ e. cc, λ _. refl)
valid_wire_mode_iff other_wire = (λ h. cc, λ h. absurd (h refl))

valid_filter_iff : (f : Filter) → (valid_filter f ≡ true) ↔ (f ≢ other_filter)
valid_filter_iff hz60 = (λ _ e. cc, λ _. refl)
valid_filter_iff hz50 = (λ _ e. cc, λ _. refl)
valid_filter_iff other_filter = (λ h. cc, λ h. absurd (h refl))

validated :
    (config : DeviceConfig)
    → (validate_device_config config ≡ success) ↔ (
        (valid_wire_mode config.wire_mode ≡ true)
        × (valid_filter config.filter ≡ true)
        × (config.thresholds.low_code ≤ config.thresholds.high_code)
        × (config.thresholds.high_code ≤ adc_code_max))
unfolding validate_device_config
validated config = ground arith

-- What `validateDeviceConfig` accepts: the modes are enumerators, and the thresholds are ordered
-- and fit 15 bits.
pub validate_device_config_iff :
    (config : DeviceConfig)
    → (validate_device_config config ≡ success) ↔ (
        (config.wire_mode ≢ other_wire)
        × (config.filter ≢ other_filter)
        × (config.thresholds.low_code ≤ config.thresholds.high_code)
        × (config.thresholds.high_code ≤ adc_code_max))
validate_device_config_iff config = (
  λ h. (
    (valid_wire_mode_iff config.wire_mode).0 ((validated config).0 h).0,
    (valid_filter_iff config.filter).0 ((validated config).0 h).1,
    ((validated config).0 h).2,
    ((validated config).0 h).3,
  ),
  λ v. (validated config).1 (
    (valid_wire_mode_iff config.wire_mode).1 v.0,
    (valid_filter_iff config.filter).1 v.1,
    v.2,
    v.3,
  ),
)
