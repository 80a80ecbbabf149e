-- ===== src/Driver/Consistency/Reachable.antt =====
-- The driver's life as a sequence of calls. Between two calls the world may change in any way.
use max.Prelude.{ℕ, ◌≡◌, refl, Bool, true, false, Option, if◌then◌else◌, arith}
use max.Config.{WireMode, Filter, DeviceConfig, FaultThresholds}
use max.Driver.{Transport, Driver, Context, reset_local_state}
use max.Driver.Health.{clear_lifetime_counters, set_offline_threshold}
use max.Driver.Readiness.{tick, update_timed_readiness}
use max.Driver.Requests.{
  apply_configuration, configure_measurement, set_bias, set_wire_mode, set_filter,
}
use max.Driver.Probe.{probe}
use max.Driver.Start.{start_continuous, trigger_single_conversion, stop, data_ready}
use max.Driver.Detection.{
  read_fault_status, clear_faults, run_automatic_fault_detection, run_manual_fault_detection,
  set_fault_thresholds_raw, read_fault_thresholds_raw,
}
use max.Driver.Binding.{BeginConfig}
use max.Driver.Lifecycle.{begin, recover}
use max.Driver.Samples.{ReadOptions}
use max.Driver.Sampling.{poll, read_sample, read_single, read_one_shot}
use max.Driver.Raw.{
  write_register, write_register_verified, read_registers, restore_writable_defaults, read_register,
  dump_registers, register_readback_test,
}
use max.Temperature.{Arith, Casts, RtdConfig}
use max.Temperature.Settings.{set_rtd_config}
use max.Temperature.Scale.{scaling_of}
use max.Temperature.Requests.{
  set_fault_thresholds_resistance, set_fault_thresholds_temperature,
  read_fault_thresholds_resistance, read_fault_thresholds_temperature, read_configuration,
}
use max.Temperature.Agreement.{
  set_rtd_config-agrees, set_fault_thresholds_resistance-Agrees,
  set_fault_thresholds_temperature-Agrees, read_fault_thresholds_resistance-Agrees,
  read_fault_thresholds_temperature-Agrees, read_configuration-Agrees,
}
use max.Driver.Consistency.{is_consistent, Agrees, timed-agrees}
use max.Driver.Consistency.Requests.{
  start_continuous-Agrees, trigger_single_conversion-Agrees, stop-Agrees, data_ready-Agrees,
}
use max.Driver.Consistency.Requests.Configuring.{
  apply_configuration-Agrees, apply_changed-Agrees, set_fault_thresholds_raw-Agrees,
  clear_faults-Agrees, restore_writable_defaults-Agrees, write_register-Agrees,
  write_register_verified-Agrees, read_registers-Agrees, read_register-Agrees,
  dump_registers-Agrees, read_fault_thresholds_raw-Agrees,
}
use max.Driver.Consistency.ReadBack.{register_readback_test-Agrees}
use max.Driver.Consistency.Requests.Samples.{
  poll-Agrees, read_sample-Agrees, read_single-Agrees, read_one_shot-Agrees,
}
use max.Driver.Consistency.Cleanup.{
  read_fault_status-Agrees, run_automatic_fault_detection-Agrees, run_manual_fault_detection-Agrees,
}
use max.Driver.Consistency.Lifecycle.{begin-Agrees, recover-Agrees, probe-Agrees}

-- A call of a public operation that changes the driver. A call that converts takes the RTD
-- settings that are in force, whatever they are.
pub data Call (F : Type 0) : Type 0 where
  begin_with : BeginConfig → Call F
  end_it : Call F
  recover_within : ℕ → Call F
  apply_config : DeviceConfig → ℕ → Call F
  measure_with : WireMode → Filter → ℕ → Call F
  bias_set : Bool → ℕ → Call F
  wire_mode_set : WireMode → ℕ → Call F
  filter_set : Filter → ℕ → Call F
  apply_thresholds : FaultThresholds → ℕ → Call F
  apply_defaults : ℕ → Call F
  start_it trigger_it stop_it look_at : ℕ → Call F
  poll_it sample_it single one_shot : RtdConfig F → Option ReadOptions → ℕ → Call F
  fault_status_of faults_cleared detect_automatic detect_manual probe_it read_back thresholds_read :
      ℕ → Call F
  register_write register_verified : ℕ → ℕ → ℕ → Call F
  registers_read : ℕ → Bool → ℕ → ℕ → Call F
  register_read : ℕ → ℕ → Call F
  registers_dumped : Bool → ℕ → ℕ → Call F
  tick_at offline_after : ℕ → Call F
  counters_cleared : Call F
  rtd_set : RtdConfig F → RtdConfig F → Call F
  resistances_set temperatures_set : RtdConfig F → F → F → ℕ → Call F
  resistances_read temperatures_read configuration_read : RtdConfig F → ℕ → Call F

module _ {W F D : Type 0} ⦃float : Arith F⦄ ⦃double : Arith D⦄ (t : Transport W)
    (m : Casts F D) where
  -- The context that a call leaves.
  unfoldable pub run : Call F → Context W → Context W
  run (begin_with config) s = (begin t config s).1
  run end_it s = record s { driver = reset_local_state }
  run (recover_within ms) s = (recover t ms s).1
  run (apply_config config ms) s = (apply_configuration t config ms s).1
  run (measure_with mode filter ms) s = (configure_measurement t mode filter ms s).1
  run (bias_set enabled ms) s = (set_bias t enabled ms s).1
  run (wire_mode_set mode ms) s = (set_wire_mode t mode ms s).1
  run (filter_set filter ms) s = (set_filter t filter ms s).1
  run (apply_thresholds thresholds ms) s = (set_fault_thresholds_raw t thresholds ms s).1
  run (apply_defaults ms) s = (restore_writable_defaults t ms s).1
  run (start_it ms) s = (start_continuous t ms s).1
  run (trigger_it ms) s = (trigger_single_conversion t ms s).1
  run (stop_it ms) s = (stop t ms s).1
  run (look_at ms) s = (data_ready t ms s).1
  run (poll_it rtd options ms) s = (poll t (scaling_of m rtd) options ms s).1
  run (sample_it rtd options ms) s = (read_sample t (scaling_of m rtd) options ms s).1
  run (single rtd options ms) s = (read_single t (scaling_of m rtd) options ms s).1
  run (one_shot rtd options ms) s = (read_one_shot t (scaling_of m rtd) options ms s).1
  run (fault_status_of ms) s = (read_fault_status t ms s).1
  run (faults_cleared ms) s = (clear_faults t ms s).1
  run (detect_automatic ms) s = (run_automatic_fault_detection t ms s).1
  run (detect_manual ms) s = (run_manual_fault_detection t ms s).1
  run (probe_it ms) s = (probe t ms s).1
  run (register_write address value ms) s = (write_register t address value ms s).1
  run (register_verified address value ms) s = (write_register_verified t address value ms s).1
  run (registers_read start has_out length ms) s = (read_registers t start has_out length ms s).1
  run (register_read address ms) s = (read_register t address ms s).1
  run (registers_dumped has_out capacity ms) s = (dump_registers t has_out capacity ms s).1
  run (read_back ms) s = (register_readback_test t ms s).1
  run (thresholds_read ms) s = (read_fault_thresholds_raw t ms s).1
  run (rtd_set config current) s = record s {
    driver = (set_rtd_config m config current s.driver).2;
  }
  run (resistances_set rtd low high ms) s =
      (set_fault_thresholds_resistance m t rtd low high ms s).1
  run (temperatures_set rtd low high ms) s =
      (set_fault_thresholds_temperature m t rtd low high ms s).1
  run (resistances_read rtd ms) s = (read_fault_thresholds_resistance m t rtd ms s).1
  run (temperatures_read rtd ms) s = (read_fault_thresholds_temperature m t rtd ms s).1
  run (configuration_read rtd ms) s = (read_configuration m t rtd ms s).1
  run (tick_at now) s = record s { driver = tick t now s.driver }
  run (offline_after n) s = record s { driver = (set_offline_threshold n s.driver).1 }
  run counters_cleared s = record s { driver = clear_lifetime_counters s.driver }

  -- What a driver can come to be in, from its construction on.
  pub data Reachable : Context W → Type 0 where
    constructed : (s : Context W) → s.driver ≡ reset_local_state → Reachable s
    called : (call : Call F) (s : Context W) → Reachable s → Reachable (run call s)
    elapsed : (w : W) (s : Context W) → Reachable s → Reachable (record s { world = w })

  tick-Agrees :
      (b : Bool) (now : ℕ) (s : Context W)
      → Agrees s (record s { driver = if b then update_timed_readiness now s.driver else s.driver })
  tick-Agrees true now s = record { kept = timed-agrees now s.driver }
  tick-Agrees false now s = record { kept = λ h. h }

  offline-agrees :
      (n : ℕ) (d : Driver) → is_consistent (set_offline_threshold n d).1 ≡ is_consistent d
  unfolding set_offline_threshold
  offline-agrees n d = ground arith

  call-Agrees : (call : Call F) (s : Context W) → Agrees s (run call s)
  unfolding run tick clear_lifetime_counters configure_measurement set_bias set_wire_mode set_filter
  call-Agrees (begin_with config) s = (begin-Agrees t config).at s
  call-Agrees end_it s = record { kept = λ h. refl }
  call-Agrees (recover_within ms) s = (recover-Agrees t ms).at s
  call-Agrees (apply_config config ms) s = (apply_configuration-Agrees t config ms).at s
  call-Agrees (measure_with mode filter ms) s = (apply_changed-Agrees t _ ms).at s
  call-Agrees (bias_set enabled ms) s = (apply_changed-Agrees t _ ms).at s
  call-Agrees (wire_mode_set mode ms) s = (apply_changed-Agrees t _ ms).at s
  call-Agrees (filter_set filter ms) s = (apply_changed-Agrees t _ ms).at s
  call-Agrees (apply_thresholds thresholds ms) s =
      (set_fault_thresholds_raw-Agrees t thresholds ms).at s
  call-Agrees (apply_defaults ms) s = (restore_writable_defaults-Agrees t ms).at s
  call-Agrees (start_it ms) s = (start_continuous-Agrees t ms).at s
  call-Agrees (trigger_it ms) s = (trigger_single_conversion-Agrees t ms).at s
  call-Agrees (stop_it ms) s = (stop-Agrees t ms).at s
  call-Agrees (look_at ms) s = (data_ready-Agrees t ms).at s
  call-Agrees (poll_it rtd options ms) s = (poll-Agrees t (scaling_of m rtd) options ms).at s
  call-Agrees (sample_it rtd options ms) s =
      (read_sample-Agrees t (scaling_of m rtd) options ms).at s
  call-Agrees (single rtd options ms) s = (read_single-Agrees t (scaling_of m rtd) options ms).at s
  call-Agrees (one_shot rtd options ms) s =
      (read_one_shot-Agrees t (scaling_of m rtd) options ms).at s
  call-Agrees (fault_status_of ms) s = (read_fault_status-Agrees t ms).at s
  call-Agrees (faults_cleared ms) s = (clear_faults-Agrees t ms).at s
  call-Agrees (detect_automatic ms) s = (run_automatic_fault_detection-Agrees t ms).at s
  call-Agrees (detect_manual ms) s = (run_manual_fault_detection-Agrees t ms).at s
  call-Agrees (probe_it ms) s = (probe-Agrees t ms).at s
  call-Agrees (register_write address value ms) s = (write_register-Agrees t address value ms).at s
  call-Agrees (register_verified address value ms) s =
      (write_register_verified-Agrees t address value ms).at s
  call-Agrees (registers_read start has_out length ms) s =
      (read_registers-Agrees t start has_out length ms).at s
  call-Agrees (register_read address ms) s = (read_register-Agrees t address ms).at s
  call-Agrees (registers_dumped has_out capacity ms) s =
      (dump_registers-Agrees t has_out capacity ms).at s
  call-Agrees (read_back ms) s = (register_readback_test-Agrees t ms).at s
  call-Agrees (thresholds_read ms) s = (read_fault_thresholds_raw-Agrees t ms).at s
  call-Agrees (rtd_set config current) s = record {
    kept = λ h. rw (set_rtd_config-agrees m config current s.driver) h;
  }
  call-Agrees (resistances_set rtd low high ms) s =
      (set_fault_thresholds_resistance-Agrees m t rtd low high ms).at s
  call-Agrees (temperatures_set rtd low high ms) s =
      (set_fault_thresholds_temperature-Agrees m t rtd low high ms).at s
  call-Agrees (resistances_read rtd ms) s =
      (read_fault_thresholds_resistance-Agrees m t rtd ms).at s
  call-Agrees (temperatures_read rtd ms) s =
      (read_fault_thresholds_temperature-Agrees m t rtd ms).at s
  call-Agrees (configuration_read rtd ms) s = (read_configuration-Agrees m t rtd ms).at s
  call-Agrees (tick_at now) s = tick-Agrees _ now s
  call-Agrees (offline_after n) s = record { kept = λ h. rw (offline-agrees n s.driver) h }
  call-Agrees counters_cleared s = record { kept = λ h. h }

  -- Whichever of these calls are made, and however they end, a driver that says it is ready knows the
  -- device's configuration and neither runs nor awaits a conversion, and one in its fault state,
  -- or without a device, claims to know nothing.
  pub Reachable-consistent : (s : Context W) → Reachable s → is_consistent s.driver ≡ true
  Reachable-consistent s (constructed _ h) = rw (h) refl
  Reachable-consistent _ (called call s r) = (call-Agrees call s).kept (Reachable-consistent s r)
  Reachable-consistent _ (elapsed w s r) = Reachable-consistent s r
