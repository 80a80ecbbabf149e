-- ===== src/Driver/Calls/Every.antt =====
-- Every public operation, whichever it is, keeps what frames keep.
use max.Prelude.{refl, ℕ, ◌≡◌, Bool, true, false, if◌then◌else◌, arith}
use max.Driver.{Transport, Context, Driver, reset_local_state}
use max.Driver.Health.{clear_lifetime_counters, set_offline_threshold}
use max.Driver.Readiness.{tick, update_timed_readiness}
use max.Driver.Requests.{configure_measurement, set_bias, set_wire_mode, set_filter}
use max.Temperature.{Arith, Casts, RtdConfig}
use max.Temperature.Scale.{scaling_of}
use max.Temperature.Calls.{
  set_fault_thresholds_resistance-rule, set_fault_thresholds_temperature-rule,
  read_fault_thresholds_resistance-rule, read_fault_thresholds_temperature-rule,
  read_configuration-rule,
}
use max.Driver.Consistency.Reachable.{
  Call, run, begin_with, end_it, recover_within, apply_config, measure_with, bias_set,
  wire_mode_set, filter_set, apply_thresholds, apply_defaults, start_it, trigger_it, stop_it,
  look_at, poll_it, sample_it, single, one_shot, fault_status_of, faults_cleared, detect_automatic,
  detect_manual, probe_it, read_back, thresholds_read, register_write, register_verified,
  registers_read, register_read, registers_dumped, tick_at, offline_after, counters_cleared,
  rtd_set, resistances_set, temperatures_set, resistances_read, temperatures_read,
  configuration_read,
}
use max.Driver.Calls.{CallRules, timed-KeepsSelect}
use max.Status.{Status, ok, err}
use max.Temperature.Settings.{adopted, set_rtd_config}
use max.Driver.Calls.Configuring.{apply_configuration-rule, apply_changed-rule}
use max.Driver.Calls.Starting.{
  start_continuous-rule, trigger_single_conversion-rule, stop-rule, data_ready-rule,
}
use max.Driver.Calls.Detecting.{
  read_fault_status-rule, clear_faults-rule, run_automatic_fault_detection-rule,
  run_manual_fault_detection-rule, set_fault_thresholds_raw-rule, read_fault_thresholds_raw-rule,
  probe-rule,
}
use max.Driver.Calls.Reading.{poll-rule, read_sample-rule, read_single-rule, read_one_shot-rule}
use max.Driver.Calls.Raw.{
  read_register-rule, read_registers-rule, write_register-rule, write_register_verified-rule,
  dump_registers-rule, restore_writable_defaults-rule, register_readback_test-rule,
}
use max.Driver.Calls.Beginning.{begin-rule, recover-rule}

module _ {ℓ} {W F D : Type 0} ⦃float : Arith F⦄ ⦃double : Arith D⦄ {t : Transport W} (m : Casts F D)
    {R : Context W → Context W → Type ℓ} (rules : CallRules t R) where
  ticked :
      (b : Bool) (now : ℕ) (d : Driver)
      → (if b then update_timed_readiness now d else d).chip_select_uncertain
        ≡ d.chip_select_uncertain
  ticked true now d = (timed-KeepsSelect now).kept d
  ticked false now d = refl

  thresholded :
      (n : ℕ) (d : Driver)
      → (set_offline_threshold n d).1.chip_select_uncertain ≡ d.chip_select_uncertain
  unfolding set_offline_threshold
  thresholded n d = ground arith

  adopted-kept :
      (config current : RtdConfig F) (status : Status) (d : Driver)
      → (adopted m config status current d).1.chip_select_uncertain ≡ d.chip_select_uncertain
  adopted-kept config current (ok _) d = refl
  adopted-kept config current (err f) d = refl

  set_rtd_config-kept :
      (config current : RtdConfig F) (d : Driver)
      → (set_rtd_config m config current d).2.chip_select_uncertain ≡ d.chip_select_uncertain
  unfolding set_rtd_config
  set_rtd_config-kept config current d = adopted-kept config current _ d

  -- The end, which forgets the driver, is left to the relation.
  pub run-rule :
      (call : Call F) (s : Context W)
      → (call ≡ end_it → R s (record s { driver = reset_local_state }))
      → R s (run t m call s)
  unfolding run tick clear_lifetime_counters configure_measurement set_bias set_wire_mode set_filter
  run-rule (begin_with config) s _ = (begin-rule rules config).at s
  run-rule end_it s h = h refl
  run-rule (recover_within ms) s _ = (recover-rule rules ms).at s
  run-rule (apply_config config ms) s _ = (apply_configuration-rule rules config ms).at s
  run-rule (measure_with mode filter ms) s _ = (apply_changed-rule rules _ ms).at s
  run-rule (bias_set enabled ms) s _ = (apply_changed-rule rules _ ms).at s
  run-rule (wire_mode_set mode ms) s _ = (apply_changed-rule rules _ ms).at s
  run-rule (filter_set filter ms) s _ = (apply_changed-rule rules _ ms).at s
  run-rule (apply_thresholds thresholds ms) s _ =
      (set_fault_thresholds_raw-rule rules thresholds ms).at s
  run-rule (apply_defaults ms) s _ = (restore_writable_defaults-rule rules ms).at s
  run-rule (start_it ms) s _ = (start_continuous-rule rules ms).at s
  run-rule (trigger_it ms) s _ = (trigger_single_conversion-rule rules ms).at s
  run-rule (stop_it ms) s _ = (stop-rule rules ms).at s
  run-rule (look_at ms) s _ = (data_ready-rule rules ms).at s
  run-rule (poll_it rtd options ms) s _ = (poll-rule rules (scaling_of m rtd) options ms).at s
  run-rule (sample_it rtd options ms) s _ =
      (read_sample-rule rules (scaling_of m rtd) options ms).at s
  run-rule (single rtd options ms) s _ = (read_single-rule rules (scaling_of m rtd) options ms).at s
  run-rule (one_shot rtd options ms) s _ =
      (read_one_shot-rule rules (scaling_of m rtd) options ms).at s
  run-rule (fault_status_of ms) s _ = (read_fault_status-rule rules ms).at s
  run-rule (faults_cleared ms) s _ = (clear_faults-rule rules ms).at s
  run-rule (detect_automatic ms) s _ = (run_automatic_fault_detection-rule rules ms).at s
  run-rule (detect_manual ms) s _ = (run_manual_fault_detection-rule rules ms).at s
  run-rule (probe_it ms) s _ = (probe-rule rules ms).at s
  run-rule (register_write address value ms) s _ = (write_register-rule rules address value ms).at s
  run-rule (register_verified address value ms) s _ =
      (write_register_verified-rule rules address value ms).at s
  run-rule (registers_read start has_out length ms) s _ =
      (read_registers-rule rules start has_out length ms).at s
  run-rule (register_read address ms) s _ = (read_register-rule rules address ms).at s
  run-rule (registers_dumped has_out capacity ms) s _ =
      (dump_registers-rule rules has_out capacity ms).at s
  run-rule (read_back ms) s _ = (register_readback_test-rule rules ms).at s
  run-rule (thresholds_read ms) s _ = (read_fault_thresholds_raw-rule rules ms).at s
  run-rule (rtd_set config current) s _ =
      rules.unmoved s _ refl (set_rtd_config-kept config current s.driver)
  run-rule (resistances_set rtd low high ms) s _ =
      (set_fault_thresholds_resistance-rule m rules rtd low high ms).at s
  run-rule (temperatures_set rtd low high ms) s _ =
      (set_fault_thresholds_temperature-rule m rules rtd low high ms).at s
  run-rule (resistances_read rtd ms) s _ =
      (read_fault_thresholds_resistance-rule m rules rtd ms).at s
  run-rule (temperatures_read rtd ms) s _ =
      (read_fault_thresholds_temperature-rule m rules rtd ms).at s
  run-rule (configuration_read rtd ms) s _ = (read_configuration-rule m rules rtd ms).at s
  run-rule (tick_at now) s _ = rules.unmoved s _ refl (ticked _ now s.driver)
  run-rule (offline_after n) s _ = rules.unmoved s _ refl (thresholded n s.driver)
  run-rule counters_cleared s _ = rules.unmoved s _ refl refl
