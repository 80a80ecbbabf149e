-- ===== src/Driver/Samples.antt =====
-- One sample (src/MAX31865.cpp, `commitSample` and `readSampleInternal`; `MAX31865Sample` in
-- include/MAX31865/Status.h).
use max.Prelude.{
  ℕ, ◌+◌, Bool, true, false, not, ◌&&◌, Option, some, none, List, pos, ltb, bit_and, bit_or, ◌==◌,
  if◌then◌else◌, u32_max, add32,
}
use max.Status.{
  no_data, invalid_state, device_fault, operation_timeout, same_code, FaultStatus, any, Failure,
  Result, Status, success, fail, err, State, ready, converting, fault,
}
use max.Commands.{reg_rtd_msb}
use max.Config.{continuous_conversion_time_ms}
use max.Protocol.{RtdWord, decode_rtd}
use max.Driver.{Transport, Driver, Counters, Stamps, saturating_increment}
use max.Driver.Action.{
  Step, pure, lift, raise, gets, attempt, ◌>>=◌, ◌>>◌, on_status, modify_driver, modify_counters,
  modify_conversion, skip, when,
}
use max.Driver.Clock.{now_ms, now_us, deadline_expired, check_deadline, raise_timeout}
use max.Driver.Bus.{faulted}
use max.Driver.Access.{idle, read_registers_internal}
use max.Driver.Readiness.{is_converting, update_timed_readiness}
use max.Driver.Faults.{decode_fault_status, read_fault_status_internal}
use max.Driver.Conversions.{halted}
use max.Driver.Stop.{disarmed}
use max.Driver.Start.{count_fault_observation}

-- The floating-point numbers of a sample and the two conversions that fill them.
pub record Scaling (F : Type 0) : Type 0 where
  pub nothing : F
  pub code_to_resistance : ℕ → Result F
  pub resistance_to_temperature : F → Result F

-- `MAX31865_SAMPLE_FLAG_…`.
abbrev pub flag_frame_valid : ℕ
flag_frame_valid = 1

abbrev pub flag_data_valid : ℕ
flag_data_valid = 2

abbrev pub flag_fault_status : ℕ
flag_fault_status = 4

abbrev pub flag_read_timestamp : ℕ
flag_read_timestamp = 8

abbrev pub flag_ready_timestamp : ℕ
flag_ready_timestamp = 16

pub record Sample (F : Type 0) : Type 0 where
  pub raw_register : ℕ
  pub raw_code : ℕ
  pub sample_counter : ℕ
  pub read_timestamp_us : ℕ
  pub ready_timestamp_us : ℕ
  pub channel_id : ℕ
  pub resistance : F
  pub temperature : F
  pub fault_status : FaultStatus
  pub flags : ℕ

-- `MAX31865ReadOptions`.
pub record ReadOptions : Type 0 where
  pub has_ready_timestamp : Bool
  pub ready_timestamp_us : ℕ
  pub channel_id : ℕ

abbrev pub has_flag : {F : Type 0} → ℕ → Sample F → Bool
has_flag flag x = not (bit_and x.flags flag == 0)

abbrev with_flag : {F : Type 0} → ℕ → Sample F → Sample F
with_flag flag x = record x { flags = bit_or x.flags flag }

-- `commitSample`, without the caller's output: the last timestamp is that of valid data.
unfoldable pub commit_sample : {F : Type 0} → Sample F → Stamps → Stamps
commit_sample x stamps =
    if has_flag flag_data_valid x && has_flag flag_read_timestamp x
    then record stamps {
      has_last_sample_timestamp = true;
      last_sample_timestamp_us = x.read_timestamp_us;
    }
    else stamps

-- The counters of a frame, of a frame that gives no sample, and of a sample.
abbrev pub count_attempt : Counters → Counters
count_attempt c = record c { sample_frame_attempt = saturating_increment c.sample_frame_attempt }

abbrev pub count_lost_frame : Counters → Counters
count_lost_frame c = record c {
  sample_frame_failure = saturating_increment c.sample_frame_failure;
  dropped_sample = saturating_increment c.dropped_sample;
}

abbrev pub count_sample : Driver → Driver
count_sample d = record d {
  sample_counter = if ltb d.sample_counter u32_max then d.sample_counter + 1 else d.sample_counter;
  counters = record d.counters {
    sample_frame_success = saturating_increment d.counters.sample_frame_success;
  };
}

abbrev is_fault : State → Bool
is_fault fault = true
is_fault _ = false

abbrev settled_state : State → Driver → State
settled_state to d = if d.configuration_known && not (is_fault d.state) then to else d.state

-- The buffered result of a continuous conversion is consumed: the next one is awaited.
abbrev pub awaiting : Bool → ℕ → Driver → Driver
awaiting has_drdy now d = record d {
  conversion = record d.conversion {
    ready_latched = false;
    one_shot_armed = false;
    one_shot_commit_pending = false;
    one_shot_commit_uncertain = false;
    fresh_result_armed = true;
    timed_readiness_halted = false;
    conversion_start_ms = if has_drdy then now else d.conversion.conversion_start_ms;
    next_ready_ms =
        if has_drdy
        then add32 now (continuous_conversion_time_ms d.desired.filter)
        else d.conversion.next_ready_ms;
  };
  state = settled_state converting d;
}

-- The result of a single conversion is consumed.
abbrev pub consumed : Driver → Driver
consumed d = record d { conversion = disarmed d.conversion; state = settled_state ready d }

-- The frame may have reached the device, so that its result is in doubt.
abbrev pub lost : Driver → Driver
lost d = faulted (record d { conversion = idle d.conversion })

module _ {W : Type 0} (t : Transport W) where
  unfoldable pub consume_continuous : Step W (Unit {0})
  consume_continuous = do
    now ← now_ms t
    when (not t.has_drdy) (modify_driver (update_timed_readiness now))
    modify_driver (awaiting t.has_drdy now)

  abbrev pub consume : Driver → Step W (Unit {0})
  consume d = if d.conversion.continuous then consume_continuous else modify_driver consumed

  unfoldable pub consume_conversion : Step W (Unit {0})
  consume_conversion = do gets (λ s. s.driver) >>= consume; check_deadline t

  -- A frame that gives no sample, for the reason `status`; a late consumption is reported first.
  unfoldable pub consume_lost : {A : Type 0} → Failure → Step W A
  consume_lost f = do modify_counters count_lost_frame; consume_conversion; lift (err f)

  -- A failed frame: one that was read all the same is consumed, one in doubt is given up.
  unfoldable pub frame_failed : {A : Type 0} → Failure → Step W A
  frame_failed f = do
    modify_counters count_lost_frame
    o ← gets (λ s. s.operation)
    (if o.last_frame_committed
        then attempt consume_conversion >> skip
        else when o.last_transfer_attempted (modify_driver lost))
    lift (err f)

  -- The time of the frame, where the transport has a clock for it.
  unfoldable pub stamp_frame : Bool → Step W (Option ℕ)
  stamp_frame faulty = if not t.has_now_us then pure none else do
    now ← now_us t
    expired ← deadline_expired t
    if not expired then pure (some now) else do
      modify_counters count_lost_frame
      when faulty (modify_counters count_fault_observation)
      attempt consume_conversion
      raise_timeout operation_timeout

module _ {F : Type 0} (scaling : Scaling F) where
  abbrev stamped : Option ℕ → Sample F → Sample F
  stamped none x = x
  stamped (some us) x = with_flag flag_read_timestamp (record x { read_timestamp_us = us })

  abbrev tagged : Option ReadOptions → Sample F → Sample F
  tagged none x = x
  tagged (some o) x =
      let y = record x { channel_id = o.channel_id } in
      if o.has_ready_timestamp
      then with_flag flag_ready_timestamp (record y { ready_timestamp_us = o.ready_timestamp_us })
      else y

  -- The sample of a frame before its fault or its data.
  unfoldable pub framed_sample : RtdWord → Option ℕ → Option ReadOptions → Sample F
  framed_sample word us options = tagged options (
      stamped us (record {
        raw_register = word.raw_register;
        raw_code = word.raw_code;
        sample_counter = 0;
        read_timestamp_us = 0;
        ready_timestamp_us = 0;
        channel_id = 0;
        resistance = scaling.nothing;
        temperature = scaling.nothing;
        fault_status = decode_fault_status 0;
        flags = flag_frame_valid;
      }))

module _ {W F : Type 0} (t : Transport W) (scaling : Scaling F) where
  -- A frame whose fault status was read: it is no data, but the caller may see it.
  unfoldable pub faulty_frame : Sample F → FaultStatus → Step W (Sample F × Status)
  faulty_frame candidate found = do
    when (not (any found)) (modify_counters count_fault_observation)
    d ← gets (λ s. s.driver)
    modify_counters count_lost_frame
    consumption ← attempt (consume_conversion t)
    now ← gets (λ s. s.driver)
    when (now.conversion.continuous && found.over_under_voltage) (modify_conversion halted)
    lift consumption
    pure (
      with_flag flag_fault_status
          (record candidate { fault_status = found; sample_counter = d.sample_counter }),
      fail device_fault
          (if any found
            then "RTD frame reports a decoded MAX31865 fault"
            else "RTD frame fault flag has no documented status bit")
          (pos found.raw),
    )

  unfoldable pub read_faulty : Sample F → Step W (Sample F × Status)
  read_faulty candidate = do
    outcome ← attempt (read_fault_status_internal t true)
    on_status outcome (λ found. faulty_frame candidate found.0)
        λ f.
          if same_code f.code device_fault
          then faulty_frame candidate (decode_fault_status 0)
          else modify_counters count_fault_observation >> consume_lost t f

  -- The data is published once the conversion is consumed within the deadline.
  unfoldable pub publish : Sample F → Step W (Sample F × Status)
  publish measured = do
    consumption ← attempt (consume_conversion t)
    on_status consumption
        (λ _. do
          modify_driver count_sample
          d ← gets (λ s. s.driver)
          pure (
            with_flag flag_data_valid (record measured { sample_counter = d.sample_counter }),
            success,
          ))
        λ f. modify_counters count_lost_frame >> lift (err f)

  unfoldable pub measure : Sample F → Step W (Sample F × Status)
  measure candidate =
      on_status (scaling.code_to_resistance candidate.raw_code)
        (λ ohms.
          on_status (scaling.resistance_to_temperature ohms)
            (λ celsius. publish (record candidate { resistance = ohms; temperature = celsius }))
            (consume_lost t))
        (consume_lost t)

  unfoldable pub sample_frame : Option ReadOptions → List ℕ → Step W (Sample F × Status)
  sample_frame options bytes =
      on_status (decode_rtd (some bytes) 2)
        (λ word. do
          us ← stamp_frame t word.fault
          let candidate = framed_sample scaling word us options
          if word.fault then read_faulty candidate else measure candidate)
        λ f. modify_counters count_lost_frame >> lift (err f)

  -- The staged sample and its status; it fails where no sample is staged.
  unfoldable pub read_sample_internal : Option ReadOptions → Bool → Step W (Sample F × Status)
  read_sample_internal options require_fresh = do
    d ← gets (λ s. s.driver)
    if require_fresh && not d.conversion.fresh_result_armed
        then raise no_data "no fresh conversion is armed" (pos 0)
        else if is_converting d.state && d.conversion.one_shot_armed && not require_fresh
        then raise invalid_state "immediate read is unsafe during an armed one-shot" (pos 0)
        else do
          modify_counters count_attempt
          status ← attempt (read_registers_internal t reg_rtd_msb 2)
          on_status status (sample_frame options) (frame_failed t)
