-- ===== src/Driver/Readiness.antt =====
-- Timed readiness (src/MAX31865.cpp, `updateTimedReadiness` and `tick`).
pub mod Horizon
use max.Prelude.{ℕ, ◌+◌, ◌-◌, ◌*◌, ◌/◌, Bool, true, false, not, ◌||◌, ◌&&◌, if◌then◌else◌, add32}
use max.Status.{State, converting}
use max.Config.{continuous_conversion_time_ms}
use max.Driver.{Transport, Driver, saturating_add}
use max.Driver.Clock.{elapsed_ms, time_reached}

-- `_state == MAX31865State::Converting`.
abbrev pub is_converting : State → Bool
is_converting converting = true
is_converting _ = false

-- The periods that have ended at `now`, the first at `next`.
abbrev pub completions : ℕ → ℕ → ℕ → ℕ
completions now next period = 1 + elapsed_ms now next / period

-- The periods that ended while a result was still waiting, the last one excepted.
abbrev pub overruns : ℕ → Driver → ℕ
overruns now d =
    let period = continuous_conversion_time_ms d.desired.filter in
    let done = completions now d.conversion.next_ready_ms period in
    if d.conversion.ready_latched then done else done - 1

-- The rest of `updateTimedReadiness` in continuous mode.
abbrev pub advance : ℕ → Driver → Driver
advance now d =
    let period = continuous_conversion_time_ms d.desired.filter in
    record d {
      counters = record d.counters { overrun = saturating_add d.counters.overrun (overruns now d) };
      conversion = record d.conversion {
        ready_latched = true;
        next_ready_ms =
            add32 d.conversion.next_ready_ms
              (completions now d.conversion.next_ready_ms period * period);
      };
    }

-- Its early return.
abbrev pub is_waiting : ℕ → Driver → Bool
is_waiting now d =
    d.conversion.timed_readiness_halted
    || not d.conversion.fresh_result_armed
    || (not d.conversion.continuous && not d.conversion.one_shot_armed)
    || not (time_reached now d.conversion.next_ready_ms)

unfoldable pub update_timed_readiness : ℕ → Driver → Driver
update_timed_readiness now d =
    if is_waiting now d
    then d
    else if not d.conversion.continuous
    then record d { conversion = record d.conversion { ready_latched = true } }
    else advance now d

unfoldable pub tick : {W : Type 0} → Transport W → ℕ → Driver → Driver
tick t now d = if is_converting d.state && not t.has_drdy then update_timed_readiness now d else d
