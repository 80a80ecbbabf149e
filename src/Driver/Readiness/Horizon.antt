-- ===== src/Driver/Readiness/Horizon.antt =====
-- What a tick does to the readiness horizon of timed conversions.
use max.Prelude.{
  ℕ, ◌+◌, ◌-◌, ◌*◌, if◌then◌else◌, ◌/◌, ◌≡◌, refl, sym, ap, ◌∙◌, ◌≤◌, ◌<◌, Bool, true, false, not,
  ◌||◌, ltb, arith, sub32, add32, Bool-cases, inl, inr,
}
use max.Config.{Filter, hz50, hz60, other_filter, continuous_conversion_time_ms}
use max.Driver.{Transport, Driver, saturating_add}
use max.Driver.Clock.{time_reached}
use max.Driver.Readiness.{
  is_converting, is_waiting, completions, advance, update_timed_readiness, tick,
}

-- A horizon that lies ahead of `now`, by `p` milliseconds at most.
pub record IsAhead (now later p : ℕ) : Type 0 where
  pub after : 1 ≤ sub32 later now
  pub within : sub32 later now ≤ p
  pub not_reached : time_reached now later ≡ false

module _ (now next : ℕ) (hn : now < 4294967296) (hx : next < 4294967296)
    (r : ltb (sub32 now next) 2147483648 ≡ true) where
  IsAhead-50hz : IsAhead now (add32 next ((1 + sub32 now next / 21) * 21)) 21
  IsAhead-50hz = record { after = ground arith; within = ground arith; not_reached = ground arith }

  IsAhead-60hz : IsAhead now (add32 next ((1 + sub32 now next / 18) * 18)) 18
  IsAhead-60hz = record { after = ground arith; within = ground arith; not_reached = ground arith }

  completions-IsAhead :
      (f : Filter)
      → let period = continuous_conversion_time_ms f in
        IsAhead now (add32 next (completions now next period * period)) period
  unfolding continuous_conversion_time_ms
  completions-IsAhead hz50 = IsAhead-50hz
  completions-IsAhead hz60 = IsAhead-60hz
  completions-IsAhead other_filter = IsAhead-60hz

-- The whole periods of a time, and what a latched result adds to them.
whole_periods :
    (passed : ℕ) (f : Filter)
    → let period = continuous_conversion_time_ms f in
      (passed / period * period ≤ passed) × (passed < (1 + passed / period) * period)
unfolding continuous_conversion_time_ms
whole_periods passed hz50 = (omega arith, omega arith)
whole_periods passed hz60 = (omega arith, omega arith)
whole_periods passed other_filter = (omega arith, omega arith)

unread :
    (latched : Bool) (n : ℕ)
    → (if latched then 1 + n else 1 + n - 1) ≡ (if latched then 1 + n else n)
unread true n = refl
unread false n = omega arith

abbrev periods : ℕ → Driver → ℕ
periods now d =
    sub32 now d.conversion.next_ready_ms / continuous_conversion_time_ms d.desired.filter

last_false : (a b : Bool) → (a || not b) ≡ false → b ≡ true
last_false a b h = ground arith

last_true : (a b : Bool) → b ≡ false → (a || not b) ≡ true
last_true a b h = ground arith

module _ (now : ℕ) (d : Driver) where
  waiting_lem : is_waiting now d ≡ true → update_timed_readiness now d ≡ d
  unfolding update_timed_readiness
  waiting_lem e = rw e refl

  one_shot_lem :
      is_waiting now d ≡ false
      → d.conversion.continuous ≡ false
      → update_timed_readiness now d
        ≡ record d { conversion = record d.conversion { ready_latched = true } }
  unfolding update_timed_readiness
  one_shot_lem e c = rw (e, c) refl

  continuous_lem :
      is_waiting now d ≡ false
      → d.conversion.continuous ≡ true
      → update_timed_readiness now d ≡ advance now d
  unfolding update_timed_readiness
  continuous_lem e c = rw (e, c) refl

  reached : is_waiting now d ≡ false → time_reached now d.conversion.next_ready_ms ≡ true
  reached e = last_false _ _ e

module _ (now : ℕ) (d : Driver) (hn : now < 4294967296)
    (hx : d.conversion.next_ready_ms < 4294967296) where
  advance-IsAhead :
      is_waiting now d ≡ false
      → IsAhead now
          (advance now d).conversion.next_ready_ms
          (continuous_conversion_time_ms d.desired.filter)
  advance-IsAhead e =
      completions-IsAhead now d.conversion.next_ready_ms hn hx (reached now d e) d.desired.filter

  -- For readings and horizons of 32 bits, a timed-readiness update at the same reading changes
  -- nothing more: neither mode counts an overrun twice.
  pub update_timed_readiness-idempotent :
      update_timed_readiness now (update_timed_readiness now d) ≡ update_timed_readiness now d
  update_timed_readiness-idempotent = elim (Bool-cases (is_waiting now d)) [
    | inl e ↦ ap (update_timed_readiness now) (waiting_lem now d e)
    | inr e ↦ elim (Bool-cases d.conversion.continuous) [
      | inl c ↦
          let p = continuous_lem now d e c in
          let ahead = advance-IsAhead e in
          ap (update_timed_readiness now) p
          ∙ waiting_lem now (advance now d) (last_true _ _ ahead.not_reached)
          ∙ sym p
      | inr c ↦
          let p = one_shot_lem now d e c in
          let latched = record d { conversion = record d.conversion { ready_latched = true } } in
          ap (update_timed_readiness now) p ∙ one_shot_lem now latched e c ∙ sym p
    ]
  ]

  -- The counter that the update leaves, `n` periods after the first one that ended.
  advance_overrun :
      (advance now d).counters.overrun
      ≡ saturating_add d.counters.overrun
          (if d.conversion.ready_latched then 1 + periods now d else periods now d)
  advance_overrun =
      ap (saturating_add d.counters.overrun) (unread d.conversion.ready_latched (periods now d))

  -- A tick of a running continuous conversion without DRDY, whose horizon the reading has
  -- reached: the result is latched, and the horizon moves ahead of the reading by one period at
  -- most. With `n` whole periods from the horizon to the reading, it moves by `n + 1` periods, and
  -- the saturated overrun counter by `n`, or by `n + 1` if a result was latched before.
  pub tick-IsAhead :
      {W : Type 0} (t : Transport W)
      → is_converting d.state ≡ true
      → t.has_drdy ≡ false
      → is_waiting now d ≡ false
      → d.conversion.continuous ≡ true
      → let u = tick t now d in
        let period = continuous_conversion_time_ms d.desired.filter in
        let passed = sub32 now d.conversion.next_ready_ms in
        (u.conversion.ready_latched ≡ true)
        × IsAhead now u.conversion.next_ready_ms period
        × ((n : ℕ) × (n * period ≤ passed)
            × (passed < (1 + n) * period)
            × (u.conversion.next_ready_ms ≡ add32 d.conversion.next_ready_ms ((1 + n) * period))
            × (u.counters.overrun
                ≡ saturating_add d.counters.overrun
                    (if d.conversion.ready_latched then 1 + n else n)))
  unfolding tick
  tick-IsAhead t s h e c =
      let spans = whole_periods (sub32 now d.conversion.next_ready_ms) d.desired.filter in
      rw (s, h, continuous_lem now d e c)
        (refl, advance-IsAhead e, (periods now d, spans.0, spans.1, refl, advance_overrun))
