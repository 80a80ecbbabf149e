-- ===== src/Driver/Health/Bounds.antt =====
-- How the counters of the health record count.
use max.Prelude.{
  ◌⊎◌, inl, inr, ℕ, ◌+◌, ◌≡◌, refl, sym, subst, ◌≤◌, ◌<◌, ◌||◌, Bool, true, false, ltb,
  if◌then◌else◌, arith, u32_max, u8_max,
}
use max.Status.{Status, status_contains_timeout, drdy_timeout, operation_timeout}
use max.Driver.{Driver, Operation, saturating_increment, saturating_add}
use max.Driver.Health.{
  TrackingOutcome, untracked, tracked_success, tracked_failure, track, count_timeouts,
  finish_operation,
}

-- Counting stops at the largest value instead of wrapping.
saturating_add_lem :
    (value amount : ℕ)
    → value ≤ u32_max
    → ((value + amount ≤ u32_max) × (saturating_add value amount ≡ value + amount))
      ⊎ ((u32_max ≤ value + amount) × (saturating_add value amount ≡ u32_max))
unfolding saturating_add
saturating_add_lem value amount h = ground arith

pub saturating_increment-saturating_add :
    (value : ℕ) → value ≤ u32_max → saturating_increment value ≡ saturating_add value 1
unfolding saturating_increment saturating_add
saturating_increment-saturating_add value h = ground arith

-- One more, or no more at the end of the word.
abbrev pub IsOneMore : ℕ → ℕ → ℕ → Type 0
IsOneMore bound a b = ((a < bound) × (b ≡ a + 1)) ⊎ ((a ≡ bound) × (b ≡ a))

increment-IsOneMore :
    (value : ℕ) → value ≤ u32_max → IsOneMore u32_max value (saturating_increment value)
unfolding saturating_increment
increment-IsOneMore value h = ground arith

failures-IsOneMore : (n : ℕ) → n ≤ u8_max → IsOneMore u8_max n (if ltb n u8_max then n + 1 else n)
failures-IsOneMore n h = ground arith

-- What an outcome counts, from the driver `d` to the driver `e`.
abbrev pub IsTracked : TrackingOutcome → Driver → Driver → Type 0
IsTracked untracked d e =
    (e.consecutive_failures ≡ d.consecutive_failures)
    × (e.counters.tracked_success ≡ d.counters.tracked_success)
    × (e.counters.tracked_failure ≡ d.counters.tracked_failure)
IsTracked tracked_success d e =
    (e.consecutive_failures ≡ 0)
    × IsOneMore u32_max d.counters.tracked_success e.counters.tracked_success
    × (e.counters.tracked_failure ≡ d.counters.tracked_failure)
IsTracked tracked_failure d e =
    IsOneMore u8_max d.consecutive_failures e.consecutive_failures
    × (e.counters.tracked_success ≡ d.counters.tracked_success)
    × IsOneMore u32_max d.counters.tracked_failure e.counters.tracked_failure

-- One more if a deadline passed, and no more if none did.
abbrev pub IsCountedIf : Bool → ℕ → ℕ → Type 0
IsCountedIf passed a b = ((passed ≡ true) × IsOneMore u32_max a b) ⊎ ((passed ≡ false) × (b ≡ a))

counted_if :
    (passed : Bool) (a : ℕ)
    → a ≤ u32_max
    → IsCountedIf passed a (if passed then saturating_increment a else a)
counted_if true a h = inl (refl, increment-IsOneMore a h)
counted_if false a h = inr (refl, refl)

increment-le : (value : ℕ) → value ≤ u32_max → saturating_increment value ≤ u32_max
unfolding saturating_increment
increment-le value h = ground arith

-- What the words of the health members can hold.
pub record IsBounded (d : Driver) : Type 0 where
  pub failures : d.consecutive_failures ≤ u8_max
  pub tracked_success : d.counters.tracked_success ≤ u32_max
  pub tracked_failure : d.counters.tracked_failure ≤ u32_max
  pub drdy_timeout : d.counters.drdy_timeout ≤ u32_max
  pub operation_timeout : d.counters.operation_timeout ≤ u32_max

if-le : (b : Bool) (x y m : ℕ) → x ≤ m → y ≤ m → (if b then x else y) ≤ m
if-le true x y m p q = p
if-le false x y m p q = q

counted-IsBounded :
    (status : Status) (o : Operation) (d : Driver)
    → IsBounded d
    → IsBounded
        (record d { last_operation = status; counters = count_timeouts status o d.counters })
unfolding count_timeouts
counted-IsBounded status o d h = record {
  failures = h.failures;
  tracked_success = h.tracked_success;
  tracked_failure = h.tracked_failure;
  drdy_timeout = if-le _ _ _ _ (increment-le _ h.drdy_timeout) h.drdy_timeout;
  operation_timeout = if-le _ _ _ _ (increment-le _ h.operation_timeout) h.operation_timeout;
}

failures-le : (n : ℕ) → n ≤ u8_max → (if ltb n u8_max then n + 1 else n) ≤ u8_max
failures-le n h = ground arith

track-IsBounded :
    (tracking : TrackingOutcome) (start_ms : ℕ) (d : Driver)
    → IsBounded d
    → IsBounded (track tracking start_ms d)
track-IsBounded untracked start_ms d h = h
track-IsBounded tracked_success start_ms d h = record {
  failures = ground arith;
  tracked_success = increment-le _ h.tracked_success;
  tracked_failure = h.tracked_failure;
  drdy_timeout = h.drdy_timeout;
  operation_timeout = h.operation_timeout;
}
track-IsBounded tracked_failure start_ms d h = record {
  failures = failures-le _ h.failures;
  tracked_success = h.tracked_success;
  tracked_failure = increment-le _ h.tracked_failure;
  drdy_timeout = h.drdy_timeout;
  operation_timeout = h.operation_timeout;
}

finish_operation-IsBounded :
    (status : Status) (tracking : TrackingOutcome) (o : Operation) (d : Driver)
    → IsBounded d
    → IsBounded (finish_operation status tracking o d)
unfolding finish_operation
finish_operation-IsBounded status tracking o d h =
    track-IsBounded tracking o.start_ms _ (counted-IsBounded status o d h)

finish_operation-IsTracked :
    (status : Status) (tracking : TrackingOutcome) (o : Operation) (d : Driver)
    → IsBounded d
    → IsTracked tracking d (finish_operation status tracking o d)
unfolding finish_operation count_timeouts
finish_operation-IsTracked status untracked o d h = (refl, refl, refl)
finish_operation-IsTracked status tracked_success o d h =
    (refl, increment-IsOneMore _ h.tracked_success, refl)
finish_operation-IsTracked status tracked_failure o d h =
    (failures-IsOneMore _ h.failures, refl, increment-IsOneMore _ h.tracked_failure)

-- The outcome changes no timeout counter.
track-timeouts :
    (tracking : TrackingOutcome) (start_ms : ℕ) (d : Driver)
    → ((track tracking start_ms d).counters.drdy_timeout ≡ d.counters.drdy_timeout)
      × ((track tracking start_ms d).counters.operation_timeout ≡ d.counters.operation_timeout)
track-timeouts untracked start_ms d = (refl, refl)
track-timeouts tracked_success start_ms d = (refl, refl)
track-timeouts tracked_failure start_ms d = (refl, refl)

-- Finishing an operation of a driver whose counters lie within their words. A tracked success
-- ends the run of failures and counts one success; a tracked failure lengthens the run by one and
-- counts one failure; an untracked outcome counts neither. A timeout of the device's result, and
-- one of the operation, counts once if the operation saw it or the status carries it, and not
-- otherwise. A counter at the end of its word stays there, and all stay within their words.
pub finish_operation-IsCounted :
    (status : Status) (tracking : TrackingOutcome) (o : Operation) (d : Driver)
    → IsBounded d
    → let e = finish_operation status tracking o d in
      IsTracked tracking d e
      × IsCountedIf
          (o.saw_drdy_timeout || status_contains_timeout status drdy_timeout)
          d.counters.drdy_timeout
          e.counters.drdy_timeout
      × IsCountedIf
          (o.saw_operation_timeout || status_contains_timeout status operation_timeout)
          d.counters.operation_timeout
          e.counters.operation_timeout
      × IsBounded e
unfolding finish_operation count_timeouts
finish_operation-IsCounted status tracking o d h =
    let same =
      track-timeouts tracking o.start_ms
        (record d { last_operation = status; counters = count_timeouts status o d.counters }) in
    (
      finish_operation-IsTracked status tracking o d h,
      subst (IsCountedIf _ _) (sym same.0) (counted_if _ _ h.drdy_timeout),
      subst (IsCountedIf _ _) (sym same.1) (counted_if _ _ h.operation_timeout),
      finish_operation-IsBounded status tracking o d h,
    )
