-- ===== src/Driver/Health/Offline.antt =====
-- The state that the health record shows after a run of finished operations.
use max.Prelude.{
  suc, ◌⊎◌, inl, inr, ℕ, suc, ◌+◌, ◌≡◌, refl, ◌∙◌, ◌≤◌, true, ltb, leb, ◌==◌, if◌then◌else◌, arith,
  u8_max, List, [], ◌∷◌, length,
}
use max.Status.{success, Failure, err, ready, converting, operational, degraded, offline}
use max.Driver.{Driver, Operation}
use max.Driver.Health.{
  is_tracked_failure, tracking_for, finish_operation, by_failures, derived_driver_state,
}

-- Operations that finish one after another with tracked failures, the latest first.
pub record TrackedFailure : Type 0 where
  pub failure : Failure
  pub operation : Operation
  pub is_tracked : is_tracked_failure failure.code ≡ true

abbrev pub finish_failures : List TrackedFailure → Driver → Driver
finish_failures [] d = d
finish_failures (x ∷ xs) d =
    finish_operation (err x.failure) (tracking_for (err x.failure) true) x.operation
      (finish_failures xs d)

-- A finished failure counts one, up to the largest count, and leaves the threshold and the state.
finish_failure_lem :
    (x : TrackedFailure) (d : Driver)
    → let u = finish_operation (err x.failure) (tracking_for (err x.failure) true) x.operation d in
      (u.consecutive_failures ≡ (
        if ltb d.consecutive_failures u8_max
        then d.consecutive_failures + 1
        else d.consecutive_failures))
      × (u.offline_threshold ≡ d.offline_threshold)
      × (u.state ≡ d.state)
unfolding finish_operation
finish_failure_lem x d = rw x.is_tracked (refl, refl, refl)

-- The count after a run of failures that starts from none.
min_count : ℕ → ℕ
min_count n = if ltb n u8_max then n else u8_max

min_count-zero : 0 ≡ min_count 0
unfolding min_count
min_count-zero = refl

min_count-step :
    (n m : ℕ) → m ≡ min_count n → (if ltb m u8_max then m + 1 else m) ≡ min_count (suc n)
unfolding min_count
min_count-step n m e = ground arith

finish_failures_lem :
    (xs : List TrackedFailure) (d : Driver)
    → d.consecutive_failures ≡ 0
    → let u = finish_failures xs d in
      (u.consecutive_failures ≡ min_count (length xs))
      × (u.offline_threshold ≡ d.offline_threshold)
      × (u.state ≡ d.state)
finish_failures_lem [] d h = (h ∙ min_count-zero, refl, refl)
finish_failures_lem (x ∷ xs) d h =
    let rest = finish_failures_lem xs d h in
    let last = finish_failure_lem x (finish_failures xs d) in
    (last.0 ∙ min_count-step (length xs) _ rest.0, last.1 ∙ rest.1, last.2 ∙ rest.2)

by_failures_lem :
    (n threshold : ℕ)
    → 1 ≤ threshold
    → threshold ≤ u8_max
    → by_failures threshold (min_count n)
      ≡ (if n == 0 then operational else if leb threshold n then offline else degraded)
unfolding min_count
by_failures_lem n threshold h k = ground arith

-- A driver that is initialised and not in fault shows its failure run.
running_lem :
    (d : Driver)
    → (d.state ≡ ready) ⊎ (d.state ≡ converting)
    → derived_driver_state d ≡ by_failures d.offline_threshold d.consecutive_failures
unfolding derived_driver_state
running_lem d (inl e) = rw e refl
running_lem d (inr e) = rw e refl

operational_lem : (threshold : ℕ) → 1 ≤ threshold → by_failures threshold 0 ≡ operational
operational_lem threshold h = ground arith

-- An initialised driver that is not in fault, and that has counted no failure, shows what a run of
-- n tracked failures makes of it: operational for none, offline once n reaches the offline
-- threshold, and degraded in between, however long the run is.
pub derived-finish_failures :
    (xs : List TrackedFailure) (d : Driver)
    → d.consecutive_failures ≡ 0
    → (d.state ≡ ready) ⊎ (d.state ≡ converting)
    → 1 ≤ d.offline_threshold
    → d.offline_threshold ≤ u8_max
    → derived_driver_state (finish_failures xs d) ≡ (
        if length xs == 0
        then operational
        else if leb d.offline_threshold (length xs)
        then offline
        else degraded)
derived-finish_failures xs d h s low high =
    let u = finish_failures_lem xs d h in
    running_lem (finish_failures xs d) (rw u.2 s)
    ∙ rw (u.0, u.1) (by_failures_lem (length xs) d.offline_threshold low high)

-- One tracked success after any run of failures shows the driver operational again.
pub derived-recovered :
    (xs : List TrackedFailure) (o : Operation) (d : Driver)
    → d.consecutive_failures ≡ 0
    → (d.state ≡ ready) ⊎ (d.state ≡ converting)
    → 1 ≤ d.offline_threshold
    → derived_driver_state
        (finish_operation success (tracking_for success true) o (finish_failures xs d))
      ≡ operational
unfolding finish_operation
derived-recovered xs o d h s low =
    let u = finish_failures_lem xs d h in
    running_lem (finish_operation success (tracking_for success true) o (finish_failures xs d))
      (rw u.2 s)
    ∙ rw u.1 (operational_lem d.offline_threshold low)
