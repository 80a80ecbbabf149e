-- ===== src/Driver/Requests/Refused.antt =====
-- A refused request calls no callback.
use max.Prelude.{ap, ◌⊎◌, inl, inr, ℕ, ◌≡◌, refl, Bool, true, false, not, ◌&&◌, arith}
use max.Status.{
  drdy_timeout, operation_timeout, Failure, ok, err, Status, ◌>>◌, status_contains_timeout,
}
use max.Config.{DeviceConfig, validate_device_config}
use max.Driver.{Transport, Driver, Context, operation_at}
use max.Driver.Action.{Step, lift, ◌>>=◌}
use max.Driver.Health.{is_tracked_failure, tracking_for, finish_operation, count_timeouts}
use max.Driver.Requests.{require_ready, validate_timeout, apply_request, apply_configuration}

-- Codes that no health counter follows.
abbrev is_quiet : Failure → Bool
is_quiet f =
    not (is_tracked_failure f.code)
    && not (status_contains_timeout (err f) drdy_timeout)
    && not (status_contains_timeout (err f) operation_timeout)

require_ready-quiet : (d : Driver) (f : Failure) → require_ready d ≡ err f → is_quiet f ≡ true
unfolding require_ready status_contains_timeout
require_ready-quiet d f h = ground arith

validate_timeout-quiet :
    (ms : ℕ) (f : Failure) → validate_timeout ms false ≡ err f → is_quiet f ≡ true
unfolding validate_timeout status_contains_timeout
validate_timeout-quiet ms f h = ground arith

validate_device_config-quiet :
    (c : DeviceConfig) (f : Failure) → validate_device_config c ≡ err f → is_quiet f ≡ true
unfolding validate_device_config status_contains_timeout
validate_device_config-quiet c f h = ground arith

-- The guards of `applyConfiguration`, in their order.
abbrev pub apply_guards : Driver → DeviceConfig → ℕ → Status
apply_guards d config timeout_ms =
    require_ready d >> validate_timeout timeout_ms false >> validate_device_config config

first_failure :
    (r q p : Status) (f : Failure)
    → (r >> q >> p) ≡ err f
    → (r ≡ err f) ⊎ ((q ≡ err f) ⊎ (p ≡ err f))
first_failure (ok _) (ok _) p f h = inr (inr h)
first_failure (ok _) (err g) p f h = inr (inl h)
first_failure (err g) q p f h = inl h

apply_guards-quiet :
    (d : Driver) (config : DeviceConfig) (timeout_ms : ℕ) (f : Failure)
    → apply_guards d config timeout_ms ≡ err f
    → is_quiet f ≡ true
apply_guards-quiet d config timeout_ms f h = elim (first_failure _ _ _ f h) [
  | inl e ↦ require_ready-quiet d f e
  | inr (inl e) ↦ validate_timeout-quiet timeout_ms f e
  | inr (inr e) ↦ validate_device_config-quiet config f e
]

finish-quiet :
    (f : Failure) (d : Driver)
    → is_quiet f ≡ true
    → finish_operation (err f) (tracking_for (err f) true) (operation_at 0 0) d
      ≡ record d { last_operation = err f }
unfolding finish_operation count_timeouts
finish-quiet f d h = rw (untracked_code, no_drdy, no_timeout) refl
  where
    untracked_code : is_tracked_failure f.code ≡ false
    untracked_code = ground arith

    no_drdy : status_contains_timeout (err f) drdy_timeout ≡ false
    no_drdy = ground arith

    no_timeout : status_contains_timeout (err f) operation_timeout ≡ false
    no_timeout = ground arith

module _ {W : Type 0} (t : Transport W) where
  guarded :
      (r q p : Status) (k : Step W (Unit {0})) (s : Context W) (f : Failure)
      → (r >> q >> p) ≡ err f
      → (lift r >>= λ _. lift q >>= λ _. lift p >>= λ _. k) s ≡ (err f, s)
  unfolding ◌>>=◌
  guarded (ok _) (ok _) (ok _) k s f h = cc
  guarded (ok _) (ok _) (err g) k s f h = ap (λ r. (r, s)) h
  guarded (ok _) (err g) p k s f h = ap (λ r. (r, s)) h
  guarded (err g) q p k s f h = ap (λ r. (r, s)) h

  request-refused :
      (config : DeviceConfig) (timeout_ms : ℕ) (s : Context W) (f : Failure)
      → apply_guards s.driver config timeout_ms ≡ err f
      → apply_request t config timeout_ms s ≡ (err f, record s { operation = operation_at 0 0 })
  unfolding apply_request ◌>>=◌
  request-refused config timeout_ms s f h =
      guarded (require_ready s.driver) (validate_timeout timeout_ms false)
        (validate_device_config config) _ (record s { operation = operation_at 0 0 }) f h

  -- A request that a guard refuses calls no callback: it returns the guard's failure, and of the
  -- driver only the last operation's status changes, with no counter and no failure run moved.
  pub apply_configuration-refused :
      (config : DeviceConfig) (timeout_ms : ℕ) (s : Context W) (f : Failure)
      → apply_guards s.driver config timeout_ms ≡ err f
      → apply_configuration t config timeout_ms s ≡ (
        err f,
        record s {
          driver = record s.driver { last_operation = err f };
          operation = operation_at 0 0;
        },
      )
  unfolding apply_configuration ◌>>=◌
  apply_configuration-refused config timeout_ms s f h =
      rw (request-refused config timeout_ms s f h) (
        ap (λ d. (err f, record s { driver = d; operation = operation_at 0 0 }))
          (finish-quiet f s.driver (apply_guards-quiet s.driver config timeout_ms f h)))
