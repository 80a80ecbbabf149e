-- ===== src/Driver/Lifecycle/Outcomes.antt =====
-- What a recovery leaves behind.
use max.Prelude.{
  ◌≡◌, refl, ◌⊎◌, inl, inr, Bool, true, false, ◌||◌, ℕ, if◌then◌else◌, sym, subst, ◌∙◌, arith,
}
use mathlib.Core.Bool.{false≢true}
use max.Status.{
  Error, Failure, Status, ok, err, success, ready, fault, invalid_state, bus_lock_timeout,
  bus_lock_failed, spi_transfer_failed, operation_timeout, timing_unavailable,
}
use max.Status.Codes.{same_code-eq, same_code-true}
use max.Driver.{Transport, Driver, Context, Operation}
use max.Driver.Action.{on_status, modify_driver, ◌>>=◌}
use max.Driver.Action.Ends.{
  Ends, Outcome, Ends-attempt, Ends-bind, Ends-from, Ends-gets, Ends-given, Ends-lift, Ends-modify,
}
use max.Driver.Bus.{faulted}
use max.Driver.Access.{idle}
use max.Driver.Clock.{now_ms}
use max.Driver.Requests.{make_operation, validate_timeout}
use max.Driver.Lifecycle.{
  recovered, restored, is_transport_failure, provably_unchanged, recover_failed, recover_request,
}
use max.Driver.Lifecycle.Verified.{HasImage, IsCleared, recover_device-Ends}

-- The driver is ready and idle, and knows the configuration; what it observed agrees with the
-- desired configuration.
pub record IsRecovered {W : Type 0} (u : Context W) : Type 0 where
  pub state : u.driver.state ≡ ready
  pub known : u.driver.configuration_known ≡ true
  pub idle : u.driver.conversion ≡ idle u.driver.conversion
  pub image : HasImage u.driver.desired u

-- What the driver says of the device is what `d` said.
pub record IsUnchanged {W : Type 0} (d : Driver) (u : Context W) : Type 0 where
  pub state : u.driver.state ≡ d.state
  pub known : u.driver.configuration_known ≡ d.configuration_known
  pub conversion : u.driver.conversion ≡ d.conversion
  pub observed : u.driver.observed ≡ d.observed
  pub mask : u.driver.observed_valid_mask ≡ d.observed_valid_mask

abbrev pub IsGivenUp : {W : Type 0} → Context W → Type 0
IsGivenUp u = (u.driver.state ≡ fault) × (u.driver.configuration_known ≡ false)

-- The failures after which the transport alone may be at fault.
abbrev pub IsTransportFailure : Error → Type 0
IsTransportFailure c =
    (((((c ≡ invalid_state) ⊎ (c ≡ bus_lock_timeout)) ⊎ (c ≡ bus_lock_failed))
        ⊎ (c ≡ spi_transfer_failed))
      ⊎ (c ≡ operation_timeout))
    ⊎ (c ≡ timing_unavailable)

-- A failure `f` at the end of an operation `o`, in a recovery of the driver `d`, that cannot have
-- changed the device: no write may have been applied, no deassertion is in doubt, no unsafe state
-- was observed, and no command was pending before.
pub record IsHarmless (d : Driver) (o : Operation) (f : Failure) : Type 0 where
  pub transport : IsTransportFailure f.code
  pub unwritten : o.any_write_may_have_applied ≡ false
  pub settled : d.conversion.one_shot_commit_pending ≡ false
  pub framed : o.last_deassert_unknown ≡ false
  pub safe : o.unsafe_state_observed ≡ false

-- What a failed recovery leaves. A refused timeout changes nothing. Any other failure leaves what
-- the driver said of the device exactly if it is harmless, and gives it up if not.
abbrev pub IsSettled : {W : Type 0} → Driver → ℕ → Failure → Context W → Type 0
IsSettled d timeout_ms f u =
    ((validate_timeout timeout_ms false ≡ err f) × (u.driver ≡ d))
    ⊎ ((validate_timeout timeout_ms false ≡ success)
        × ((IsHarmless d u.operation f × IsUnchanged d u)
            ⊎ ((IsHarmless d u.operation f → ⊥) × IsGivenUp u)))

or_lem : {A B : Type 0} (a b : Bool) → (a ≡ true → A) → (b ≡ true → B) → a || b ≡ true → A ⊎ B
or_lem true b f g h = inl (f refl)
or_lem false b f g h = inr (g h)

lem_or : {A B : Type 0} (a b : Bool) → (A → a ≡ true) → (B → b ≡ true) → A ⊎ B → a || b ≡ true
lem_or a b f g (inl x) = rw (f x) refl
lem_or true b f g (inr y) = refl
lem_or false b f g (inr y) = g y

transport_lem : (c : Error) → is_transport_failure c ≡ true → IsTransportFailure c
transport_lem c =
    or_lem _ _
      (or_lem _ _
        (or_lem _ _
          (or_lem _ _ (or_lem _ _ (same_code-eq c _) (same_code-eq c _)) (same_code-eq c _))
          (same_code-eq c _))
        (same_code-eq c _))
      (same_code-eq c _)

lem_transport : (c : Error) → IsTransportFailure c → is_transport_failure c ≡ true
lem_transport c =
    lem_or _ _
      (lem_or _ _
        (lem_or _ _
          (lem_or _ _ (lem_or _ _ (same_code-true c _) (same_code-true c _)) (same_code-true c _))
          (same_code-true c _))
        (same_code-true c _))
      (same_code-true c _)

module _ (d : Driver) (o : Operation) (f : Failure) where
  provably_unchanged-IsHarmless : provably_unchanged d o f ≡ true → IsHarmless d o f
  unfolding provably_unchanged
  provably_unchanged-IsHarmless h = record {
    transport = transport_lem f.code (first_part h);
    unwritten = ground arith;
    settled = ground arith;
    framed = ground arith;
    safe = ground arith;
  }
    where
      first_part : provably_unchanged d o f ≡ true → is_transport_failure f.code ≡ true
      first_part h = ground arith

  IsHarmless-provably_unchanged : IsHarmless d o f → provably_unchanged d o f ≡ true
  unfolding provably_unchanged
  IsHarmless-provably_unchanged h =
      rw (lem_transport f.code h.transport, h.unwritten, h.settled, h.framed, h.safe) refl

module _ {W : Type 0} (d : Driver) (timeout_ms : ℕ)
    (accepted : validate_timeout timeout_ms false ≡ success) where
  -- The branch that the test takes.
  chosen :
      (b : Bool) (f : Failure) (u : Context W)
      → (b ≡ true → IsHarmless d u.operation f)
      → (IsHarmless d u.operation f → b ≡ true)
      → IsSettled d timeout_ms f
          (record u { driver = (if b then restored d else faulted) u.driver })
  chosen true f u h k = inr (
    accepted,
    inl (
      h refl,
      record { state = refl; known = refl; conversion = refl; observed = refl; mask = refl },
    ),
  )
  chosen false f u h k = inr (accepted, inr (λ x. false≢true (k x), (refl, refl)))

  module _ (t : Transport W) where
    recover_failed-Ends :
        (f : Failure)
        → Ends (λ _. Unit {0}) (recover_failed t d f) (λ _. IsRecovered) (IsSettled d timeout_ms)
    unfolding recover_failed
    recover_failed-Ends f = Ends-gets _ _ λ o.
        Ends-bind (λ _. IsSettled d timeout_ms f) _ _
          (Ends-modify _ λ s h.
            chosen (provably_unchanged d o f) f s
              (λ e. subst (λ p. IsHarmless d p f) (sym h.1) (provably_unchanged-IsHarmless d o f e))
              (λ x. IsHarmless-provably_unchanged d o f (subst (λ p. IsHarmless d p f) h.1 x)))
          λ _. Ends-lift (err f) λ s p. p

    concluded-Ends :
        (status : Status)
        → Ends
            (Outcome (λ _. IsCleared) (λ _ _. Unit {0}) status)
            (on_status status (λ _. modify_driver recovered) (recover_failed t d))
            (λ _. IsRecovered)
            (IsSettled d timeout_ms)
    concluded-Ends (ok _) =
        Ends-modify _
          λ s p. record { state = refl; known = refl; idle = refl; image = kept s p.image }
      where
        kept :
            (s : Context W)
            → HasImage s.driver.desired s
            → HasImage s.driver.desired (record s { driver = recovered s.driver })
        kept s h = record {
          desired = refl;
          expected = h.expected;
          encoded = h.encoded;
          verified = h.verified;
        }
    concluded-Ends (err f) = Ends-from (λ s p. tt) (recover_failed-Ends f)

module _ {W : Type 0} (t : Transport W) (d : Driver) (timeout_ms : ℕ) where
  make_operation-Ends :
      {E : Failure → Context W → Type 0}
      → Ends (λ u. u.driver ≡ d) (make_operation t timeout_ms) (λ _ u. u.driver ≡ d) E
  unfolding make_operation now_ms ◌>>=◌
  make_operation-Ends = record { at = λ s h. ground arith }

  -- The timeout is refused and nothing happens, or it is accepted.
  lifted :
      (r : Status)
      → validate_timeout timeout_ms false ≡ r
      → (s : Context W) → s.driver ≡ d
      → Outcome
          (λ a u. (u.driver ≡ d) × (validate_timeout timeout_ms false ≡ ok a))
          (IsSettled d timeout_ms)
          r
          s
  lifted (ok a) e s h = (h, e)
  lifted (err f) e s h = inl (e, h)

  -- The end of a recovery that started from `d`.
  from_baseline-Ends :
      (baseline : Driver) (status : Status)
      → baseline ≡ d
      → validate_timeout timeout_ms false ≡ success
      → Ends
          (Outcome (λ _. IsCleared) (λ _ _. Unit {0}) status)
          (on_status status (λ _. modify_driver recovered) (recover_failed t baseline))
          (λ _. IsRecovered)
          (IsSettled d timeout_ms)
  from_baseline-Ends baseline status e accepted =
      subst
        (λ b.
          Ends (Outcome (λ _. IsCleared) (λ _ _. Unit {0}) status)
            (on_status status (λ _. modify_driver recovered) (recover_failed t b))
            (λ _. IsRecovered) (IsSettled d timeout_ms))
        (sym e) (concluded-Ends d timeout_ms accepted t status)

  recover_request-Ends :
      Ends
        (λ u. u.driver ≡ d)
        (recover_request t timeout_ms)
        (λ _. IsRecovered)
        (IsSettled d timeout_ms)
  unfolding recover_request
  recover_request-Ends =
      Ends-bind (λ _ u. u.driver ≡ d) _ _ (Ends-modify _ λ s h. h)
        λ _.
          Ends-bind (λ a u. (u.driver ≡ d) × (validate_timeout timeout_ms false ≡ ok a)) _ _
            (Ends-lift _ (lifted _ refl))
            λ _. Ends-given λ accepted.
              Ends-bind (λ _ u. u.driver ≡ d) _ _ make_operation-Ends
                λ _. Ends-gets _ _ λ baseline.
                  Ends-from (λ u h. ((tt, tt), sym h.1 ∙ h.0))
                    (Ends-given λ e.
                      Ends-bind
                        (λ status u. Unit {0} × Outcome (λ _. IsCleared) (λ _ _. Unit {0}) status u)
                        _ _ (Ends-attempt _ (recover_device-Ends t))
                        λ status.
                          Ends-from (λ u h. h.1) (from_baseline-Ends baseline status e accepted))

-- A recovery that succeeds leaves the driver ready and idle, with the configuration known and the
-- observed registers in agreement with the desired configuration. A timeout that is refused
-- leaves the driver as it was. A recovery that fails otherwise leaves the lifecycle, the
-- conversion and the observed registers as they were exactly if the failure is harmless: one of
-- the transport's, no write may have been applied, no deassertion is in doubt, no unsafe state was
-- observed, and no command was pending before. Any other failure gives the device up, as a fault
-- with nothing known.
pub recover_request-Outcome :
    {W : Type 0} (t : Transport W) (timeout_ms : ℕ) (s : Context W)
    → Outcome
        (λ _. IsRecovered)
        (IsSettled s.driver timeout_ms)
        (recover_request t timeout_ms s).0
        (recover_request t timeout_ms s).1
recover_request-Outcome t timeout_ms s = (recover_request-Ends t s.driver timeout_ms).at s refl
