-- ===== src/Driver/Consistency/Requests/Samples.antt =====
-- The requests that read a sample keep the agreement.
use max.Prelude.{ℕ, ◌≡◌, refl, Bool, true, false, Option, some, none, List, if◌then◌else◌, arith}
use max.Status.{Failure, FaultStatus, Status, Result}
use max.Driver.{Transport, Driver, Context, saturating_increment}
use max.Driver.Action.{Step, pure, attempt, modify_driver, ◌>>=◌}
use max.Driver.Action.Moves.{
  Moves, Moves-bind, Moves-gets, Moves-modify, Moves-attempt, Moves-pure, Moves-read,
}
use max.Driver.Clock.{now_us, now_ms, deadline_expired, raise_timeout}
use max.Driver.Clock.Rules.{
  now-rule, check_deadline-rule, deadline_expired-rule, raise_timeout-rule,
}
use max.Driver.Access.Rules.{read_registers_internal-rule}
use max.Driver.Conversions.Rules.{
  halted-rule, data_ready_internal-rule, wait_for_ready_internal-rule,
  read_fault_status_internal-rule,
}
use max.Driver.Stop.{restore_idle_after_consumed_one_shot}
use max.Driver.Stop.Rules.{restore_idle_after_consumed_one_shot-rule}
use max.Driver.Samples.{
  Scaling, Sample, ReadOptions, awaiting, consumed, lost, count_sample, consume_continuous,
  consume_conversion, consume_lost, frame_failed, stamp_frame, faulty_frame, read_faulty, publish,
  measure, sample_frame, read_sample_internal,
}
use max.Driver.Detection.{joined}
use max.Driver.Sampling.{
  delivered, commit, acquire, finish_read, poll_ready, poll_request, poll, read_sample_request,
  read_sample, read_single_request, read_single, read_one_shot,
}
use max.Driver.Consistency.{
  is_consistent, timed-Agrees, counted-Agrees, Agrees, Agrees-preorder, Agrees-frames, agrees_rules,
}
use max.Driver.Consistency.Requests.{
  reset-Agrees, make_operation-Agrees, request-Agrees, finished-Agrees,
  trigger_single_internal-Agrees,
}

awaiting-agrees :
    (has_drdy : Bool) (now : ℕ) (d : Driver)
    → is_consistent d ≡ true
    → is_consistent (awaiting has_drdy now d) ≡ true
awaiting-agrees has_drdy now d h = ground arith

consumed-agrees :
    (d : Driver)
    → d.conversion.continuous ≡ false
    → is_consistent d ≡ true
    → is_consistent (consumed d) ≡ true
consumed-agrees d k h = ground arith

module _ {W : Type 0} where
  awaiting-Agrees :
      (has_drdy : Bool) (now : ℕ) → Moves (Agrees {W = W}) (modify_driver (awaiting has_drdy now))
  awaiting-Agrees has_drdy now =
      Moves-modify _ λ s. record { kept = awaiting-agrees has_drdy now s.driver }

  lost-Agrees : Moves (Agrees {W = W}) (modify_driver lost)
  lost-Agrees = Moves-modify _ λ s. record { kept = λ h. refl }

  count_sample-Agrees : Moves (Agrees {W = W}) (modify_driver count_sample)
  count_sample-Agrees = Moves-modify _ λ s. record { kept = λ h. h }

module _ {W : Type 0} (t : Transport W) where
  now_us-Agrees : Moves Agrees (now_us t)
  unfolding now_us
  now_us-Agrees = record { at = λ s. record { kept = λ h. h } }

  consume_continuous-Agrees : Moves Agrees (consume_continuous t)
  unfolding consume_continuous
  consume_continuous-Agrees =
      search (agrees_rules, now-rule, timed-Agrees, awaiting-Agrees) depth 30

  consumed-Agrees :
      (continuous : Bool) (s : Context W)
      → s.driver.conversion.continuous ≡ continuous
      → Agrees s ((if continuous then consume_continuous t else modify_driver consumed) s).1
  consumed-Agrees true s k = consume_continuous-Agrees.at s
  consumed-Agrees false s k =
      (Moves-modify {R = λ s u. (s.driver.conversion.continuous ≡ false) → Agrees s u} _
          λ s. λ k. record { kept = consumed-agrees s.driver k }).at
        s k

  consume_conversion-Agrees : Moves Agrees (consume_conversion t)
  unfolding consume_conversion
  consume_conversion-Agrees =
      Moves-bind Agrees-preorder _ _ (Moves-read _ _ λ s. consumed-Agrees _ s refl)
        λ _. check_deadline-rule (Agrees-frames t).clock

  consume_lost-Agrees : {A : Type 0} (f : Failure) → Moves Agrees (consume_lost t {A = A} f)
  unfolding consume_lost
  consume_lost-Agrees f = search (agrees_rules, counted-Agrees, consume_conversion-Agrees) depth 30

  frame_failed-Agrees : {A : Type 0} (f : Failure) → Moves Agrees (frame_failed t {A = A} f)
  unfolding frame_failed
  frame_failed-Agrees f =
      search (agrees_rules, counted-Agrees, consume_conversion-Agrees, lost-Agrees) depth 30

  stamp_frame-Agrees : (faulty : Bool) → Moves Agrees (stamp_frame t faulty)
  unfolding stamp_frame ◌>>=◌ now_us deadline_expired now_ms saturating_increment raise_timeout
  stamp_frame-Agrees faulty =
      search
        (
          agrees_rules, counted-Agrees, consume_conversion-Agrees, now_us-Agrees,
          deadline_expired-rule, raise_timeout-rule,
        )
        depth 30

module _ {W F : Type 0} (t : Transport W) (scaling : Scaling F) where
  faulty_frame-Agrees :
      (candidate : Sample F) (found : FaultStatus)
      → Moves Agrees (faulty_frame t scaling candidate found)
  unfolding faulty_frame
  faulty_frame-Agrees candidate found =
      search (agrees_rules, counted-Agrees, halted-rule, consume_conversion-Agrees) depth 30

  read_faulty-Agrees : (candidate : Sample F) → Moves Agrees (read_faulty t scaling candidate)
  unfolding read_faulty
  read_faulty-Agrees candidate =
      search
        (
          agrees_rules, counted-Agrees, read_fault_status_internal-rule, faulty_frame-Agrees,
          consume_lost-Agrees,
        )
        depth 30

  measure-Agrees : (candidate : Sample F) → Moves Agrees (measure t scaling candidate)
  unfolding measure publish
  measure-Agrees candidate =
      search
        (
          agrees_rules, counted-Agrees, consume_lost-Agrees, consume_conversion-Agrees,
          count_sample-Agrees,
        )
        depth 30

  sample_frame-Agrees :
      (options : Option ReadOptions) (bytes : List ℕ)
      → Moves Agrees (sample_frame t scaling options bytes)
  unfolding sample_frame
  sample_frame-Agrees options bytes =
      search (agrees_rules, counted-Agrees, stamp_frame-Agrees, read_faulty-Agrees, measure-Agrees)
        depth 30

  read_sample_internal-Agrees :
      (options : Option ReadOptions) (require_fresh : Bool)
      → Moves Agrees (read_sample_internal t scaling options require_fresh)
  unfolding read_sample_internal
  read_sample_internal-Agrees options require_fresh =
      search
        (
          agrees_rules, counted-Agrees, read_registers_internal-rule, sample_frame-Agrees,
          frame_failed-Agrees,
        )
        depth 30

module _ {W F : Type 0} (t : Transport W) where
  acquire-Agrees :
      (one_shot : Bool) (m : Step W (Sample F × Status))
      → Moves Agrees m
      → Moves Agrees (acquire t one_shot m)
  unfolding acquire
  acquire-Agrees one_shot m h =
      let p = Agrees-preorder in
      Moves-bind p _ _ (Moves-attempt m h) λ outcome. Moves-bind p _ _ (Moves-gets p _) λ d.
        Moves-bind p _ _ (restored-Agrees _ outcome) λ status.
          Moves-bind p _ _ (committed-Agrees (delivered outcome status)) λ _. Moves-pure p _
    where
      restored-Agrees :
          (b : Bool) (outcome : Result (Sample F × Status))
          → Moves Agrees (
              if b
              then attempt (restore_idle_after_consumed_one_shot t (joined outcome))
              else pure (joined outcome))
      restored-Agrees b outcome =
          search (agrees_rules, restore_idle_after_consumed_one_shot-rule) depth 20

      committed-Agrees : (x : Option (Sample F)) → Moves Agrees (commit t x)
      committed-Agrees none = Moves-pure Agrees-preorder _
      committed-Agrees (some x) = Moves-modify _ λ s. record { kept = λ h. h }

  finish_read-Agrees :
      (looks : Bool) (m : Step W (Option (Sample F) × Status))
      → Moves Agrees m
      → Moves Agrees (finish_read t looks m)
  unfolding finish_read
  finish_read-Agrees looks m h = Moves-bind Agrees-preorder _ _ h λ found.
      Moves-bind Agrees-preorder _ _ (finished-Agrees _ _) λ _. Moves-pure Agrees-preorder _

module _ {W F : Type 0} (t : Transport W) (scaling : Scaling F) (options : Option ReadOptions) where
  poll_request-Agrees : (timeout_ms : ℕ) → Moves Agrees (poll_request t scaling options timeout_ms)
  unfolding poll_request poll_ready
  poll_request-Agrees timeout_ms =
      search
        (
          agrees_rules, reset-Agrees, make_operation-Agrees, data_ready_internal-rule,
          counted-Agrees, read_sample_internal-Agrees,
        )
        depth 30

  pub poll-Agrees : (timeout_ms : ℕ) → Moves Agrees (poll t scaling options timeout_ms)
  unfolding poll
  poll-Agrees timeout_ms =
      search (agrees_rules, finish_read-Agrees, acquire-Agrees, poll_request-Agrees) depth 30

  read_sample_request-Agrees :
      (timeout_ms : ℕ) → Moves Agrees (read_sample_request t scaling options timeout_ms)
  unfolding read_sample_request
  read_sample_request-Agrees timeout_ms =
      search (agrees_rules, reset-Agrees, make_operation-Agrees, read_sample_internal-Agrees) depth
        30

  pub read_sample-Agrees :
      (timeout_ms : ℕ) → Moves Agrees (read_sample t scaling options timeout_ms)
  unfolding read_sample
  read_sample-Agrees timeout_ms =
      search (finish_read-Agrees, acquire-Agrees, read_sample_request-Agrees)

  read_single_request-Agrees :
      (timeout_ms : ℕ) → Moves Agrees (read_single_request t scaling options timeout_ms)
  unfolding read_single_request
  read_single_request-Agrees timeout_ms =
      search
        (
          agrees_rules, reset-Agrees, make_operation-Agrees, wait_for_ready_internal-rule,
          read_sample_internal-Agrees,
        )
        depth 30

  pub read_single-Agrees :
      (timeout_ms : ℕ) → Moves Agrees (read_single t scaling options timeout_ms)
  unfolding read_single
  read_single-Agrees timeout_ms =
      search (agrees_rules, finish_read-Agrees, acquire-Agrees, read_single_request-Agrees) depth 30

  pub read_one_shot-Agrees :
      (timeout_ms : ℕ) → Moves Agrees (read_one_shot t scaling options timeout_ms)
  unfolding read_one_shot
  read_one_shot-Agrees timeout_ms =
      search
        (
          agrees_rules, finish_read-Agrees, acquire-Agrees, request-Agrees,
          trigger_single_internal-Agrees, wait_for_ready_internal-rule, read_sample_internal-Agrees,
        )
        depth 30
