-- ===== src/Driver/Calls/Reading.antt =====
-- The requests that read a sample keep what frames keep.
use max.Prelude.{refl, ℕ, Bool, Option, none, some, List}
use max.Status.{Status, Failure, FaultStatus}
use max.Driver.Samples.{
  Scaling, Sample, ReadOptions, consume_continuous, consume_conversion, consume_lost, frame_failed,
  stamp_frame, faulty_frame, read_faulty, publish, measure, sample_frame, read_sample_internal,
}
use max.Driver.Sampling.{
  commit, acquire, finish_read, poll_ready, poll_request, poll, read_sample_request, read_sample,
  read_single_request, read_single, read_one_shot,
}
use max.Driver.Calls.Starting.{trigger_single_internal-rule}
use max.Driver.{Transport, Context}
use max.Driver.Action.{Step}
use max.Driver.Action.Moves.{Moves, Moves-bind, Moves-pure}
use max.Driver.Calls.{
  CallRules, call_rules, driver-rule, finished-rule, make_operation-rule, request-rule,
}

module _ {ℓ} {W : Type 0} {t : Transport W} {R : Context W → Context W → Type ℓ}
    (rules : CallRules t R) where
  consume_conversion-rule : Moves R (consume_conversion t)
  unfolding consume_conversion consume_continuous
  consume_conversion-rule = search (call_rules) depth 30

  consume_lost-rule : {A : Type 0} (f : Failure) → Moves R (consume_lost t {A = A} f)
  unfolding consume_lost
  consume_lost-rule f = search (call_rules, consume_conversion-rule) depth 30

  frame_failed-rule : {A : Type 0} (f : Failure) → Moves R (frame_failed t {A = A} f)
  unfolding frame_failed
  frame_failed-rule f = search (call_rules, consume_conversion-rule) depth 30

  stamp_frame-rule : (faulty : Bool) → Moves R (stamp_frame t faulty)
  unfolding stamp_frame
  stamp_frame-rule faulty = search (call_rules, consume_conversion-rule) depth 30

module _ {ℓ} {W F : Type 0} {t : Transport W} {R : Context W → Context W → Type ℓ}
    (rules : CallRules t R) (scaling : Scaling F) where
  faulty_frame-rule :
      (candidate : Sample F) (found : FaultStatus)
      → Moves R (faulty_frame t scaling candidate found)
  unfolding faulty_frame
  faulty_frame-rule candidate found = search (call_rules, consume_conversion-rule) depth 30

  read_faulty-rule : (candidate : Sample F) → Moves R (read_faulty t scaling candidate)
  unfolding read_faulty
  read_faulty-rule candidate = search (call_rules, faulty_frame-rule, consume_lost-rule) depth 30

  measure-rule : (candidate : Sample F) → Moves R (measure t scaling candidate)
  unfolding measure publish
  measure-rule candidate = search (call_rules, consume_lost-rule, consume_conversion-rule) depth 30

  sample_frame-rule :
      (options : Option ReadOptions) (bytes : List ℕ)
      → Moves R (sample_frame t scaling options bytes)
  unfolding sample_frame
  sample_frame-rule options bytes =
      search (call_rules, stamp_frame-rule, read_faulty-rule, measure-rule) depth 30

  read_sample_internal-rule :
      (options : Option ReadOptions) (require_fresh : Bool)
      → Moves R (read_sample_internal t scaling options require_fresh)
  unfolding read_sample_internal
  read_sample_internal-rule options require_fresh =
      search (call_rules, sample_frame-rule, frame_failed-rule) depth 30

module _ {ℓ} {W F : Type 0} {t : Transport W} {R : Context W → Context W → Type ℓ}
    (rules : CallRules t R) where
  commit-rule : (x : Option (Sample F)) → Moves R (commit t x)
  commit-rule none = Moves-pure rules.frames.clock.preorder _
  commit-rule (some x) = driver-rule rules _ (record { kept = λ d. refl })

  acquire-rule :
      (one_shot : Bool) (m : Step W (Sample F × Status))
      → Moves R m
      → Moves R (acquire t one_shot m)
  unfolding acquire
  acquire-rule one_shot m h = search (call_rules, commit-rule) depth 30

  finish_read-rule :
      (looks : Bool) (m : Step W (Option (Sample F) × Status))
      → Moves R m
      → Moves R (finish_read t looks m)
  unfolding finish_read
  finish_read-rule looks m h =
      let p = rules.frames.clock.preorder in
      Moves-bind p _ _ h λ found. Moves-bind p _ _ (finished-rule rules _ _) λ _. Moves-pure p _

module _ {ℓ} {W F : Type 0} {t : Transport W} {R : Context W → Context W → Type ℓ}
    (rules : CallRules t R) (scaling : Scaling F) where
  pub poll-rule :
      (options : Option ReadOptions) (timeout_ms : ℕ) → Moves R (poll t scaling options timeout_ms)
  unfolding poll poll_request poll_ready
  poll-rule options timeout_ms =
      search
        (call_rules, finish_read-rule, acquire-rule, make_operation-rule, read_sample_internal-rule)
        depth 30

  pub read_sample-rule :
      (options : Option ReadOptions) (timeout_ms : ℕ)
      → Moves R (read_sample t scaling options timeout_ms)
  unfolding read_sample read_sample_request
  read_sample-rule options timeout_ms =
      search
        (call_rules, finish_read-rule, acquire-rule, make_operation-rule, read_sample_internal-rule)
        depth 30

  pub read_single-rule :
      (options : Option ReadOptions) (timeout_ms : ℕ)
      → Moves R (read_single t scaling options timeout_ms)
  unfolding read_single read_single_request
  read_single-rule options timeout_ms =
      search
        (call_rules, finish_read-rule, acquire-rule, make_operation-rule, read_sample_internal-rule)
        depth 30

  pub read_one_shot-rule :
      (options : Option ReadOptions) (timeout_ms : ℕ)
      → Moves R (read_one_shot t scaling options timeout_ms)
  unfolding read_one_shot
  read_one_shot-rule options timeout_ms =
      search
        (
          call_rules, finish_read-rule, acquire-rule, request-rule, trigger_single_internal-rule,
          read_sample_internal-rule,
        )
        depth 30
