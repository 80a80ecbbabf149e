-- ===== src/Driver/Clock/Rules.antt =====
-- How the clock, the waits and the looks at the deadline keep a relation between contexts.
use max.Prelude.{ℕ}
use max.Status.{Error, Result}
use max.Driver.{Transport, Context}
use max.Driver.Action.Moves.{IsPreorder, Moves, moves_rules, Moves-modify}
use max.Driver.Clock.{
  now_ms, sleep_ms, delay_us, deadline_expired, mark_timeout, deadline_remaining_ms, check_deadline,
  after_deadline, raise_timeout, sleep_within_deadline,
}

-- A relation that the clock, the waits and the marks of a passed deadline have.
pub record ClockRules {ℓ} {W : Type 0} (t : Transport W) (R : Context W → Context W → Type ℓ)
    : Type ℓ where
  pub preorder : IsPreorder R
  pub now : Moves R (now_ms t)
  pub slept : (ms : ℕ) → Moves R (sleep_ms t ms)
  pub delayed : (us : ℕ) → Moves R (delay_us t us)
  pub marked : (code : Error) → Moves R (mark_timeout {W = W} code)

module _ {ℓ} {W : Type 0} {t : Transport W} {R : Context W → Context W → Type ℓ}
    (rules : ClockRules t R) where
  pub preorder-rule : IsPreorder R
  preorder-rule = rules.preorder

  pub now-rule : Moves R (now_ms t)
  now-rule = rules.now

  pub slept-rule : (ms : ℕ) → Moves R (sleep_ms t ms)
  slept-rule = rules.slept

  pub delayed-rule : (us : ℕ) → Moves R (delay_us t us)
  delayed-rule = rules.delayed

  pub marked-rule : (code : Error) → Moves R (mark_timeout {W = W} code)
  marked-rule = rules.marked

module _ {ℓ} {W : Type 0} {t : Transport W} {R : Context W → Context W → Type ℓ}
    (rules : ClockRules t R) where
  pub raise_timeout-rule :
      {A : Type 0} (code : Error) → Moves R (raise_timeout {W = W} {A = A} code)
  unfolding raise_timeout
  raise_timeout-rule code = search (moves_rules, preorder-rule, marked-rule)

  pub deadline_expired-rule : Moves R (deadline_expired t)
  unfolding deadline_expired
  deadline_expired-rule = search (moves_rules, preorder-rule, now-rule)

  pub deadline_remaining_ms-rule : Moves R (deadline_remaining_ms t)
  unfolding deadline_remaining_ms
  deadline_remaining_ms-rule = search (moves_rules, preorder-rule, now-rule)

  pub check_deadline-rule : Moves R (check_deadline t)
  unfolding check_deadline
  check_deadline-rule =
      search (moves_rules, preorder-rule, deadline_expired-rule, raise_timeout-rule)

  pub after_deadline-rule : {A : Type 0} (r : Result A) → Moves R (after_deadline t r)
  unfolding after_deadline
  after_deadline-rule r =
      search (moves_rules, preorder-rule, marked-rule, deadline_expired-rule, raise_timeout-rule)
        depth 10

pub ruleset waiting_rules = (
  moves_rules, preorder-rule, now-rule, slept-rule, delayed-rule, marked-rule, raise_timeout-rule,
  deadline_expired-rule, deadline_remaining_ms-rule, check_deadline-rule, after_deadline-rule,
)

module _ {ℓ} {W : Type 0} {t : Transport W} {R : Context W → Context W → Type ℓ}
    (rules : ClockRules t R) where
  pub sleep_within_deadline-rule :
      (delay : ℕ) (timeout : Error) → Moves R (sleep_within_deadline t delay timeout)
  unfolding sleep_within_deadline
  sleep_within_deadline-rule delay timeout = search waiting_rules depth 30
