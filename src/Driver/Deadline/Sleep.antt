-- ===== src/Driver/Deadline/Sleep.antt =====
-- What a sleep within the deadline does to a clock that keeps its promise
-- (src/MAX31865.cpp, `sleepWithinDeadline`).
use max.Prelude.{
  ℕ, ◌+◌, ◌-◌, ◌≤◌, ◌<◌, ◌≡◌, refl, sym, ap, ◌∙◌, ◌%◌, Bool, true, false, ◌||◌, if◌then◌else◌, leb,
  ltb, ◌==◌, u32, sub32, arith,
}
use max.Status.{Error, drdy_timeout, same_code}
use max.Driver.{Transport, Operation, Context}
use max.Driver.Action.{Step, ◌>>◌, skip}
use max.Driver.Action.Moves.{Moves, Moves-pure}
use max.Driver.Action.Ends.{
  Ends, Ends-bind, Ends-from, Ends-gets, Ends-given, Ends-if, Ends-kept, Ends-lift, Ends-modify,
  Ends-pure, bind-same,
}
use max.Driver.Clock.Rules.{deadline_remaining_ms-rule, slept-rule}
use max.Driver.Bus.Rules.{FrameRules}
use max.Driver.Clock.{now_ms, deadline_expired, raise_timeout, sleep_within_deadline}
use max.Driver.Deadline.{
  IsClock, IsAt, Passes, Passes-IsAt, Passes-frames, le_trans, le_lt_trans, suc_trans, advanced,
}

-- The milliseconds that a sleep finds left at a reading.
abbrev left : Operation → ℕ → ℕ
left o now =
    let elapsed = sub32 now o.start_ms in
    if leb o.timeout_ms elapsed then 0 else o.timeout_ms - elapsed

-- A timeout is no success.
pub raise-Ends :
    {W A : Type 0} {P : Context W → Type 0} {Q : A → Context W → Type 0} (code : Error)
    → Ends P (raise_timeout code) Q (λ _ _. Unit {0})
unfolding raise_timeout
raise-Ends code =
    Ends-bind (λ _ _. Unit {0}) _ _ (Ends-modify _ λ s p. tt)
      λ _.
        Ends-if (same_code code drdy_timeout) _ _ (λ _. Ends-lift _ λ s p. tt)
          λ _. Ends-lift _ λ s p. tt

module _ {W : Type 0} (t : Transport W) (start : ℕ) (since : W → ℕ) (clock : IsClock t start since)
    (timeout : ℕ) where
  -- What the passing of time keeps.
  abbrev IsStable : (Context W → Type 0) → Type 0
  IsStable P = (s u : Context W) → Passes since s u → P s → P u

  kept :
      {A : Type 0} (P : Context W → Type 0) (m : Step W A)
      → IsStable P
      → Moves (Passes since) m
      → Ends P m (λ _. P) (λ _ _. Unit {0})
  kept P m p h = Ends-kept P m h p λ f u x. tt

  -- A reading, as far as the clock has not come round.
  abbrev IsRead : ℕ → Context W → Type 0
  IsRead n u = (n < 4294967296) × (since u.world < 4294967296 → sub32 n start ≡ since u.world)

  now-Ends :
      (P : Context W → Type 0)
      → IsStable P
      → Ends P (now_ms t) (λ n u. P u × IsRead n u) (λ _ _. Unit {0})
  unfolding now_ms
  now-Ends P p = record {
    at = λ s x. (
      p s _ (record { start = refl; timeout = refl; later = clock.now s.world }) x,
      (below (t.now_ms s.world).0, λ w. clock.shown s.world ∙ small w),
    );
  }
    where
      below : (n : ℕ) → u32 n < 4294967296
      below n = omega arith

      small : {a : ℕ} → a < 4294967296 → a % 4294967296 ≡ a
      small h = omega arith

  facts :
      (k : ℕ) (s : Context W) (o : Operation)
      → IsAt since start timeout k s
      → s.operation ≡ o
      → (o.start_ms ≡ start) × (o.timeout_ms ≡ timeout)
  facts k s o h e =
      (ap Operation.start_ms (sym e) ∙ h.starts, ap Operation.timeout_ms (sym e) ∙ h.times_out)

  -- A deadline that has not passed lies ahead.
  expired-Ends :
      (k : ℕ)
      → 0 < timeout
      → Ends
          (IsAt since start timeout k)
          (deadline_expired t)
          (λ e u.
            IsAt since start timeout k u
            × (e ≡ false → since u.world < 4294967296 → since u.world < timeout))
          (λ _ _. Unit {0})
  unfolding deadline_expired
  expired-Ends k p = Ends-gets _ _ λ o.
      Ends-from (λ s h. (h.0, facts k s o h.0 h.1))
        (Ends-given λ c.
          Ends-if (o.timeout_ms == 0) _ _ (λ e. Ends-pure _ λ s h. (h, λ _. ground arith))
            λ e.
              Ends-bind _ _ _ (now-Ends _ (Passes-IsAt since start timeout k))
                λ n. Ends-pure _ λ s h. (h.0, λ e' w. ahead o n (since s.world) c (h.1.1 w) e'))
    where
      ahead :
          (o : Operation) (n now : ℕ)
          → (o.start_ms ≡ start) × (o.timeout_ms ≡ timeout)
          → sub32 n start ≡ now
          → leb o.timeout_ms (sub32 n o.start_ms) ≡ false
          → now < timeout
      ahead o n now c h e = ground arith

  -- After the reading `before`, at `k` milliseconds or later.
  record IsAfter (k before : ℕ) (u : Context W) : Type 0 where
    pub at : IsAt since start timeout k u
    pub word : before < 4294967296
    pub seen :
        since u.world < 4294967296 → (k ≤ sub32 before start) × (sub32 before start ≤ since u.world)

  IsAfter-stable : (k before : ℕ) → IsStable (IsAfter k before)
  IsAfter-stable k before s u p h = record {
    at = Passes-IsAt since start timeout k s u p h.at;
    word = h.word;
    seen = λ w. let x = h.seen (le_lt_trans p.later w) in (x.0, le_trans x.1 p.later);
  }

  read-IsAfter :
      (k n : ℕ) (u : Context W) → IsAt since start timeout k u × IsRead n u → IsAfter k n u
  read-IsAfter k n u h = record {
    at = h.0;
    word = h.1.0;
    seen = λ w. exact_after (h.1.1 w) (h.0.late w);
  }
    where
      exact_after : {a b : ℕ} → a ≡ b → k ≤ b → (k ≤ a) × (a ≤ b)
      exact_after e h = (omega arith, omega arith)

  -- A second reading that differs from the first has seen a millisecond go by.
  advanced-IsAt :
      (k before after : ℕ) (u : Context W)
      → ltb (sub32 after before) 1 ≡ false
      → IsAfter k before u × IsRead after u
      → IsAt since start timeout (k + 1) u
  advanced-IsAt k before after u d h = record {
    starts = h.0.at.starts;
    times_out = h.0.at.times_out;
    late = λ w. suc_trans (h.0.seen w).0 (
        advanced start before after (since u.world) (sub32 before start) clock.word h.0.word h.1.0
          refl (h.1.1 w) (h.0.seen w).1 d);
  }

  conclude :
      (k : ℕ) (code : Error) (expired : Bool)
      → Ends
          (λ u.
            IsAt since start timeout (k + 1) u
            × (expired ≡ false → since u.world < 4294967296 → since u.world < timeout))
          (if expired then raise_timeout code else skip)
          (λ _ u.
            IsAt since start timeout (k + 1) u
            × (since u.world < 4294967296 → since u.world < timeout))
          (λ _ _. Unit {0})
  conclude k code true = raise-Ends code
  conclude k code false = Ends-pure _ λ u h. (h.0, h.1 refl)

  -- A millisecond's sleep that succeeds has taken a millisecond, and ends before the deadline, as
  -- far as the clock has not come round.
  pub sleep-Ends :
      (k : ℕ) (code : Error)
      → Ends
          (IsAt since start timeout k)
          (sleep_within_deadline t 1000 code)
          (λ _ u.
            IsAt since start timeout (k + 1) u
            × (since u.world < 4294967296 → since u.world < timeout))
          (λ _ _. Unit {0})
  unfolding sleep_within_deadline
  sleep-Ends k code = Ends-gets _ _ λ o.
      Ends-from (λ s h. (h.0, facts k s o h.0 h.1))
        (Ends-given λ c.
          Ends-bind _ _ _ (kept _ _ stable (deadline_remaining_ms-rule frames.clock)) λ remaining.
            Ends-if ((o.timeout_ms == 0) || leb remaining 1) _ _ (λ _. raise-Ends code)
              λ e. Ends-bind _ _ _ (now-Ends _ stable) λ before.
                Ends-if (leb (left o before) 1) _ _ (λ _. raise-Ends code)
                  λ _. Ends-from (read-IsAfter k before) (
                    Ends-bind _ _ _ (kept _ _ (IsAfter-stable k before) (slept-rule frames.clock _))
                      λ _.
                        Ends-bind _ _ _
                          (kept _ _ (IsAfter-stable k before) (Moves-pure frames.clock.preorder _))
                          λ _. Ends-bind _ _ _ (now-Ends _ (IsAfter-stable k before)) λ after.
                            Ends-if (ltb (sub32 after before) 1) _ _ (λ _. Ends-lift _ λ s h. tt)
                              λ d.
                                Ends-from (λ s. advanced-IsAt k before after s d)
                                  (Ends-bind _ _ _
                                    (expired-Ends (k + 1) (positive o c (leb remaining 1) e))
                                    (conclude k code))))
    where
      frames : FrameRules t (Passes since)
      frames = Passes-frames t start since clock

      stable : IsStable (IsAt since start timeout k)
      stable = Passes-IsAt since start timeout k

      positive :
          (o : Operation)
          → (o.start_ms ≡ start) × (o.timeout_ms ≡ timeout)
          → (b : Bool) → (o.timeout_ms == 0) || b ≡ false
          → 0 < timeout
      positive o c b e = ground arith

  -- Loops that sleep a millisecond a round, and end before the clock comes round: the round after
  -- a sleep has a millisecond less left.
  pub sleep-same :
      {B : Type 0} (k : ℕ) (code : Error) (f g : Step W B)
      → ((v : Context W)
          → IsAt since start timeout (k + 1) v
          → (since v.world < 4294967296 → since v.world < timeout)
          → since (g v).1.world < 4294967296
          → f v ≡ g v)
      → (u : Context W) → IsAt since start timeout k u
      → since ((sleep_within_deadline t 1000 code >> g) u).1.world < 4294967296
      → (sleep_within_deadline t 1000 code >> f) u ≡ (sleep_within_deadline t 1000 code >> g) u
  sleep-same k code f g h u p =
      bind-same (λ _ _. Unit {0}) (λ v. since v.world < 4294967296) _ _ _ (sleep-Ends k code)
        (λ _ v q. h v q.0 q.1) u p
