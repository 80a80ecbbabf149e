-- ===== src/Driver/Action/Ends.antt =====
-- What holds when a step ends, of the value or of the failure: one rule for each way to build a
-- step.
use max.Prelude.{◌≡◌, refl, Bool, true, false, if◌then◌else◌}
use max.Status.{Result, ok, err, Failure}
use max.Driver.{Context}
use max.Driver.Action.{Step, pure, lift, gets, ◌>>=◌, continue, attempt, on_status, modify}
use max.Driver.Action.Moves.{Moves}

-- `Q` of a value and the context, or `E` of a failure and the context.
abbrev pub Outcome {ℓ} :
    {W A : Type 0}
    → (A → Context W → Type ℓ)
    → (Failure → Context W → Type ℓ)
    → Result A
    → Context W
    → Type ℓ
Outcome Q E (ok a) u = Q a u
Outcome Q E (err f) u = E f u

pub record Ends {ℓ} {W A : Type 0} (P : Context W → Type ℓ) (m : Step W A)
    (Q : A → Context W → Type ℓ) (E : Failure → Context W → Type ℓ) : Type ℓ where
  pub at : (s : Context W) → P s → Outcome Q E (m s).0 (m s).1

module _ {ℓ} {W A : Type 0} {P : Context W → Type ℓ} {Q : A → Context W → Type ℓ}
    {E : Failure → Context W → Type ℓ} where
  pub Ends-lift : (r : Result A) → ((s : Context W) → P s → Outcome Q E r s) → Ends P (lift r) Q E
  unfolding lift
  Ends-lift r h = record { at = h }

  pub Ends-pure : (a : A) → ((s : Context W) → P s → Q a s) → Ends P (pure a) Q E
  unfolding pure
  Ends-pure a h = record { at = h }

  pub Ends-if :
      (b : Bool) (m n : Step W A)
      → ((b ≡ true) → Ends P m Q E)
      → ((b ≡ false) → Ends P n Q E)
      → Ends P (if b then m else n) Q E
  Ends-if true m n hm hn = hm refl
  Ends-if false m n hm hn = hn refl

module _ {ℓ} {W : Type 0} {P Q : Context W → Type ℓ} {E : Failure → Context W → Type ℓ} where
  pub Ends-modify :
      (f : Context W → Context W) → ((s : Context W) → P s → Q (f s)) → Ends P (modify f) (λ _. Q) E
  unfolding modify
  Ends-modify f h = record { at = h }

module _ {ℓ} {W A : Type 0} {P : Context W → Type ℓ} {E : Failure → Context W → Type ℓ} where
  -- A result that is lifted is known afterwards.
  pub Ends-lifted :
      (r : Result A)
      → ((f : Failure) (s : Context W) → P s → E f s)
      → Ends P (lift r) (λ a s. P s × (r ≡ ok a)) E
  unfolding lift
  Ends-lifted (ok a) h = record { at = λ s p. (p, refl) }
  Ends-lifted (err f) h = record { at = h f }

-- A status that is kept as a value, with a fact that no step changes.
module _ {ℓ} {W A : Type 0} {P : Context W → Type ℓ} {Q : A → Context W → Type ℓ}
    {E D : Failure → Context W → Type ℓ} where
  pub Ends-attempt :
      {C : Type ℓ} (m : Step W A)
      → Ends P m Q E
      → Ends (λ s. P s × C) (attempt m) (λ r s. C × Outcome Q E r s) D
  unfolding attempt
  Ends-attempt m h = record { at = λ s p. (p.1, h.at s p.0) }

-- A predicate that holds however a step ends.
module _ {ℓ} {W A : Type 0} (I : Context W → Type ℓ) where
  pub Ends-either : (r : Result A) (u : Context W) → Outcome (λ _. I) (λ _. I) r u → I u
  Ends-either (ok a) u h = h
  Ends-either (err f) u h = h

  pub Ends-attempt_either :
      {P : Context W → Type ℓ} {E : Failure → Context W → Type ℓ} (m : Step W A)
      → Ends P m (λ _. I) (λ _. I)
      → Ends P (attempt m) (λ _. I) E
  unfolding attempt
  Ends-attempt_either m h = record { at = λ s p. Ends-either (m s).0 (m s).1 (h.at s p) }

-- A step whose status is kept as a value, and that keeps a predicate.
module _ {ℓ} {W A : Type 0} (I : Context W → Type ℓ) {E : Failure → Context W → Type ℓ} where
  pub Ends-attempt_kept :
      {R : Context W → Context W → Type ℓ} (m : Step W A)
      → Moves R m
      → ((s u : Context W) → R s u → I s → I u)
      → Ends I (attempt m) (λ _. I) E
  unfolding attempt
  Ends-attempt_kept m h k = record { at = λ s p. k s (m s).1 (h.at s) p }

-- A status that is kept as a value does not end the step.
module _ {ℓ} {W A : Type 0} {P : Context W → Type ℓ} {E : Failure → Context W → Type ℓ} where
  pub Ends-attempted : (m : Step W A) → Ends P (attempt m) (λ _ _. Unit {ℓ}) E
  unfolding attempt
  Ends-attempted m = record { at = λ s p. tt }

-- More may be known before.
module _ {ℓ} {W A : Type 0} {P P' : Context W → Type ℓ} {Q : A → Context W → Type ℓ}
    {E : Failure → Context W → Type ℓ} where
  pub Ends-from : {m : Step W A} → ((s : Context W) → P' s → P s) → Ends P m Q E → Ends P' m Q E
  Ends-from k h = record { at = λ s p. h.at s (k s p) }

-- Less may be asked of a value.
module _ {ℓ} {W A : Type 0} {P : Context W → Type ℓ} {Q R : A → Context W → Type ℓ}
    {E : Failure → Context W → Type ℓ} where
  pub Ends-gives :
      {m : Step W A} → ((a : A) (s : Context W) → Q a s → R a s) → Ends P m Q E → Ends P m R E
  Ends-gives {m} k h = record { at = λ s p. gives (m s).0 (m s).1 (h.at s p) }
    where
      gives : (r : Result A) (u : Context W) → Outcome Q E r u → Outcome R E r u
      gives (ok a) u h = k a u h
      gives (err f) u h = h

-- Less may be asked of a failure.
module _ {ℓ} {W A : Type 0} (Q : A → Context W → Type ℓ) {E D : Failure → Context W → Type ℓ} where
  fails_with :
      ((f : Failure) (s : Context W) → E f s → D f s)
      → (r : Result A) (u : Context W) → Outcome Q E r u
      → Outcome Q D r u
  fails_with k (ok a) u h = h
  fails_with k (err f) u h = k f u h

  pub Ends-failing :
      {P : Context W → Type ℓ} {m : Step W A}
      → ((f : Failure) (s : Context W) → E f s → D f s)
      → Ends P m Q E
      → Ends P m Q D
  Ends-failing {m} k h = record { at = λ s p. fails_with k (m s).0 (m s).1 (h.at s p) }

-- A fact beside what is known of the context.
module _ {ℓ} {W A : Type 0} {P : Context W → Type ℓ} {Q : A → Context W → Type ℓ}
    {E : Failure → Context W → Type ℓ} {C : Type ℓ} where
  pub Ends-given : {m : Step W A} → (C → Ends P m Q E) → Ends (λ s. P s × C) m Q E
  Ends-given h = record { at = λ s p. (h p.1).at s p.0 }

-- A step that keeps a predicate ends in it, either way.
module _ {ℓ} {W A : Type 0} (I : Context W → Type ℓ) where
  weaker :
      {E : Failure → Context W → Type ℓ}
      → ((f : Failure) (u : Context W) → I u → E f u)
      → (r : Result A) (u : Context W) → I u
      → Outcome {W = W} {A = A} (λ _. I) E r u
  weaker e (ok a) u h = h
  weaker e (err f) u h = e f u h

  pub Ends-kept :
      {R : Context W → Context W → Type ℓ} {E : Failure → Context W → Type ℓ} (m : Step W A)
      → Moves R m
      → ((s u : Context W) → R s u → I s → I u)
      → ((f : Failure) (u : Context W) → I u → E f u)
      → Ends I m (λ _. I) E
  Ends-kept m h k e = record { at = λ s p. weaker e (m s).0 (m s).1 (k s (m s).1 (h.at s) p) }

module _ {ℓ} {W A B : Type 0} (E : Failure → Context W → Type ℓ) where
  continue-Outcome :
      (Q : A → Context W → Type ℓ) (R : B → Context W → Type ℓ) (r : Result A) (f : A → Step W B)
      (u : Context W)
      → ((a : A) → Ends (Q a) (f a) R E)
      → Outcome Q E r u
      → Outcome R E (continue r f u).0 (continue r f u).1
  continue-Outcome Q R (ok a) f u h q = (h a).at u q
  continue-Outcome Q R (err g) f u h q = q

module _ {ℓ} {W A B : Type 0} {P : Context W → Type ℓ} {E : Failure → Context W → Type ℓ} where
  pub Ends-bind :
      {R : B → Context W → Type ℓ} (Q : A → Context W → Type ℓ) (m : Step W A) (f : A → Step W B)
      → Ends P m Q E
      → ((a : A) → Ends (Q a) (f a) R E)
      → Ends P (m >>= f) R E
  unfolding ◌>>=◌
  Ends-bind {R} Q m f hm hf = record {
    at = λ s p. continue-Outcome E Q R (m s).0 f (m s).1 hf (hm.at s p);
  }

  pub Ends-gets :
      {R : B → Context W → Type ℓ} (g : Context W → A) (f : A → Step W B)
      → ((a : A) → Ends (λ s. P s × (g s ≡ a)) (f a) R E)
      → Ends P (gets g >>= f) R E
  unfolding ◌>>=◌
  Ends-gets g f h = record { at = λ s p. (h (g s)).at s (p, refl) }

  pub Ends-on_status :
      {R : B → Context W → Type ℓ} (r : Result A) (f : A → Step W B) (g : Failure → Step W B)
      → ((a : A) → (r ≡ ok a) → Ends P (f a) R E)
      → ((e : Failure) → (r ≡ err e) → Ends P (g e) R E)
      → Ends P (on_status r f g) R E
  Ends-on_status (ok a) f g hf hg = hf a refl
  Ends-on_status (err e) f g hf hg = hg e refl

-- Two continuations that agree wherever a step can succeed, for runs that end in `F`.
module _ {ℓ} {W A B : Type 0} {Q : A → Context W → Type ℓ} (E : Failure → Context W → Type ℓ) where
  continue-same :
      (F : Context W → Type 0) (f g : A → Step W B) (r : Result A) (u : Context W)
      → ((a : A) (u : Context W) → Q a u → F (g a u).1 → f a u ≡ g a u)
      → Outcome Q E r u
      → F (continue r g u).1
      → continue r f u ≡ continue r g u
  continue-same F f g (ok a) u h q x = h a u q x
  continue-same F f g (err e) u h q x = refl

  pub bind-same :
      {P : Context W → Type ℓ} (F : Context W → Type 0) (m : Step W A) (f g : A → Step W B)
      → Ends P m Q E
      → ((a : A) (u : Context W) → Q a u → F (g a u).1 → f a u ≡ g a u)
      → (s : Context W) → P s
      → F ((m >>= g) s).1
      → (m >>= f) s ≡ (m >>= g) s
  unfolding ◌>>=◌
  bind-same F m f g k h s p x = continue-same F f g (m s).0 (m s).1 h (k.at s p) x

-- Of a step that nothing is asked of.
done :
    {W A : Type 0} (r : Result A) (u : Context W)
    → Outcome {W = W} {A = A} (λ _ _. Unit {0}) (λ _ _. Unit {0}) r u
done (ok a) u = tt
done (err f) u = tt

module _ {W A : Type 0} where
  pub Ends-any :
      {P : Context W → Type 0} (m : Step W A) → Ends P m (λ _ _. Unit {0}) (λ _ _. Unit {0})
  Ends-any m = record { at = λ s p. done (m s).0 (m s).1 }

-- The branch of a test that goes on.
pub unless-same :
    {W A : Type 0} (F : Context W → Type 0) (m f g : Step W A) (b : Bool) (u : Context W)
    → (F (g u).1 → f u ≡ g u)
    → F ((if b then m else g) u).1
    → (if b then m else f) u ≡ (if b then m else g) u
unless-same F m f g true u h x = refl
unless-same F m f g false u h x = h x
