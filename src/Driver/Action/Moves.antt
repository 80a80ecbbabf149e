-- ===== src/Driver/Action/Moves.antt =====
-- Relations between the contexts before and after a step, one rule for each way to build a step.
use max.Prelude.{Bool, true, false, if◌then◌else◌}
use max.Status.{Result, ok, err, Failure}
use max.Driver.{Context}
use max.Driver.Action.{Step, pure, lift, gets, ◌>>=◌, continue, attempt, on_status, modify}

-- A step that does nothing has the relation, and a sequence of steps that have it.
pub record IsPreorder {ℓ} {S : Type 0} (R : S → S → Type ℓ) : Type ℓ where
  pub same : (s : S) → R s s
  pub chain : (s t u : S) → R s t → R t u → R s u

-- `m` relates the context that it starts from to the one that it leaves, however it ends.
pub record Moves {ℓ} {W A : Type 0} (R : Context W → Context W → Type ℓ) (m : Step W A)
    : Type ℓ where
  pub at : (s : Context W) → R s (m s).1

-- A weaker relation.
pub Moves-weaken {ℓ κ} :
    {W A : Type 0} {R : Context W → Context W → Type ℓ} (Q : Context W → Context W → Type κ)
    → (m : Step W A) → ((s u : Context W) → R s u → Q s u)
    → Moves R m
    → Moves Q m
Moves-weaken Q m h k = record { at = λ s. h s (m s).1 (k.at s) }

-- Two relations at once.
pub Moves-both {ℓ κ} :
    {W A : Type 0} {R : Context W → Context W → Type ℓ} {Q : Context W → Context W → Type κ}
    (m : Step W A)
    → Moves R m
    → Moves Q m
    → Moves (λ s u. R s u × Q s u) m
Moves-both m h k = record { at = λ s. (h.at s, k.at s) }

module _ {ℓ} {W : Type 0} {R : Context W → Context W → Type ℓ} where
  pub Moves-modify :
      (f : Context W → Context W) → ((s : Context W) → R s (f s)) → Moves R (modify f)
  unfolding modify
  Moves-modify f h = record { at = h }

module _ {ℓ} {W A : Type 0} {R : Context W → Context W → Type ℓ} where
  pub Moves-pure : IsPreorder R → (a : A) → Moves R (pure a)
  unfolding pure
  Moves-pure p a = record { at = p.same }

  pub Moves-lift : IsPreorder R → (r : Result A) → Moves R (lift r)
  unfolding lift
  Moves-lift p r = record { at = p.same }

  pub Moves-gets : IsPreorder R → (f : Context W → A) → Moves R (gets f)
  unfolding gets
  Moves-gets p f = record { at = p.same }

  pub Moves-if : (b : Bool) (m n : Step W A) → Moves R m → Moves R n → Moves R (if b then m else n)
  Moves-if true m n hm hn = hm
  Moves-if false m n hm hn = hn

module _ {ℓ} {W A : Type 0} {R : Context W → Context W → Type ℓ} where
  pub Moves-attempt : (m : Step W A) → Moves R m → Moves R (attempt m)
  unfolding attempt
  Moves-attempt m h = record { at = h.at }

module _ {ℓ} {W A B : Type 0} {R : Context W → Context W → Type ℓ} where
  continue-moves :
      IsPreorder R
      → (r : Result A) (f : A → Step W B) (s s' : Context W) → ((a : A) → Moves R (f a))
      → R s s'
      → R s (continue r f s').1
  continue-moves p (ok a) f s s' kf h = p.chain s s' (f a s').1 h ((kf a).at s')
  continue-moves p (err e) f s s' kf h = h

  pub Moves-bind :
      IsPreorder R
      → (m : Step W A) (f : A → Step W B) → Moves R m
      → ((a : A) → Moves R (f a))
      → Moves R (m >>= f)
  unfolding ◌>>=◌
  Moves-bind p m f hm hf = record { at = λ s. continue-moves p (m s).0 f s (m s).1 hf (hm.at s) }

  -- A step that depends on the context may use that it does.
  pub Moves-read :
      (g : Context W → A) (f : A → Step W B)
      → ((s : Context W) → R s (f (g s) s).1)
      → Moves R (gets g >>= f)
  unfolding ◌>>=◌
  Moves-read g f h = record { at = h }

  pub Moves-on_status :
      IsPreorder R
      → (r : Result A) (f : A → Step W B) (g : Failure → Step W B) → ((a : A) → Moves R (f a))
      → ((e : Failure) → Moves R (g e))
      → Moves R (on_status r f g)
  Moves-on_status p (ok a) f g hf hg = hf a
  Moves-on_status p (err e) f g hf hg = hg e

-- The rules together, for `search`.
pub ruleset moves_rules = (
  Moves-bind, Moves-pure, Moves-lift, Moves-gets, Moves-if, Moves-attempt, Moves-on_status,
  Moves-modify,
)
