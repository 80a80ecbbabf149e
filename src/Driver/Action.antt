-- ===== src/Driver/Action.antt =====
-- Steps of the driver: a step reads and changes the context, and returns a value or fails. What
-- was changed before a failure stays changed. `status = f(); if (status.ok()) status = g();` is
-- the sequence of two steps, and `attempt` keeps a status as a value, for the code that cleans up
-- after a failure.
pub mod Moves
pub mod Ends
use max.Prelude.{Bool, String, ℤ, if◌then◌else◌}
use max.Status.{Result, ok, err, Failure, Error, fail}
use max.Driver.{Context, Driver, Operation, Session, Counters, Conversion, Stamps}

abbrev pub Step : Type 0 → Type 0 → Type 0
Step W A = Context W → Result A × Context W

module _ {W A : Type 0} where
  pub pure : A → Step W A
  pure a s = (ok a, s)

  pub lift : Result A → Step W A
  lift r s = (r, s)

  pub gets : (Context W → A) → Step W A
  gets f s = (ok (f s), s)

  -- Keeps a status as a value.
  pub attempt : Step W A → Step W (Result A)
  attempt m s = let (r, s') = m s in (ok r, s')

pub modify : {W : Type 0} → (Context W → Context W) → Step W (Unit {0})
modify f s = (ok tt, f s)

module _ {W A B : Type 0} where
  abbrev pub continue : Result A → (A → Step W B) → Step W B
  continue (ok a) f s = f a s
  continue (err e) f s = (err e, s)

  infixl 5 ◌>>=◌ ◌>>◌
  -- Opening this opens the other combinators too.
  unfoldable pub ◌>>=◌ : Step W A → (A → Step W B) → Step W B
  unfolding pure lift gets modify attempt
  ◌>>=◌ m f s = let (r, s') = m s in continue r f s'

  abbrev pub ◌>>◌ : Step W A → Step W B → Step W B
  m >> n = m >>= λ _. n

  -- The branches on a status.
  abbrev pub on_status : Result A → (A → Step W B) → (Failure → Step W B) → Step W B
  on_status (ok a) f g = f a
  on_status (err e) f g = g e

module _ {W A : Type 0} where
  abbrev pub raise : Error → String → ℤ → Step W A
  raise c m d = lift (fail c m d)

module _ {W : Type 0} where
  abbrev pub modify_driver : (Driver → Driver) → Step W (Unit {0})
  modify_driver f = modify λ s. record s { driver = f s.driver }

  abbrev pub modify_counters : (Counters → Counters) → Step W (Unit {0})
  modify_counters f = modify_driver λ d. record d { counters = f d.counters }

  abbrev pub modify_conversion : (Conversion → Conversion) → Step W (Unit {0})
  modify_conversion f = modify_driver λ d. record d { conversion = f d.conversion }

  abbrev pub modify_stamps : (Stamps → Stamps) → Step W (Unit {0})
  modify_stamps f = modify_driver λ d. record d { stamps = f d.stamps }

  abbrev pub modify_operation : (Operation → Operation) → Step W (Unit {0})
  modify_operation f = modify λ s. record s { operation = f s.operation }

  abbrev pub modify_session : (Session → Session) → Step W (Unit {0})
  modify_session f = modify λ s. record s { session = f s.session }

  abbrev pub skip : Step W (Unit {0})
  skip = pure tt

  -- `if (test) m;`
  abbrev pub when : Bool → Step W (Unit {0}) → Step W (Unit {0})
  when b m = if b then m else skip
