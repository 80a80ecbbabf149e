-- ===== src/Driver/Calls/Locks.antt =====
-- The bus lock over the driver's whole life.
use max.Prelude.{ℕ, ◌≡◌, refl, true}
use max.Driver.{Transport, Context}
use max.Driver.Clock.{now_us, read_pin}
use max.Driver.Bus.Locks.{LockLaws, Balanced}
use max.Driver.Bus.Locks.Frame.{Balanced-frames}
use max.Driver.Bus.Locks.Guard.{GuardLaws, Clean}
use max.Driver.Bus.Locks.Guarded.{Clean-frames}
use max.Driver.Calls.{CallRules}
use max.Driver.Calls.Every.{run-rule}
use max.Driver.Consistency.Reachable.{Call, run}
use max.Temperature.{Arith, Casts}

module _ {W : Type 0} (t : Transport W) {held : W → ℕ} (laws : LockLaws t held) where
  Balanced-calls : CallRules t (Balanced held)
  unfolding now_us read_pin
  Balanced-calls = record {
    frames = Balanced-frames t laws;
    pin = record { at = λ s. record { same = laws.pin s.world } };
    micros = record { at = λ s. record { same = laws.micros s.world } };
    unmoved = λ s u h _. record { same = rw (h) refl };
  }

  Clean-calls :
      {unguarded : W → ℕ}
      → GuardLaws t held unguarded
      → t.has_lock_bus ≡ true
      → CallRules t (Clean unguarded)
  unfolding now_us read_pin
  Clean-calls guards has_lock = record {
    frames = Clean-frames t laws guards has_lock;
    pin = record { at = λ s. record { clean = guards.pin s.world } };
    micros = record { at = λ s. record { clean = guards.micros s.world } };
    unmoved = λ s u h _. record { clean = rw (h) refl };
  }

module _ {W F D : Type 0} ⦃float : Arith F⦄ ⦃double : Arith D⦄ (t : Transport W) (m : Casts F D)
    {held unguarded : W → ℕ} (laws : LockLaws t held) (guards : GuardLaws t held unguarded) where
  -- On a transport with a lock callback, where `held` and `unguarded` count what their laws say,
  -- every call of a public operation, however it ends, leaves the bus held as often as before the
  -- call, and calls neither chip select nor the transfer while the bus is not held.
  pub run-guarded :
      t.has_lock_bus ≡ true
      → (call : Call F) (s : Context W)
      → (held (run t m call s).world ≡ held s.world)
        × (unguarded (run t m call s).world ≡ unguarded s.world)
  run-guarded has_lock call s = (
    (run-rule m (Balanced-calls t laws) call s (λ _. record { same = refl })).same,
    (run-rule m (Clean-calls t laws guards has_lock) call s (λ _. record { clean = refl })).clean,
  )
