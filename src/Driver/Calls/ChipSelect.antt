-- ===== src/Driver/Calls/ChipSelect.antt =====
-- Chip select over the driver's life, but for `end`, which forgets what it knew of it.
use max.Prelude.{◌≢◌, sym, ◌∙◌, ap, Bool}
use max.Driver.{Transport, Context}
use max.Driver.Action.{Step}
use max.Driver.Action.Moves.{Moves, Moves-weaken}
use max.Driver.Action.Ends.{Ends-either, Ends-gives}
use max.Driver.Clock.{sleep_ms, now_us, read_pin}
use max.Driver.Bus.{synchronize_chip_select}
use max.Driver.Bus.Level.{ChipSelectLaws, Level, now_ms-Level, delay_us-Level, operation-Level}
use max.Driver.Bus.ChipSelect.{IsSafe, Level-IsSafe, synchronize-Ends}
use max.Driver.Bus.ChipSelect.Frame.{transact-IsSafe}
use max.Driver.Calls.{CallRules}
use max.Driver.Calls.Every.{run-rule}
use max.Driver.Consistency.Reachable.{Call, run, end_it}
use max.Temperature.{Arith, Casts}

record StaysSafe {W : Type 0} (selected : W → Bool) (s u : Context W) : Type 0 where
  pub kept : IsSafe selected s → IsSafe selected u

module _ {W : Type 0} {selected : W → Bool} where
  leveled : {A : Type 0} (m : Step W A) → Moves (Level selected) m → Moves (StaysSafe selected) m
  leveled m h =
      Moves-weaken (StaysSafe selected) m (λ s u l. record { kept = Level-IsSafe s u l }) h

module _ {W : Type 0} (t : Transport W) {selected : W → Bool}
    (laws : ChipSelectLaws t selected) where
  synchronize-StaysSafe : Moves (StaysSafe selected) (synchronize_chip_select t)
  synchronize-StaysSafe = record {
    at = λ s. record {
      kept = λ h.
          Ends-either (IsSafe selected) (synchronize_chip_select t s).0 _
            ((Ends-gives (λ a u p. record { high = λ k. p }) (synchronize-Ends t laws)).at s h);
    };
  }

  StaysSafe-calls : CallRules t (StaysSafe selected)
  unfolding sleep_ms now_us read_pin
  StaysSafe-calls = record {
    frames = record {
      clock = record {
        preorder = record {
          same = λ s. record { kept = λ h. h };
          chain = λ s v u p q. record { kept = λ h. q.kept (p.kept h) };
        };
        now = leveled _ (now_ms-Level t laws);
        slept = λ ms. record {
          at = λ s. record { kept = λ h. record { high = λ k. laws.sleep ms s.world ∙ h.high k } };
        };
        delayed = λ us. leveled _ (delay_us-Level t laws us);
        marked = λ code. leveled _ (operation-Level _);
      };
      written = leveled _ (operation-Level _);
      transacted = λ tx. record { at = λ s. record { kept = transact-IsSafe t laws tx s } };
      synchronized = synchronize-StaysSafe;
    };
    pin = record {
      at = λ s. record { kept = λ h. record { high = λ k. laws.pin s.world ∙ h.high k } };
    };
    micros = record {
      at = λ s. record { kept = λ h. record { high = λ k. laws.micros s.world ∙ h.high k } };
    };
    unmoved =
        λ s u w c. record { kept = λ h. record { high = λ k. ap selected w ∙ h.high (sym c ∙ k) } };
  }

module _ {W F D : Type 0} ⦃float : Arith F⦄ ⦃double : Arith D⦄ (t : Transport W) (m : Casts F D)
    {selected : W → Bool} (laws : ChipSelectLaws t selected) where
  -- Where the driver either knows chip select to be high or says that it does not know, so it is
  -- after any call of a public operation but `end`, however the call ends, if the chip-select
  -- callback does what its status says and no other callback moves the pin.
  pub run-IsSafe :
      (call : Call F)
      → call ≢ end_it
      → (s : Context W) → IsSafe selected s
      → IsSafe selected (run t m call s)
  run-IsSafe call goes_on s h =
      (run-rule m (StaysSafe-calls t laws) call s λ e. absurd (goes_on e)).kept h
