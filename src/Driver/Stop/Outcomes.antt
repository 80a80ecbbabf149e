-- ===== src/Driver/Stop/Outcomes.antt =====
-- What a stop that succeeds leaves behind.
use max.Prelude.{◌≡◌, false, if◌then◌else◌}
use max.Status.{ok, ready, fault}
use max.Driver.{Transport, Driver, Context}
use max.Driver.Action.{◌>>◌}
use max.Driver.Action.Ends.{Ends}
use max.Driver.Access.{idle}
use max.Driver.Apply.{write_runtime_config}
use max.Driver.Stop.{stopped}

-- No conversion runs or is awaited, and the driver is ready if it knows the configuration. The
-- last thing that the stop did was to write CONFIG without a conversion bit, from a context `v`
-- where no one-shot was armed.
pub record IsStopped {W : Type 0} (t : Transport W) (u : Context W) : Type 0 where
  pub idle : u.driver.conversion ≡ idle u.driver.conversion
  pub state : u.driver.state ≡ (if u.driver.configuration_known then ready else fault)
  pub written :
      (v : Context W) × (v.driver.conversion.one_shot_armed ≡ false)
      × ((write_runtime_config t v.driver.desired.bias_enabled false 0 v).0 ≡ ok tt)
      × (u.driver
          ≡ stopped (write_runtime_config t v.driver.desired.bias_enabled false 0 v).1.driver)

module _ {W : Type 0} (t : Transport W) where
  abbrev IsDisarmed : Context W → Type 0
  IsDisarmed u = u.driver.conversion.one_shot_armed ≡ false
