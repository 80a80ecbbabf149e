-- ===== src/Lib.antt =====
-- The MAX31865 driver: a model of its core in a cubical type theory, and the theorems about it.
--
-- The program is a synchronous driver for the MAX31865 RTD-to-digital converter. An application
-- hands it a transport, a set of callbacks for the shared SPI bus, the chip-select pin and the
-- clock; every public operation runs one or more SPI frames over these callbacks within one
-- deadline, and keeps the desired configuration, the registers last observed, the state of a
-- conversion and a health record.
--
-- The files, and the code that they model:
--   Prelude         native numbers, lists, machine words and Boolean tests; Prelude.Bits has the
--                   facts about bit masks, by tables over a byte.
--   Status          include/MAX31865/Status.h: results, error codes, lifecycle. A status is a
--                   `Result` without a value; its code `Ok` is the constructor `ok`. The names
--                   of states and errors are in Status.Names.
--   Commands        include/MAX31865/CommandTable.h: addresses, masks, times.
--   Protocol        src/MAX31865_Protocol.cpp: the register-frame codec, one definition for each
--                   function. Protocol.Frames and Protocol.Words have its theorems.
--   Config          include/MAX31865/Config.h and the helpers of src/MAX31865.cpp: configuration,
--                   its bytes (Config.Bytes), its validation and its decoding; theorems in
--                   Config.Image, Config.Validation and Config.Decoded.
--   Driver          the members of the class `MAX31865`, and the context of an operation.
--   Driver.Action   steps: functions of the context that return a value or fail. A sequence stops
--                   at the first failure, as the code's early returns do, and `attempt` keeps a
--                   status as a value for the code that cleans up. Driver.Action.Moves and
--                   Driver.Action.Ends have a rule for each way to build a step.
--   Driver.Normalize  the functions `normalize…Status`.
--   Driver.Clock    `deadlineExpired` to `sleepWithinDeadline`, and the calls of the callbacks.
--   Driver.Bus      `synchronizeChipSelect`, `openSession`, `transferInSession`, `closeSession`
--                   and `transact`: one SPI frame. Driver.Bus.Rules lifts a relation from the
--                   primitive changes to a frame, as Driver.Bus.Quiet and
--                   Driver.Probe.Untracked use it; Driver.Bus.Level and Driver.Bus.ChipSelect
--                   follow the chip-select pin, Driver.Bus.Locks the bus lock.
--   Driver.Access   `readRegistersInternal` to `verifyDesiredImage`.
--   Driver.Apply    `applyConfigurationInternal`, `writeRuntimeConfig`, `clearFaultsInternal`.
--   Driver.Requests the guards of the public operations, `applyConfiguration` and the setters.
--   Driver.Probe    `probe`.
--   Driver.Faults   `decodeFaultStatus`, `recordFaultObservation`, `readFaultStatusInternal`.
--   Driver.Health   `finishOperation`, `derivedDriverState` and what belongs to them; `health` in
--                   Driver.Health.Snapshot.
--   Driver.Readiness  `updateTimedReadiness` and `tick`.
--   Driver.Conversions  `dataReadyInternal` and `waitForReadyInternal`.
--   Driver.Stop     `stopInternal` and the two functions that restore idle after a failure.
--   Driver.FaultCycle  `waitForFaultCycle` and `resolveFaultCycleInternal`.
--   Driver.Start    `flushRtdReadyState`, the two starts, `stop` and `dataReady`.
--   Driver.Detection  the two fault-detection cycles, the fault status and the raw thresholds.
--   Driver.Binding, Driver.Lifecycle  `validateTransport`, `begin`, `end` and `recover`.
--   Driver.Samples, Driver.Sampling  `readSampleInternal`, and `poll`, `readSample`,
--                   `readSingle` and `readOneShot`.
--   Driver.Raw      the raw register operations; `prepareRegisterWriteCandidate` in
--                   Driver.Raw.Candidate.
--   Driver.Consistency  the agreement of the lifecycle state with what the driver knows, kept by
--                   each public operation; Driver.Consistency.Reachable has the sequences of
--                   calls of the public operations.
--   Driver.Calls    how each public operation keeps a relation between worlds that frames keep;
--                   Driver.Calls.Locks applies it to the bus lock, Driver.Calls.ChipSelect to
--                   chip select.
--   Driver.Deadline a clock that keeps its promise, for the loops that sleep, which comes round
--                   every 2^32 milliseconds. The children named
--                   Rules of a part lift a relation from its primitive changes to the part.
--   Temperature     the RTD settings and the curve: Temperature.Curve has `resistanceAtTemperature`
--                   to `curveIsStrictlyIncreasing`, Temperature.Settings `validateRtdConfig` and
--                   `setRtdConfig`, Temperature.Scale `codeToRatio` to `temperatureToCode`, and
--                   Temperature.Thresholds and Temperature.Requests `readConfiguration` and the
--                   thresholds as resistances and temperatures. Temperature.Inversion and
--                   Temperature.Delays have theorems, Temperature.Agreement and
--                   Temperature.Calls the rules for Driver.Consistency and Driver.Calls.
--   Arduino         src/platform/arduino/MAX31865ArduinoBackend.cpp: the wiring, the binding and
--                   the callbacks of the Arduino backend, and the transport that it gives the
--                   driver; Arduino.Contract has the contract of a transport.
--   Examples        runs of the theorems on concrete values.
--
-- The transport is a parameter, a record of functions over a world of any type: a callback reads
-- and changes the world, and reports `none` for `Ok` or the failure that it gives. What a theorem
-- asks of it is written as a hypothesis (`ChipSelectLaws`, `LockLaws`,
-- `GuardLaws`). A buffer is a list of bytes, a null
-- pointer is `none`, and an output parameter is part of the result. A `uint32_t` is a natural
-- number whose wrap-around is written out where the code can reach it (`add32`, `sub32`).
-- The three polling loops, of the waits for a conversion and for a fault cycle and of a stop, are
-- recursions on fuel; when it runs out they report a timeout. The waits get one round more than
-- their timeout has milliseconds: each round but the last sleeps a millisecond, and a sleep that
-- does not advance the clock is an error, so that a clock of 32 bits that is not turned back
-- (`IsClock`) ends a wait that takes less than its period first. A stop gets three rounds for
-- each millisecond of its timeout and a few more; without a timeout the code itself bounds its
-- rounds. The other recursions are over the length of a span or of a buffer.
--
-- The numbers of type `float` and `double` are of any two types, with the operations that the
-- code uses of them as parameters (`Arith`, `Casts`): nothing is assumed of these but where a
-- theorem names it (`RoundingLaws`). The RTD settings are an argument of the operations that use
-- them; in `begin` their verdict and their time constant are. A sample takes the two conversions
-- that it needs from them (`Scaling`, `scaling_of`).
--
-- Of Arduino, the pin calls, the SPI object, the clock and the application's arbiter are
-- parameters (`Platform`, `Arbiter`), and what they document is a hypothesis (`PinLaws`).
--
-- Not modelled: the diagnostic command line and the examples, which are applications of the
-- driver, and the tests and tools.
pub mod Prelude
pub mod Status
pub mod Commands
pub mod Protocol
pub mod Config
pub mod Driver
pub mod Temperature
pub mod Arduino
pub mod Examples
