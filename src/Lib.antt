-- ===== src/Lib.antt =====
-- The core of the WQM-1 water-quality monitor: four relays, the two engines that switch them, the
-- smart breaker that shares one of them as an interlock, the LoRaWAN link and the queued commands over
-- which it is set up, the RS485 bus of its probes and the monitor of their health, the buffer of readings
-- and its upload, the supervisor of its threads, and the agent that updates it.
--
-- Parts and files:
-- - Relay, for src/control/relay.py (RelayController). `Relays` is its state: the bitmask, the
--   timers by channel and the GPIO lines, whose every write takes its success from a function of its
--   number. `set`, `arm_auto_off`, `auto_off` (the timer's thread), `all_off` and `cleanup` are its
--   methods. Relay/Steps makes them the steps of a world in which time passes and threads may come
--   late; Relay/Bits, Methods and Others are about single calls.
-- - Hold, for src/control/irrigation_hold.py (IrrigationHold). It drives its channel through `set`
--   of Relay. Hold/Config is the settings snapshot, Hold/Scan the loop over the conditions;
--   Hold/Invariant, Safety, Owned, Standing and Timing are about `evaluate` and
--   `configure`.
-- - Rules, for src/control/rules.py (RulesEngine). Rules/Rule is a rule and its threshold,
--   Rules/Evaluate the pass over the rules and the downlink command. The channels that the hold
--   reserves are an argument, as the installed provider answers them.
-- - Breaker, for src/integrations/smart_breaker/controller.py (SmartBreakerController), with
--   FailSafeMode and CircuitStatus of base.py. A call of the vendor's service is the answer it gives.
-- - Lora, for src/radio/lorawan.py (LoRaWANMAC). Lora/Region is the channel plan, Lora/Commands the
--   MAC commands, Lora/Frames the frame cryptography, Lora/Link uplinks and downlinks, Lora/Join the
--   join (`join`, `_process_join_accept`), Lora/Params what is saved of the MAC and restored;
--   Lora/Held, Nonces, Ranges and Life are about sequences of them. CMAC, AES and what the radio does are
--   arguments.
-- - Modbus, for src/sensors/modbus.py: the frames and the CRC; Modbus/Bus is ModbusBus, over what the
--   line brings attempt by attempt. Modbus/Crc and Errors are about the CRC, Trip and Reads about
--   transactions.
-- - Supervisor, for src/app/supervisor.py, the store of src/app/state.py and `run_forever` of
--   src/app/workers.py. A turn of a worker and a tick of the supervisor are events. Supervisor/Queue is
--   the event queue, Supervisor/Liveness, Hung and Cadence are about beats and pets.
-- - Commands, for src/cloud/device_commands.py: Commands/Setup is the pH calibration and the RS485
--   set-up, Commands/Dispatch the call `apply` with the outcomes that it keeps; Commands/Kept, New, Spent
--   and Once are about what is delivered again, Commands/Bounds about the calls of the hardware.
-- - Node, for the composition of Relay, Rules and Hold over one controller, as the sampling and the radio
--   worker of src/app/workers.py and `_handle_cmd` of src/main.py make it. A request for a relay is two
--   steps, its check and its act, and so is a pass over the rules, since no lock covers them; the threads
--   come between each other's steps. Node/Fine, Ownership, Steps and Threads are about the channel that the
--   hold owns.
-- - Sensing, for src/sensing. Sensing/Monitor is SensorMonitor, whose suspended sensors the rules engine
--   and the hold are given, Sensing/Drift its DriftTracker, Sensing/Adaptive the AdaptiveSampler, which
--   sets the pace of the sampling worker; Sensing/Statistics holds medians doubled, so that what the
--   source rounds to floating point is exact. Sensing/Suspended, Alternate, Cause and Pace are about sequences
--   of readings and calls.
-- - Storage, for the readings of src/storage/database.py: rows in the order of their ids, a statement of
--   SQL being a function on them. Storage/Sound, Pending and Bound are about the operations, Ids and
--   Rotate about the rows that a statement chooses.
-- - Cloud, for src/cloud/client.py and the CommandWorker of src/app/workers.py. Cloud/Sync is the upload
--   of the buffer, with what the other threads do to it meanwhile as events, Cloud/Request a request with
--   its retries, Cloud/Results the results that were not delivered; Cloud/Kept is about readings that
--   wait.
-- - Ota, for src/ota/agent.py. What the agent does to the disk is a list of effects in their order, each
--   of which is done, fails or is not reached because the agent dies: Ota/Apply has those of `_apply`,
--   `_rollback`, `_prune_releases` and `recover_incomplete_apply`, Ota/Cycle is `check_and_apply`,
--   Ota/Verify and Download what comes before an installation, Ota/Reboot the reboot requests. An
--   effect that fails changes nothing. A run that has raised or died has no phase to return. Ota/Recovery,
--   Rollback, Switch, Safety and Return are about runs that are cut short, Linked and Genuine about what is
--   installed, SelfTest and Prune about the loop of the self-test and the pruning.
-- - Config, for src/utils/config.py. Config/Schema is SETTINGS_SCHEMA, Config/Defaults the defaults of
--   Settings; a file is the mapping that YAML makes of it. Config/Valid is about values, Config/Local
--   about the settings that ConfigManager builds, Config/Whole about a configuration from the cloud.
-- - Cayenne, for src/radio/cayenne.py. Cayenne/Fields is its numbers of two and three bytes,
--   Cayenne/Trip decoding after encoding.
-- - Prelude: lists, dicts, integers and texts, and the conditional.
--
-- How the code is read: a method takes the state and returns it, with what it returns or raises; a
-- lock makes a method one step. Clocks are arguments in ticks of a millisecond and stand still
-- during a call, except where a method reads its clock more than once and the order counts. Readings and thresholds are decimals of four places, and a band of the water profile
-- has twelve, so that its width is exact where the source rounds to floating point; the numbers of the Cayenne codec are
-- millionths, and NaN is a value of its own in the settings. Texts that only
-- serve the log, events' messages and metrics are left out. Only the self-test of
-- the agent runs on fuel, a turn for every 10 s of its timeout and two more, which is enough where the
-- clock goes on by the 10 s that a turn waits; every other loop is over a list or counts down, as the
-- retries of a transaction do. Frame counters are unbounded, as in Python; a statement that needs
-- 32 bits says so.
--
-- No lock of the program covers the check of a request for a relay and its act: Node/Tests has a history
-- in which new settings come between the two, and the request switches off the coil that the hold has just
-- taken.
--
-- Not modelled: the check of the water profile in `set_baselines`, the reporting methods, the floats
-- of the Modbus registers, the check of the members of an update's archive (an argument), the migrations of
-- the database and its tables of sessions and meta values, the texts of the payloads, the registration
-- (src/cloud/register.py), and the program's other parts: the workers' own steps (src/app), sensor
-- drivers, the SX1262 driver, the service window, diagnostics and the other integrations, which are input
-- and output, or glue between the parts above.
pub mod Prelude
pub mod Relay
pub mod Hold
pub mod Rules
pub mod Breaker
pub mod Lora
pub mod Modbus
pub mod Supervisor
pub mod Commands
pub mod Node
pub mod Ota
pub mod Storage
pub mod Cloud
pub mod Sensing
pub mod Config
pub mod Cayenne
