-- ===== src/Lib.antt =====
-- cdtalive: the Go service that keeps an Alibaba Cloud instance up within a traffic and a balance
-- limit and within start schedules, and down otherwise.
--
-- The program's parts, and the files that model them:
--
-- * internal/config/config.go, in Config. Config/Clock has `normalizeClock`,
--   `normalizeScheduleClock` and `scheduleClockMinutes`; Config/Windows the two validations of
--   windows; Config/Weekdays `ValidateStopWeekdays`; Config/Schedules `ValidateStartSchedules`;
--   Config/Intervals `mergeIntervals`, `complementWindows` and `formatScheduleWindow`;
--   Config/Migrate `migrateStopSchedules`; Config/Settings the record `Config` with its defaults,
--   `Validate` and `ValidatePowerMode`; Config/Environment the variables that `Load` reads;
--   Config/Disk the file; Config/Load `Load`; Config/Save `Init` and `SaveSettings`. The errors
--   are in Config/Errors, one constructor for each message.
-- * internal/store/store.go, in Store. Store/Tables has the tables of `initializeSchema`,
--   Store/Db the database (a table state, and which of the calls to come fail), Store/Statements
--   one definition for each method.
-- * internal/app/service.go, in App. App/Schedule has `withinStartSchedule`; App/Policy the
--   `switch` of `RunOnce`; App/Instances `start` and `stop`; App/Recording `recordInstanceState`;
--   App/Service `RunOnce`, `RefreshECSStatus` and the small methods; App/Boundary
--   `NextStartScheduleBoundary` and `NextStartScheduleTime`; App/Dashboard `Dashboard`, and
--   App/Views what it shows, with `spentSince` and `abs64`; App/Settings `Settings` and
--   `UpdateSettings`; App/Values the result maps. App/World has the state of the service, the
--   interface `cloud`, and what the program calls outside itself.
-- * internal/app/scheduler.go, in App/Scheduler: `turn` is one turn of the loop of `Run`, from
--   its head to the `select` at its end, as a function on the loop's variables (`Loop`) and the
--   world, and `after_wait` is what the event that ends the wait does to the variables.
--   App/Signals has the two channels, with `Notify` and `RunImmediately`.
-- * internal/aliyun/client.go, in Aliyun: the requests to the SDK, what is made of its answers,
--   and `client_cloud`, the client as an instance of the interface `cloud`.
-- * internal/web/server.go, in Web: one definition for each handler, and `handle` for the router.
--   A handler that returns early ends with its response as an error.
-- * cmd/cdtalive/main.go, in Main: `prune`, `envOr`, the start of `main`, and the whole program
--   as a relation `Step` between the states of a `System`, which is the service, the signals, the
--   loop's variables and whether the loop waits. `Reaches` is a sequence of steps.
-- * The time of the Go library, as far as the program uses it, in Time.
--
-- How they interact: a run loads the configuration from the disk, reads the balance and the
-- traffic from the cloud and stores each at once, picks a case of the policy, asks the cloud for
-- starts or stops, looks at the instance and records its state, and at last stores and shows the
-- result. An action is a function from a state to a result and a state (Prelude/Actions), so that
-- what was written before an error stays written; the action of the whole service works on a
-- `World`, into which the actions of the disk, of the database and of the cloud are lifted.
-- `runMu` lets one run go on at a time, and a run is one action here. A step of the system is one
-- whole request, one whole turn of the loop, one end of its wait, one pruning, or a change of the
-- cloud and the clock by themselves; steps follow on each other in any order, and the steps of
-- two goroutines do not overlap. A saved setting sends a signal to the loop, and a first
-- configuration another one; each of the two channels holds one signal, and the waits of the loop
-- take them out.
--
-- How the state corresponds: `World.last` and `World.next_run_at` are the fields of `Service`;
-- the maps that it clones are values. `World.requests` is a record of the power requests that no
-- code reads. Result maps are lists of entries with one entry for each key.
--
-- Parameters: the YAML and JSON libraries, the cloud and its clock, `time.Parse` and the
-- environment are the fields of `Platform`. The SDK of Alibaba Cloud and the JSON of its answers
-- are the records `Sdk` and `Decoder` of Aliyun; a theorem takes as a hypothesis that no page has
-- more items than were asked for (`IsPaged`). Another one takes as hypotheses that the YAML
-- library reads what it wrote and that no variable of the environment is set. What gin binds from
-- the body of a request, and the embedded pages, are arguments. Floats are an abstract type with
-- the operations that the program uses (Prelude/Floats), with no law either. The cloud works on a
-- state of which nothing is known, so that each call may answer anything.
--
-- Bounds: the functions end by structural recursion, and no fuel is used. Integers are unbounded,
-- but for the product of the interval and a second in the scheduler, which wraps around in 64 bits
-- (`ahead` of App/Scheduler); the minutes, the days and the counts of the code are far from the
-- bounds of `int`. Texts are lists of code points, and clocks read the same as bytes. A call of
-- `os.WriteFile` that fails leaves the file as it was or with the beginning of the text, cut behind
-- any number of code points (`Fault` of Config/Disk); a failed transaction leaves the tables as they
-- were before it. The zone has a fixed offset, as the program's default, Asia/Shanghai, has had since
-- 1991. `sort.Slice` is modelled by a stable sort: where the code sorts, intervals with the same
-- start merge in any order to the same result, and no two groups have the same first day.
-- Nothing but the program is taken to write the configuration file and the database.
--
-- Not modelled: the listening, the flags and the shutdown of cmd/cdtalive/main.go, the timer of
-- internal/app/scheduler.go (a wait may end by its timer at any time, which no theorem about
-- what can happen relies on), the middleware and the encoding of the responses of
-- internal/web/server.go, log messages, the paths of the two files, the opening of the database
-- and the older Python version under app/. They are input, output and the work of libraries.
-- Requests that overlap in time are not modelled either.
--
-- Laws stand beside what they are about: the Laws modules under Config, Config/Save/Init,
-- Config/Save/Write, Config/Save/Reload, Store/Transactions, Store/Commit and Store/Retention,
-- App/Schedule/Laws, App/Schedule/Meaning and App/Schedule/Migrated, App/Policy/Laws and
-- App/Policy/Rules, App/Recording/Laws and App/Recording/Events, App/Service/Steps,
-- App/Service/Requests and App/Service/Results, App/Boundary/Soonest, App/Boundary/Laws,
-- App/Dashboard/Baseline, App/Dashboard/Spending, App/Dashboard/Reads and App/Dashboard/Shows,
-- App/Scheduler/Laws, App/Scheduler/Requests and App/Scheduler/Force, Aliyun/Laws and
-- Aliyun/Limits, Web/Given, Web/Saving and Web/Init, and, for the whole program, Main/Requests,
-- Main/Pending, Main/Shown, Main/Configured and Main/Maintenance. What invariants need to pass
-- through the operations is in Config/Presence, App/Frames, App/Service/Frames,
-- App/Scheduler/Frames and Web/Frames, and triples in Prelude/Hoare carry the proofs about
-- actions. Tests runs the theorems on a platform in memory.
pub mod Prelude
pub mod Time
pub mod Config
pub mod Store
pub mod App
pub mod Aliyun
pub mod Web
pub mod Main
pub mod Tests
