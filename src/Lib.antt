-- ===== src/Lib.antt =====
-- A verification library of clusterrebootd, the daemon that coordinates reboots of cluster nodes.
--
-- The program runs passes (`RunOnce` of pkg/orchestrator/runner.go). A pass asks the kill switch, the
-- windows (pkg/windows), the detectors, the health of the cluster, the health script and the cooldown,
-- acquires a distributed lock with a backoff between the attempts, asks again under the lock, and
-- returns an outcome, which may hold the lock. A loop (`Run` of pkg/orchestrator/loop.go) makes passes
-- until one is ready, starts the cooldown, and runs the reboot command. The configuration
-- (pkg/config) gives both their parameters.
--
-- Files:
--   Prelude: libraries' names, tests, lists, integers, results. Text: the functions of Go's `strings`
--   and `strconv` that are called, on lists of code points.
--   Windows: Interval (`interval`, `contains`, the end of `parseExpression`), Days (`parseDaySpec`,
--   `dayName`, `expandDayRange`), TimeOfDay (`parseTimeOfDay`), Parse (`parseExpression`,
--   `parseDayAndTime`, `parseEndPart`), Evaluator (`NewEvaluator`, `Evaluate`).
--   Config: Types, Defaults (`applyDefaults`), Validate (`Validate`, `decode` after the decoder),
--   Derived (durations, `BaseEnvironment`).
--   Detector: Probe (detector.go), Engine (engine.go).
--   Orchestrator: Types (the outcome, the runner, the calls and the environment), Flow (the control
--   flow of a pass), Policies (`evaluateClusterPolicies`), Backoff (`nextBackoffDelay`,
--   `nextErrorDelay`), Command (`expandCommand`), Gates (the steps of `RunOnce`), Lock
--   (`acquireLock`, `releaseLease`), RunOnce, NewRunner, Loop (`NewLoop`, `Run`, `ReleaseLock`,
--   `startCooldown`, and `Execute` of executor.go).
--   Observability: Types (event.go, metric.go), Collector (prometheus.go), Reporter
--   (`StructuredReporter` of pkg/orchestrator/reporter.go).
--   Reports: what a runner reports (the second half of runner.go): Checks, Locks, Peers, Cluster,
--   Messages, Outcomes, and Recorder, which puts the calls together.
--   Etcd: Keys (`applyNamespace`, `NewEtcdManager` of pkg/lock), Lock (`Acquire`, `Release`), Cooldown
--   (`Status`, `Start` of pkg/cooldown/etcd.go), Health (pkg/clusterhealth/etcd.go; that `path.Join`
--   puts a slash between elements that need no cleaning is a hypothesis).
--   Daemon: cmd/clusterrebootd/main.go in Setup (`buildEtcdTLSConfig`, and what is opened and closed),
--   Managers (the constructors of `run` and `status`), Commands (their set-up), Run (how `run` ends),
--   Programs (the commands); Script (pkg/health/script.go), Publisher
--   (pkg/orchestrator/health_publisher.go, `PublishHeartbeat`), History (nodes beside each other).
--   Version: pkg/version/version.go.
-- The other files of these folders hold theorems, and Tests the runs at concrete data.
--
-- The state of a pass is the trace of the calls that it has made, the last one first, and the outcome
-- so far. What lies outside (etcd, the script, the detectors, the clock, contexts that end) is a
-- record of functions from the trace to the answer, so an answer may be anything and may depend on
-- all that happened before. Contexts end where a call or a wait returns their error.
--
-- Numbers: durations are integers of nanoseconds; where the source multiplies or shifts them, the
-- 64-bit wrap-around is written out. The counts of nodes and positions in texts are unbounded. Texts
-- are valid UTF-8. A `float64` fraction is given by what the program does with it.
--
-- Bounds and fuel: the loop of `acquireLock` recurs on the attempts that are left. The two loops of
-- windows.go that move forward in the week have fuel, a round for each day or week that they can
-- pass, and the theorems on them show that they end. `Run` has no bound of its own: its first n turns
-- are modelled, for every n. The digits of a printed number have one round more than the number, and
-- Reports/TextLaws shows that none is lost.
--
-- What the record functions report is a value that Reports gives; the passes of Orchestrator do not
-- carry it, since no decision depends on it. Likewise Orchestrator sees the lock, the cooldown and the
-- health of the cluster as answers of its environment, and Etcd models the managers that give them,
-- with the client of etcd as a parameter.
--
-- The set-up of a command is a chain of steps that exit with a code or go on, over the lists of what was
-- opened and of what has its closing deferred. The files, the dialling of etcd and the listening socket
-- are a record of answers (`World`), and what answers the calls of the runner that was made is a
-- function of it. Several nodes are a history of calls, each with the process that made it, and of
-- leases that end. What etcd documents of its mutex, that no two sessions hold it, is a hypothesis on
-- the history, and so is that a lease does not end before the last call of its process.
--
-- Not modelled: YAML and JSON, the client of etcd, the HTTP handler of the metrics, signals, the parsing
-- of flags, and what the commands print; they are calls of libraries, or reading and printing.

pub mod Prelude
pub mod Text
pub mod Windows
pub mod Config
pub mod Orchestrator
pub mod Detector
pub mod Observability
pub mod Reports
pub mod Etcd
pub mod Daemon
pub mod Version
