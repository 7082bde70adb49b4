-- ===== src/Lib.antt =====
-- valve-controller drives irrigation valves that hang on Zigbee bridges (Tasmota, over MQTT)
-- and are declared as Kubernetes resources. A REST call or a reconciler hands a command to the
-- scheduler; the pipeline of the valve sends it over the bridge, waits until the device reports
-- the state asked for, retries, and writes the outcome back. The controller is a safety device:
-- what is opened for a time has to be closed again, and a valve whose close was not confirmed
-- must not be reported as closed.
--
-- The files and the code they are about:
--   Device.antt: `ValveState`, `ValveConfig`, `ValveInfo`, `Key`, `CommandTarget` of
--     internal/device/valve.go.
--   Mqtt/Event.antt: the parsed messages of internal/mqtt/tasmota.go.
--   Mqtt/Address.antt: `hexAddr`, `dispatchKey` of internal/mqtt/dispatcher.go.
--   Mqtt/Tasmota.antt: the parsers of internal/mqtt/tasmota.go, with encoding/json as a
--     parameter.
--   Mqtt/Bridge.antt, Mqtt/Bridge/Calls.antt, Mqtt/Bridge/Options.antt:
--     internal/mqtt/bridge.go. Mqtt/Manager.antt and below: internal/mqtt/manager.go.
--   Mqtt/Dispatcher.antt: `Dispatcher`, `Subscribe` with the function it returns, `Dispatch`.
--     A handler is a value of any type; `dispatch` gives the subscriptions whose handlers are
--     called, in order.
--   Scheduler/Action.antt: internal/scheduler/action.go.
--   Scheduler/World.antt, Scheduler/Shared.antt: the fields of `pipeline` in
--     internal/scheduler/pipeline.go and what its methods do with them under the lock and on
--     the channel (`Enqueue`, `UpdateConfig`, `addToHistory`, `applyDeviceState`).
--   Scheduler/Wait.antt: `waitForPower`, the sleeps and the publish.
--   Scheduler/Execute/Attempt.antt: `attemptWithRetry`. Scheduler/Execute.antt: `execute` and
--     the two cases of `run`. Scheduler/Ping.antt: `keepClosedPing` and the interval of
--     `keepClosedLoop`.
--   Scheduler/Valves.antt: internal/scheduler/scheduler.go, and in
--     Scheduler/Valves/Register.antt, Scheduler/Valves/Lookup.antt and
--     Scheduler/Valves/Requests.antt what holds of it.
--   Scheduler/Valves/Refinement.antt: the register as a plain map, and the calls of it as one
--     data type.
--   K8s.antt, K8s/Conditions.antt: the resource of api/v1alpha1/mqttvalve_types.go, the API
--     server as the record `Api`, and `setCondition`.
--   K8s/Copies.antt and below: the deep copies, api/v1alpha1/deepcopy_helpers.go and
--     api/v1alpha1/zz_generated.deepcopy.go.
--   K8s/Valves.antt and below: internal/k8s/mqttvalve_reconciler.go. K8s/Bridges.antt and
--     below: internal/k8s/mqttbridge_reconciler.go.
--   Rest.antt, Rest/Views.antt, Rest/Handlers.antt, Rest/Pagination.antt and below:
--     internal/api; Rest/Handlers/Completion.antt follows an accepted command down to the
--     main loop of its pipeline, Rest/Handlers/Managed.antt a valve from its reconciler to
--     the commands for it, and Rest/Handlers/Reported.antt a close from the request to the
--     report of the device and what the API says then. A handler maps the server (the
--     scheduler and the MQTT manager) and a request to a response and a server.
--   Metrics.antt, Metrics/Labels.antt: internal/metrics/metrics.go, without the calls of its
--     collectors.
--   Database.antt, Database/Rows.antt: internal/db/db.go, which no other part calls.
--   Program.antt, Program/Tls.antt, Program/Serving.antt: cmd/controller/main.go, and
--     `TLSConfig` of internal/api/middleware.go. A run is the list of the calls that `main`
--     makes.
--   Scheduler/Keeps.antt and below: one induction over the attempt loop and over `execute`
--     for all invariants. Scheduler/Ending.antt and below: the state of an action at the end
--     of `execute`.
--   Scheduler/Draining.antt and below: the select of `run` and the rounds of the main loop,
--     of a pipeline that may be stopped and (Steady, Final) of one that is not.
--     Scheduler/Safety.antt, Scheduler/Confirmation.antt,
--     Scheduler/Confirmation/Telemetry.antt and Scheduler/Confirmation/Reported.antt (from a
--     message of a bridge to the end of an attempt, and of an action), Scheduler/Slot.antt,
--     Scheduler/Queue.antt, Scheduler/Cancellation.antt, Scheduler/Retries.antt: what
--     `execute` ensures. Scheduler/Reachable.antt: the states that the main loop of `run`
--     reaches. Scheduler/Commands.antt and below: the commands that an action sends.
--   Common.antt and below: numbers, lists, text and maps. Tests.antt and below: runs at fixed
--     inputs, and each theorem at an input that meets its hypotheses.
--
-- State and operations. The state of one pipeline and of what surrounds it is the record
-- `World`, passed on explicitly. An `*Action` is an address in its field `heap`, because the
-- queue, `current`, the history and the caller of the API share one object. In the model of the
-- deep copy, the times and the conditions of a status are addresses in a memory; elsewhere a
-- status is a value. The operations of `execute` are written in a state monad (`M`, `>>=`),
-- composed as the source composes them.
--
-- Concurrency. The action loop is one goroutine; the others, the devices and the clock act at
-- scheduling points: wherever `execute` blocks, calls out or gives up the lock. Each point
-- takes one list of `Op` from the field `script`; a theorem that quantifies over the world
-- thereby quantifies over every such interleaving. An operation under the lock is one step. If
-- what is awaited is not in the list, the clock goes on to the deadline. The publish of
-- SendZbSend is one point: its script says whether the token is done without an error, and
-- without such an entry it is an error; a token that is never done is not modelled.
-- `waitForPower` leaves its unsubscription to a goroutine, after a success (`go unsub()`) as
-- well as after `waitCancel` and after the end of its context; here it is done at once, so the
-- moments in between, in which a subscription that is over still stands in the dispatcher, are
-- not in the model. Nothing but the register of the dispatcher differs in these moments, since
-- the handler of such a subscription finds `done` closed, or sends into a channel that nobody
-- reads any more; no result says what the register holds after a wait. What the handler and the
-- watcher of a wait do (the test of `done`, the send, `close(done)`) is one step each, so that
-- both closing `done` is not in the model either. The select of `run` is `select_next`: where
-- the context is done and actions wait, an argument says which case it takes. The steps of
-- `Reaches` stay at the select, and so leave out the return. The two halves of a confirmed
-- safety ping, the test and the write, are separate operations, as they are separate critical
-- sections. In the model of the whole ping, what the action loop does meanwhile is any function
-- on the world, applied at the two places where the ping could notice.
--
-- Bounds. Go's `int` counters, the ids of subscriptions and the addresses are unbounded numbers
-- here; a duration is a signed number of nanoseconds, an instant a number of nanoseconds. The
-- attempt loop and the send loop recurse on the rounds that are left, so no fuel is needed; the
-- rounds of the main loop are counted by the actions that wait, and the loop may return before.
-- The loop over the rows of a result set has as many rounds as it is given, and needs one more
-- than there are rows. A string is the list of its bytes.
--
-- Parameters of the model: the bytes of crypto/rand (`entropy`), whether the client of a bridge
-- exists (`bridges`) and accepts a message (`published`), and what the devices report
-- (`sensor`); what encoding/json makes of a message (`Json`); whether a connection succeeds;
-- the API server (`Api`, which is read directly though the source reads through the cache of
-- its client: what it answers to `Get` and `List`, what a status write does, and
-- `RetryOnConflict`), of which the record `Laws` states what the source relies on;
-- `time.ParseDuration`; the files, the host and controller-runtime as `main` finds them
-- (`Outside`); the pgx driver and the database behind it (`Pgx`); the copies that apimachinery
-- makes of times, conditions and metadata.
--
-- Not modelled: log lines, the text of an error, errors of a status write where the pipeline
-- makes it (the source only logs them), the calls of the Paho client, the HTTP server and the
-- encoding of a body, the help texts and buckets of the metrics, and the set-up of the log and
-- of the schemes in cmd/controller/main.go.
pub mod Common
pub mod Database
pub mod Device
pub mod K8s
pub mod Metrics
pub mod Program
pub mod Mqtt
pub mod Rest
pub mod Scheduler
mod Tests
