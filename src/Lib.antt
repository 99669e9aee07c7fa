-- ===== src/Lib.antt =====
-- Verification of kickd, which runs commands when something happens: on a schedule, on a request, on
-- a change of a file, or after another command. Every firing is first a row of a SQLite database; one
-- loop consumes the rows and starts the commands.
--
-- The parts. internal/queue/store.go is the database of runs, which the agent and the kickd
-- subcommands share. internal/runner/dispatcher.go is the loop of the agent: it applies the
-- concurrency policy of an event to each queued row, hands the command to internal/runner/runner.go,
-- records the result and restarts the event. internal/event/event.go is the payload that they pass on.
--
-- The files. Prelude holds the Boolean tests, lists, maps, integers and decimal texts.
-- Queue is store.go. Its Status and Row are the statuses and the tables; Conn is a connection, with
-- transaction for BeginTx, the deferred Rollback and Commit. The operations stand in
--   Insert (Enqueue, insertRun, Follow), Runs (StartRun, FinishRun, Settle, AddSkipped),
--   Cancel (RequestCancel, RequestCancelEvent, CancelRequests),
--   Recovery (InterruptedRuns, Retry, Abandon, RetryOf), Agents (the heartbeat and the cron state) and
--   Reads (the other queries, and Prune). Calls names every method that writes, so that a history of
-- the database is a list of calls. The proofs stand in Table, Sound, Lifecycle, Effects, Atomic,
-- History, Limits and Answers.
-- Event is event.go. Dispatch is dispatcher.go: Spec (the settings that it reads), State (the fields of
-- Dispatcher), Submit (submit, Dispatch, RunSync), Recover, Follow (follow), Schedule (schedule, skip,
-- settle), Finish (finish, restart) and Loop (Configure, processCancels, step, heartbeat, prune). The
-- proofs stand in Load and Serial (what is in flight), Repaired, Settled, Completes and Attempts
-- (Recover), Restarts and Accepted (submit).
--
-- Cron is internal/trigger/cron.go: load, save, wait, check and fire, with gocron's schedule as the
-- function `next`; Cron/Latest holds its proofs. Wake is internal/trigger/wake.go, over the readings
-- of the clocks; Wake/Total holds its proofs. Files is internal/trigger/file.go: Collect (the loop of
-- Run, flush, the limiter) and Match (translate, rel, match, matchAny, opName), with the proofs in
-- Window. Webhook is internal/trigger/webhook.go: Request (what a request has, requestIDFrom), Auth
-- (checkToken, checkSignature, flatten) and Serve (the handler of Register, Handler); the proofs stand
-- in Guards (who may fire an event), Privacy and Answers. All of them fire through the dispatcher.
-- Runner is internal/runner/runner.go: Results (how execute reports a run), Buffers and Lines
-- (capBuffer, tailBuffer, lineWriter) and Env (buildEnv, with Env of event.go); Bounds, Whole, Newline
-- and Names hold the proofs.
-- Logging is internal/logging/rotate.go, over generations of a file; Rotation holds its proofs. A write
-- that fails is taken to write nothing.
-- Config is internal/config/config.go: Model (the types), Defaults (applyDefaults, resolve), Problem,
-- Check and Triggers (the parts of validate), Cycle (afterCycle), Load (validate, parse,
-- decodeEvents) and Use (Apply and what the other parts ask). Cycle/Chains, Cycle/Visits and
-- Cycle/Acyclic hold the proofs about the search for cycles; Valid those about validate, and Applied
-- those about Apply. Agent is internal/agent/agent.go: specs, fireStartup, countTriggers, and the routes
-- of startTriggers in Routes; Hooks and Served hold the proofs about the routes, and Accepted shows what
-- a loaded configuration gives the dispatcher. Each Scenarios holds concrete inputs.
--
-- What stands for what. A table is the list of its rows in the order of insertion, which is the order
-- of the ids, since the ids are AUTOINCREMENT. A query is a function on that list. `faults` of a
-- connection says which statements to come fail: a statement that fails changes nothing, and a
-- transaction in which one fails is rolled back. A method runs on a connection and gives its result
-- or an error. Each method of the store is one step, since SQLite holds a single writer.
-- A time is the number of milliseconds since 1970, and `none` is NULL and the zero time; a duration
-- is a number of milliseconds. The clock stands still within one method of the store and one pass of
-- the loop. The ids of rows and the counts have no bound: it would take 2^63 runs to reach theirs.
-- The lock of the dispatcher makes each pass one step; a command that ends is a call of finish.
-- encoding/json is the parameter Codec; the random source of NewID is the list new_ids of ids to come.
-- A context that is canceled holds its first cause. The reply to a waiting caller is put in `replies`.
-- A problem that validate reports is a value of Fault with its place; the wording of the message is
-- left out. The words of the configuration are texts there and the constructors of the settings in
-- Dispatch; specs gives nothing for a word that is none of them. A number of the configuration can be
-- negative and is a ℤ. The range of a 64-bit integer, which the YAML decoder checks, is not modelled.
-- The delay of a restart, which the dispatcher doubles, is a 64-bit number of nanoseconds and wraps.
--
-- Loops. The loop of the cron check runs over scheduled times that grow, so the time it is given as
-- fuel is enough. The search for a cycle of after triggers recurs once for each event on its path; it is
-- given more fuel than there are events, which is shown to be enough. Every other loop is a structural
-- recursion but the endless one of follow, which reads a batch of ended runs until one is not full:
-- `fuel` is the number of batches. It depends on the runs that follow adds, so no bound is stated for
-- it, and no theorem rests on it.
--
-- Parameters. encoding/json is Codec; HMAC-SHA256 is `sign`, in webhooks; the route of a path, which
-- http.ServeMux finds, is `mux`, and whether it takes one more pattern is `takes`: HandleFunc panics on
-- one that it does not take, which ends the agent; the result that arrives for a waiting caller, or
-- none where it disconnects before, is `arrives`; the YAML decoder is Yaml; what the operating system
-- and path/filepath tell is System, Paths and Os; time and json texts are Formats; whether gocron reads
-- a schedule is `parses`. Of texts, letters, digits and white space are those of ASCII.
--
-- Not modelled: opening and migrating the database, file permissions; the lines of the log and
-- the masking of secrets in them; how the runner starts and stops a process; the search of the
-- configuration's files and the example files; the goroutines of the agent, its reload and its stop; the sockets of the HTTP
-- server; the walk of directories and the messages of fsnotify; the command line. They are I/O, or are
-- left for the parts above to stand on. SQLite, gocron, fsnotify, YAML and the service library are not
-- part of the repository.
pub mod Prelude
pub mod Queue
pub mod Event
pub mod Dispatch
pub mod Cron
pub mod Runner
pub mod Wake
pub mod Webhook
pub mod Config
pub mod Agent
pub mod Files
pub mod Logging
