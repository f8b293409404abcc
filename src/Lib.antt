-- ===== src/Lib.antt =====
-- A model of the workflow engine: a server that keeps tenants' workflows, runs their code in sandboxed
-- workers and archives what they did, with the theorems about it. Paths are from the repository's root.
--
-- The program's parts and how they meet. A sandbox (packages/sandbox) is a worker thread that runs one
-- workflow's bundle; its plugins (packages/sandbox-stdlib) give the guest timers, fetch, queues and
-- the like. The worker posts wire events over a message channel; the main thread numbers and frames
-- them (run-sequencer.ts), and a state machine over the worker's errors and its exit finds the cause
-- of a termination (worker-termination.ts), also where a limit counter of the worker threw
-- (limit-counters.ts). The server (packages/runtime) keeps a bounded cache of sandboxes
-- (sandbox-store.ts), an archive of events (event-store.ts), durable queues in one SQL table (queue-store.ts) that guests reach through host
-- handlers (queue-host.ts) and uploads clean up (queue-store-lifecycle.ts), runs the calls of a sandbox one after
-- the other (executor), and decides which tenants'
-- events a user may read (auth/scopes.ts).
--
-- Files. A component is a file with its definitions; its children are named for what they prove, and
-- `Tests` holds concrete runs.
--   Prelude: names of the libraries, Boolean tests, lists, the insertion-ordered `Map`, counting.
--   Core: the event records of packages/core/src/index.ts.
--   Sandbox.Sequencer: packages/sandbox/src/run-sequencer.ts. The closure's variables are the record
--     `Sequencer`; `start`, `next` (with `frame` and `handle_close`) and `finish` return the new state,
--     the events and the logged warnings.
--   Sandbox.Limits: packages/sandbox/src/limit-counters.ts. The error thrown in a microtask is a value.
--   Sandbox.Channel: packages/sandbox/src/worker.ts, the function `post`, over the two before and the
--     hooks of Sandbox.PluginRuntime.
--   Sandbox.Termination: packages/sandbox/src/worker-termination.ts. Each signal (error, exit, watchdog,
--     each method) is a case of `step`; the calls of the callback and of `terminate` are effects.
--   Sandbox.PluginCompose: packages/sandbox/src/plugin-compose.ts, `serializePluginDescriptors` and
--     `assertGuestFunctionNamesUnique`; the error that is thrown is the result.
--   Sandbox.PluginRuntime: packages/sandbox/src/plugin-runtime.ts. A plugin's worker function and hooks are
--     fields of a record, and each returns a value or throws.
--   Stdlib.Timers: packages/sandbox-stdlib/src/timers/index.ts. Node's calls, the events and the
--     disposals are effects.
--   Stdlib.Handles: packages/sandbox-stdlib/src/internal/run-scoped-handles.ts.
--   Stdlib.HardenedFetch: packages/sandbox-stdlib/src/fetch/hardened-fetch.ts. `hardened_fetch` returns
--     the requests made and what the promise gives.
--   Stdlib.NetGuard: packages/sandbox-stdlib/src/net-guard/index.ts; the parser of addresses and the
--     resolution of names are arguments, and an address is told by its octets (`PrefixMatch`).
--   Runtime.SandboxStore: packages/runtime/src/sandbox-store.ts. `get` is `get_sandbox`; the callbacks
--     of a build's promise (`resolved`, `rejected`) and of a termination are steps of their own, so
--     every interleaving of them is a list of steps.
--   Runtime.QueueStore: packages/runtime/src/queue-store.ts. The table is a list of rows and a
--     statement is a function on it.
--   Runtime.QueueHost: packages/runtime/src/queue-host.ts, both handlers over the queue store.
--   Runtime.QueueLifecycle: packages/runtime/src/queue-store-lifecycle.ts.
--   Runtime.EventStore: packages/runtime/src/event-store.ts. `record` returns the batch that it hands to
--     the database, whose answers to the attempts are an argument; SQL statements are functions on a
--     list of rows.
--   Runtime.Executor: packages/runtime/src/executor/index.ts with run-queue.ts and log-lifecycle.ts, over
--     the event store. What happens to one sandbox is a list of actions: a call arrives, a run begins,
--     the sandbox sends an event, the run settles, an event is recorded, the call is answered.
--   Runtime.HostEvents: packages/runtime/src/executor/exception.ts and upload-event.ts.
--   Runtime.Session: packages/runtime/src/auth/session-mw.ts and session-cookie.ts. A reply says whether the
--     request goes on and which session cookie is written.
--   Runtime.BuildFire and Runtime.HttpTrigger: packages/runtime/src/triggers/build-fire.ts and http.ts, with
--     the reserved headers of packages/core/src/index.ts. The answer of the closure of a trigger also
--     says what went to the executor and to the log.
--   Runtime.Secrets: packages/runtime/src/secrets, key-store.ts, verify-manifest.ts and
--     decrypt-workflow.ts; the errors that are thrown are values.
--   Runtime.QueryScopes: packages/runtime/src/auth/scopes.ts and owner.ts, with `owners` and `pairs` of
--     packages/runtime/src/workflow-registry.ts.
--
-- Parameters. Clock readings, the row numbers that the database gives, the ids of Node's timers, which
-- sandboxes are in a run, and a queue's validators are arguments. `JSON` is the interface `Json`, which
-- has no law; a round trip assumes that the value at hand is read back as it was printed. The regular
-- expressions of names are two tests. The cryptography is the record `Crypto`, with the law that
-- sealing is undone (`Sealing`) where a theorem needs it; the sealing of cookies is a field of `Auth`,
-- with the law that the expiry is kept (`Unsealing`). The URL parser and the answers of servers are the
-- record `Web`; the text operations and the values of a webhook are the record `Platform`. What the
-- database says to the attempts of a batch is an argument. Numbers are natural numbers: the counters of
-- the source stay far below the limit of exact integers. Every loop of the model runs over
-- a list, but for the hops of a fetch, which count down from six as the source counts up to five, and
-- the causes of an error, which the source follows to a depth of eight.
--
-- Not modelled. Awaited statements between which other calls could run are made in one step where a
-- file's comment says so: the depth check and the insertion of `put`, and the deletions of
-- `Promise.all`. The polling loop before the disposal of the sandbox store, what a sandbox is built
-- from, the configuration values of plugins and their topological sort, the message channel but for
-- `post`, the QuickJS bridge, the other triggers, the login routes, the parsing of keys, the SDK and the user
-- interface are left out.
pub mod Core
pub mod Prelude
pub mod Runtime
pub mod Sandbox
pub mod Stdlib
