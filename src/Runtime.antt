-- ===== src/Runtime.antt =====
-- packages/runtime/src: the stores, queues and dispatch of the server process.
pub mod SandboxStore
pub mod QueueStore
pub mod QueueHost
pub mod QueueLifecycle
pub mod QueryScopes
pub mod EventStore
pub mod Executor
pub mod HostEvents
pub mod Secrets
pub mod Session
pub mod BuildFire
pub mod HttpTrigger
