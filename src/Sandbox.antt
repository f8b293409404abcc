-- ===== src/Sandbox.antt =====
-- packages/sandbox/src: what runs on either side of the worker's message channel.
pub mod Sequencer
pub mod Limits
pub mod Termination
pub mod PluginCompose
pub mod PluginRuntime
pub mod Channel
