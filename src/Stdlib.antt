-- ===== src/Stdlib.antt =====
-- packages/sandbox-stdlib/src: the plugins that give the guest its standard library.
pub mod Timers
pub mod Handles
pub mod HardenedFetch
pub mod NetGuard
