-- ===== src/Core.antt =====
-- internal/core: the service. Its state is the store, the sessions of the connected devices, the
-- run-time state of the rules and the counters; an operation is a function of that state which
-- returns a result and the new state, also when it fails. The mutex and the atomic counters make
-- the critical sections steps of their own; operations are modelled one after the other.
pub mod Values
pub mod Normalize
pub mod State
pub mod Sessions
pub mod Shadows
pub mod Commands
pub mod Rules
pub mod Telemetry
pub mod Alerts
pub mod Members
pub mod Ota
pub mod Soundness
pub mod Provision
pub mod Runs
pub mod Views
pub mod Catalog
