-- ===== src/App.antt =====
-- app/: the wiring of the components.
pub mod Options
pub mod CommandLine
pub mod Main
pub mod Callback
pub mod Lifecycle
pub mod SignalWaiter
pub mod Health
