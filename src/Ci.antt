-- ===== src/Ci.antt =====
-- The crate `ci` (`npt-ci`): the wire format of the probe, the probe client with its stall
-- watchdog, the echo server, the rules that pass or fail a port, and the summary of a run.
pub mod Protocol
pub mod Server
pub mod Client
pub mod Detect
pub mod Report
pub mod Config
pub mod Panel
pub mod Archive
pub mod Suite
