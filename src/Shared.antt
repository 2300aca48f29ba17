-- ===== src/Shared.antt =====
-- The crate `shared`: the buffer of log lines, the messages, the configuration and the metrics.
pub mod LogBuffer
pub mod Config
pub mod Protocol
pub mod Metrics
pub mod Report
