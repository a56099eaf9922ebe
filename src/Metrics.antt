-- ===== src/Metrics.antt =====
-- The logger of log/metrics/log.go: metrics that are taken from log messages.
pub mod Window
pub mod Path
pub mod Collect
pub mod Examples
