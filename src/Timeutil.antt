-- ===== src/Timeutil.antt =====
-- timeutil/: schedules, and the schedulers and tickers that follow them.
pub mod Clock
pub mod Schedule
pub mod Next
pub mod Spec
pub mod Ticker
pub mod Scheduler
pub mod Examples
