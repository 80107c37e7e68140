-- ===== src/Cron.antt =====
-- backend/framework/scheduler_cron.go: cron expressions and the search for the next time.
pub mod Moment
pub mod Expression
pub mod Skipping
pub mod Next
pub mod Parsing
pub mod Fields
pub mod Covering
pub mod Listed
pub mod Examples
