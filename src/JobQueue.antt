-- ===== src/JobQueue.antt =====
-- backend/framework/jobs.go and backend/framework/jobs_delayed.go: the job queue without a store.
pub mod Queue
pub mod Dispatching
pub mod Steps
pub mod Executing
pub mod Retrying
pub mod Places
pub mod Promotions
pub mod Handlers
pub mod Registered
pub mod Persistent
pub mod Workers
pub mod StoreLaws
pub mod Executed
pub mod Uses
pub mod Attempts
pub mod Within
pub mod FileCalls
pub mod OverFile
pub mod Fates
pub mod Verdicts
pub mod Settling
pub mod Accounting
pub mod Stopping
pub mod Advancing
pub mod Finishing
pub mod StoreExamples
pub mod Examples
