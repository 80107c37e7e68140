-- ===== src/JobStore.antt =====
-- backend/framework/file_job_store.go and job_store.go: the durable job store and its log.
pub mod Job
pub mod Log
pub mod Operations
pub mod Opening
pub mod History
pub mod Selection
pub mod Due
pub mod Updates
pub mod Invariant
pub mod ErrorText
pub mod Events
pub mod Recovery
pub mod Moves
pub mod Life
pub mod Leases
pub mod Reserving
pub mod Failures
pub mod Corruption
pub mod Examples
