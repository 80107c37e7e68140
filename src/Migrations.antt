-- ===== src/Migrations.antt =====
-- backend/framework/migrations.go: registered migrations, and the runner that applies and reverts
-- them; backend/framework/migration_store.go: their history in a table.
pub mod Migration
pub mod Engine
pub mod Results
pub mod Runner
pub mod History
pub mod Registry
pub mod Pending
pub mod Loading
pub mod Applying
pub mod Accepting
pub mod Reverting
pub mod Batches
pub mod Restoring
pub mod Bounds
pub mod Ordered
pub mod SqlStore
pub mod Table
pub mod SqlNames
pub mod SqlRead
pub mod Examples
