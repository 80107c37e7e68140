-- ===== src/ResourceBroker.antt =====
-- backend/framework/resource_broker.go: leases of local resources behind opaque capabilities.
pub mod Capability
pub mod Broker
pub mod Calls
pub mod Keeping
pub mod Soundness
pub mod Accounting
pub mod Balance
pub mod Issued
pub mod Examples
