-- ===== src/Container.antt =====
-- backend/framework/container.go: the service container and its resolution.
pub mod Service
pub mod Resolution
pub mod Termination
pub mod Singletons
pub mod Isolation
pub mod Registration
pub mod Examples
