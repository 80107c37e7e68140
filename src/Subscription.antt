-- ===== src/Subscription.antt =====
-- backend/framework/subscription_buffer.go: the in-memory replay buffer of a subscription.
pub mod Buffer
pub mod Cursors
pub mod History
pub mod Replay
pub mod Run
pub mod Waking
pub mod Produce
pub mod Delivery
pub mod Promises
pub mod Draining
pub mod Examples
