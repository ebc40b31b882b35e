-- ===== src/PubSub.antt =====
-- The publish and subscribe parts of veddb-core/src/pubsub/mod.rs.
pub mod Subscriber
pub mod System
mod Tests
