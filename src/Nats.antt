-- ===== src/Nats.antt =====
-- internal/domain/nats: how queries and events travel over NATS.
pub mod Messages
pub mod QueryPort
pub mod QueryClient
pub mod Protocol
pub mod EventPort
pub mod Redelivery
pub mod Publish
