-- ===== src/EventStore.antt =====
-- The event store port and the machinery around it (eventstore/).
pub mod Types
pub mod Contract
pub mod Memory
pub mod Position
pub mod Checkpoint
pub mod Registry
pub mod Repository
pub mod Postgres
