-- ===== src/Broker.antt =====
-- The messaging port (broker/).
pub mod Message
pub mod Memory
