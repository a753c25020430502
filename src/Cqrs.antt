-- ===== src/Cqrs.antt =====
-- The command and query buses, and the wire side of commands (cqrs/).
pub mod Command
pub mod Query
pub mod Bus
pub mod Wire
pub mod Postgres
pub mod Consumer
