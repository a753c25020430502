-- ===== src/Kernel.antt =====
-- The zero-dependency domain kernel: errors, identifiers and event-sourced aggregates (kernel/).
pub mod Errors
pub mod Result
pub mod Event
pub mod Aggregate
pub mod Id
