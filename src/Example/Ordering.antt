-- ===== src/Example/Ordering.antt =====
-- gohex-example/ordering/: the ordering service.
pub mod Values
pub mod Order
pub mod Ports
pub mod Service
pub mod Fulfillment
pub mod Summary
pub mod Postgres
pub mod Notifier
