-- ===== src/Example.antt =====
-- The four services of the example system (gohex-example/).
pub mod Contracts
pub mod Handled
pub mod Billing
pub mod Inventory
pub mod Shipping
pub mod Ordering
pub mod System
