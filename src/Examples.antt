-- ===== src/Examples.antt =====
-- The theorems at concrete inputs.
mod Codecs
mod Core
mod Stores
mod Messages
mod Services
mod Relays
mod Sagas
mod Payments
mod Orders
mod Summaries
mod Telemetry
mod Fulfillments
mod Databases
