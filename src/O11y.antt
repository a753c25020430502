-- ===== src/O11y.antt =====
-- What the telemetry package computes beside its calls of OpenTelemetry (o11y/).
pub mod Backlog
pub mod Origin
