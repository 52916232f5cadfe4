-- ===== src/Telemetry.antt =====
-- `apps/api/src/telemetry`: what the logs record, and the configuration.
pub mod LogRecord
pub mod Config
