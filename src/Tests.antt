-- ===== src/Tests.antt =====
-- Concrete inputs, and the theorems at them.
mod Data
mod Shipments
mod Orders
mod Failures
mod Stock
mod Database
mod Placements
mod Endpoints
mod Acceptance
mod Logs
mod Settings
mod Amounts
