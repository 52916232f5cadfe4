-- ===== src/Ordering.antt =====
-- `packages/core/src/domain/ordering`: estimates, requests, keys, order numbers and orders.
pub mod Request
pub mod Estimate
pub mod Key
pub mod Number
pub mod Order
pub mod Submit
