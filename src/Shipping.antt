-- ===== src/Shipping.antt =====
-- `packages/core/src/domain/shipping`: distances, allocation and the shipping charge.
pub mod Distance
pub mod Allocation
pub mod Charge
