-- ===== src/Shared.antt =====
-- `packages/core/src/domain/shared`: the domain's exception and the value objects.
pub mod Errors
pub mod Money
pub mod Schemas
