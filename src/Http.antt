-- ===== src/Http.antt =====
-- `apps/api/src`: the HTTP endpoints over the use cases.
pub mod Json
pub mod Bodies
pub mod Endpoints
pub mod Conformance
