-- ===== src/Ordering/Request.antt =====
-- `packages/core/src/domain/ordering/order-request.ts`: a validated order request.
use scos.Shared.Schemas.{GeoPoint}

pub record OrderRequest (N : Type 0) : Type 0 where
  pub quantity : N
  pub destination : GeoPoint N
