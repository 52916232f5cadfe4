-- ===== src/Ordering/Order/Allocations.antt =====
-- `assertAllocations` of `packages/core/src/domain/ordering/order.ts`: what it guarantees.
use scos.Prelude.{
  ℕ, ◌≤◌, ◌<◌, ◌^◌, sum_by, ◌+◌, ◌≡◌, refl, ap, some, List, [], ◌∷◌, map, true, All, Text, arith,
}
use scos.Js.{Floats, IsIeee, natural, natural_of_count, whole}
use scos.Shipping.Allocation.{WarehouseAllocation}
use scos.Shipping.Allocation.Loop.{quantity_of}
use scos.Ordering.Order.Covers.{WellFormed}
use scos.Ordering.Order.{OrderAllocation, order_allocation}

module _ {N : Type 0} ⦃f : Floats N⦄ where
  -- The quantity is a number of units.
  abbrev pub Counted : OrderAllocation N → Type 0
  Counted a = f.count a.quantity ≡ some (natural a.quantity)

  -- The warehouses and the units that they give.
  abbrev pub unit_pairs : List (OrderAllocation N) → List (Text × ℕ)
  unit_pairs [] = []
  unit_pairs (a ∷ rest) = (a.warehouse_id, natural a.quantity) ∷ unit_pairs rest

  module _ (ieee : IsIeee N) where
    Counted-of_safe :
        (a : OrderAllocation N)
        → f.is_safe_integer a.quantity ≡ true
        → f.lt (whole 0) a.quantity ≡ true
        → Counted a
    Counted-of_safe a safe positive =
        let (n, c) = ieee.count_of_safe a.quantity safe (ieee.le_of_lt _ _ positive) in
        rw (natural_of_count a.quantity n c) c

    pub all-Counted : (xs : List (OrderAllocation N)) → All WellFormed xs → All Counted xs
    all-Counted [] h = tt
    all-Counted (a ∷ rest) ((_, _, safe, positive), h) =
        (Counted-of_safe a safe positive, all-Counted rest h)

    -- Allocations of few units keep their sum when they become numbers.
    pub sum_by-unit_pairs :
        (q : ℕ) (xs : List (WarehouseAllocation N))
        → sum_by quantity_of xs ≤ q
        → q < 2 ^ 53
        → sum_by (λ a. a.1) (unit_pairs (map order_allocation xs)) ≡ sum_by quantity_of xs
    sum_by-unit_pairs q [] h k = refl
    sum_by-unit_pairs q (a ∷ rest) h k =
        let read =
          natural_of_count (whole {N = N} a.quantity) a.quantity
            (ieee.count_literal a.quantity (omega (arith, h, k))) in
        rw read (ap (λ n. a.quantity + n) (sum_by-unit_pairs q rest (omega (arith, h)) k))
