-- ===== src/Ordering/Order/Covering.antt =====
-- `assertAllocations` of `packages/core/src/domain/ordering/order.ts`: what it lets through.
use scos.Prelude.{
  ℕ, suc, ◌≤◌, ◌<◌, ◌^◌, sum_by, ◌+◌, ◌≡◌, refl, some, List, [], ◌∷◌, map, length, true, false,
  Bool-cases, inl, inr, All, Ordered, Text, text_eq, eq_of_text_eq, arith, ltb,
}
use scos.Js.{Floats, IsIeee, whole}
use scos.Shared.Errors.{ok}
use scos.Shipping.Allocation.{WarehouseAllocation, ShippingPlan, contains}
use scos.Shipping.Allocation.Loop.{quantity_of}
use scos.Shipping.Allocation.Plan.{OtherWarehouse}
use scos.Ordering.Order.{order_allocation, assert_each, assert_allocations}

not_empty : (n : ℕ) → 1 ≤ n → ltb 0 n ≡ true
not_empty n h = ground arith

module _ {N : Type 0} ⦃f : Floats N⦄ where
  -- Units from a warehouse that has an ID and a name.
  abbrev pub Gives : WarehouseAllocation N → Type 0
  Gives a = (1 ≤ length a.warehouse_id) × (1 ≤ length a.warehouse_name) × (1 ≤ a.quantity)

  abbrev Unseen : List Text → WarehouseAllocation N → Type 0
  Unseen seen a = contains a.warehouse_id seen ≡ false

  still-Unseen :
      (seen : List Text) (a b : WarehouseAllocation N)
      → Unseen seen b
      → OtherWarehouse a b
      → Unseen (a.warehouse_id ∷ seen) b
  still-Unseen seen a b h n = elim (Bool-cases (text_eq a.warehouse_id b.warehouse_id)) [
    | inl same ↦ absurd (n (eq_of_text_eq _ _ same))
    | inr differ ↦ rw differ h
  ]

  all-Unseen :
      (seen : List Text) (a : WarehouseAllocation N) (p : ShippingPlan N)
      → All (Unseen seen) p
      → All (OtherWarehouse a) p
      → All (Unseen (a.warehouse_id ∷ seen)) p
  all-Unseen seen a [] h k = tt
  all-Unseen seen a (b ∷ p) (u, h) (n, k) = (still-Unseen seen a b u n, all-Unseen seen a p h k)

  all-Unseen_none : (p : ShippingPlan N) → All (Unseen []) p
  all-Unseen_none [] = tt
  all-Unseen_none (a ∷ p) = (refl, all-Unseen_none p)

  module _ (ieee : IsIeee N) (quantity : N) (q : ℕ) (counted : f.count quantity ≡ some q)
      (small : q < 2 ^ 53) where
    assert_each-accepts :
        (seen : List Text) (allocated : N) (n : ℕ) (p : ShippingPlan N)
        → f.count allocated ≡ some n
        → n + sum_by quantity_of p ≡ q
        → All Gives p
        → All (Unseen seen) p
        → Ordered OtherWarehouse p
        → assert_each quantity seen allocated (map order_allocation p) ≡ ok tt
    unfolding assert_each
    assert_each-accepts seen allocated n [] c sum gives unseen distinct =
        let all_of_it : n ≡ q = omega (arith, sum) in
        rw (ieee.eq_of_count allocated quantity q (rw (← all_of_it) c) counted) refl
    assert_each-accepts seen allocated n (a ∷ p) c sum ((id, name, some_units), gives) (new, unseen)
          (others, distinct) =
        let units_counted = ieee.count_literal a.quantity (omega (arith, sum, small)) in
        let (safe, _, _) = ieee.safe_of_count (whole a.quantity) a.quantity units_counted in
        let positive =
          ieee.lt_of_count_pos (whole a.quantity) a.quantity units_counted some_units in
        let after =
          assert_each-accepts (a.warehouse_id ∷ seen) (f.add allocated (whole a.quantity))
            (n + a.quantity) p
            (ieee.count_add allocated (whole a.quantity) n a.quantity c units_counted
              (omega (arith, sum, small)))
            (omega (arith, sum)) gives (all-Unseen seen a p unseen others) distinct in
        rw (not_empty _ id, not_empty _ name, safe, positive, new) after

    -- A plan of distinct warehouses that gives exactly the quantity passes the check of an Order.
    pub assert_allocations-accepts :
        (p : ShippingPlan N)
        → 1 ≤ q
        → sum_by quantity_of p ≡ q
        → All Gives p
        → Ordered OtherWarehouse p
        → assert_allocations quantity (map order_allocation p) ≡ ok tt
    unfolding assert_allocations
    assert_allocations-accepts [] pos sum gives distinct = absurd (omega (arith, pos, sum))
    assert_allocations-accepts (a ∷ p) pos sum gives distinct =
        rw (not_empty (suc (length (map order_allocation p))) (omega arith)) (
          assert_each-accepts [] (whole 0) 0 (a ∷ p) (ieee.count_literal 0 (omega arith))
            (omega (arith, sum)) gives (all-Unseen_none (a ∷ p)) distinct)
