-- ===== src/Shipping/Allocation/Loop/Prefix.antt =====
-- What holds of the ranked warehouses holds of the plan that follows them.
use scos.Prelude.{
  ◌≡◌, sym, ◌∙◌, ap, true, false≢true, List, [], ◌∷◌, All, Any, Ordered, ◌⊎◌, inl, inr,
}
use scos.Js.{Floats, IsIeee}
use scos.Shipping.Allocation.{RankedWarehouse, WarehouseAllocation, ShippingPlan}
use scos.Shipping.Allocation.Loop.{TakesFrom, Follows, ranked_units}
use scos.Shipping.Allocation.Ranking.{IsFinite, not_nearer}
use scos.Shipping.Allocation.Ranking.Sorted.{NotAfter}

module _ {N : Type 0} ⦃f : Floats N⦄ where
  pub Follows-All :
      (P : RankedWarehouse N → Type 0) (Q : WarehouseAllocation N → Type 0)
      → ((a : WarehouseAllocation N) (w : RankedWarehouse N) → TakesFrom a w → P w → Q a)
      → (p : ShippingPlan N) (ws : List (RankedWarehouse N)) → Follows p ws
      → All P ws
      → All Q p
  Follows-All P Q step [] ws h k = tt
  Follows-All P Q step (a ∷ p) [] h k = absurd h
  Follows-All P Q step (a ∷ p) (w ∷ ws) (t, _, h) (m, k) =
      (step a w t m, Follows-All P Q step p ws h k)

  pub Follows-Ordered :
      (R : RankedWarehouse N → RankedWarehouse N → Type 0)
      (S : WarehouseAllocation N → WarehouseAllocation N → Type 0)
      → ((a b : WarehouseAllocation N) (v w : RankedWarehouse N)
          → TakesFrom a v
          → TakesFrom b w
          → R v w
          → S a b)
      → (p : ShippingPlan N) (ws : List (RankedWarehouse N)) → Follows p ws
      → Ordered R ws
      → Ordered S p
  Follows-Ordered R S step [] ws h o = tt
  Follows-Ordered R S step (a ∷ p) [] h o = absurd h
  Follows-Ordered R S step (a ∷ p) (w ∷ ws) (t, _, h) (below, o) = (
    Follows-All (R w) (S a) (λ b v u r. step a b w v t u r) p ws h below,
    Follows-Ordered R S step p ws h o,
  )

  -- All units of the warehouse are in the allocation.
  abbrev pub Empties : RankedWarehouse N → WarehouseAllocation N → Type 0
  Empties w a = (a.warehouse_id ≡ w.warehouse_id) × (a.quantity ≡ ranked_units w)

  -- If an allocation comes from farther away, the plan empties the warehouse.
  abbrev pub EmptiedIfNearer : ShippingPlan N → RankedWarehouse N → Type 0
  EmptiedIfNearer p w = All (λ b. f.lt w.distance_km b.distance_km ≡ true → Any (Empties w) p) p

  module _ (ieee : IsIeee N) where
    emptied_for :
        (a : WarehouseAllocation N) (p : ShippingPlan N) (w : RankedWarehouse N)
        → Empties w a
        → (q : ShippingPlan N)
        → All (λ b. f.lt w.distance_km b.distance_km ≡ true → Any (Empties w) (a ∷ p)) q
    emptied_for a p w e [] = tt
    emptied_for a p w e (b ∷ q) = (λ _. inl e, emptied_for a p w e q)

    -- If the plan takes anything after a warehouse, it has emptied that warehouse.
    head_emptied :
        (a : WarehouseAllocation N) (p : ShippingPlan N) (w : RankedWarehouse N)
        → TakesFrom a w
        → (p ≡ []) ⊎ (a.quantity ≡ ranked_units w)
        → All (λ b. f.lt w.distance_km b.distance_km ≡ true → Any (Empties w) (a ∷ p)) p
    head_emptied a p w t (inl e) = rw e tt
    head_emptied a p w t (inr e) = emptied_for a p w (t.same_id, e) p

    later_emptied :
        (a : WarehouseAllocation N) (p : ShippingPlan N) (w : RankedWarehouse N)
        (q : ShippingPlan N)
        → All (λ b. f.lt w.distance_km b.distance_km ≡ true → Any (Empties w) p) q
        → All (λ b. f.lt w.distance_km b.distance_km ≡ true → Any (Empties w) (a ∷ p)) q
    later_emptied a p w [] h = tt
    later_emptied a p w (b ∷ q) (g, h) = (λ lt. inr (g lt), later_emptied a p w q h)

    tail_emptied :
        (a : WarehouseAllocation N) (p : ShippingPlan N) (v : RankedWarehouse N)
        (ws : List (RankedWarehouse N))
        → TakesFrom a v
        → IsFinite ieee v
        → All (IsFinite ieee) ws
        → All (NotAfter v) ws
        → All (EmptiedIfNearer p) ws
        → All (EmptiedIfNearer (a ∷ p)) ws
    tail_emptied a p v [] t fv fs below h = tt
    tail_emptied a p v (w ∷ ws) t fv (fw, fs) (first, below) (g, h) = (
      (
        λ lt. absurd (
            false≢true (
              sym (not_nearer ieee v w fv fw first)
              ∙ sym (ap (f.lt w.distance_km) t.same_distance)
              ∙ lt)),
        later_emptied a p w p g,
      ),
      tail_emptied a p v ws t fv fs below h,
    )

    nothing_farther : (ws : List (RankedWarehouse N)) → All (EmptiedIfNearer []) ws
    nothing_farther [] = tt
    nothing_farther (w ∷ ws) = (tt, nothing_farther ws)

    pub Follows-EmptiedIfNearer :
        (p : ShippingPlan N) (ws : List (RankedWarehouse N))
        → Follows p ws
        → All (IsFinite ieee) ws
        → Ordered NotAfter ws
        → All (EmptiedIfNearer p) ws
    Follows-EmptiedIfNearer [] ws h fs o = nothing_farther ws
    Follows-EmptiedIfNearer (a ∷ p) [] h fs o = tt
    Follows-EmptiedIfNearer (a ∷ p) (w ∷ ws) (t, last, h) (fw, fs) (below, o) = (
      (
        λ lt. absurd (
            false≢true (
              sym (ieee.lt_irrefl w.distance_km)
              ∙ sym (ap (f.lt w.distance_km) t.same_distance)
              ∙ lt)),
        head_emptied a p w t last,
      ),
      tail_emptied a p w ws t fw fs below (Follows-EmptiedIfNearer p ws h fs o),
    )
