-- ===== src/Shipping/Allocation/Loop/Cost.antt =====
-- The loop over warehouses in the order of their cost is a least-cost way to take the units.
use native.Mathlib.Nat.{mul-le-mul_right}
use scos.Prelude.{ℕ, zero, suc, ◌+◌, ◌-◌, ◌*◌, ◌≤◌, ◌≡◌, ap, List, [], ◌∷◌, min, arith, sum_by, All}
use scos.Js.{Floats}
use scos.Shipping.Allocation.{RankedWarehouse, ShippingPlan, take_units}
use scos.Shipping.Allocation.Loop.{ranked_units, take_units-zero, take_units-nil}

module _ {N : Type 0} ⦃f : Floats N⦄ (cost : N → ℕ) where
  -- The cost of a plan, at `cost` for each unit from a warehouse at that distance.
  abbrev pub plan_cost : ShippingPlan N → ℕ
  plan_cost = sum_by λ a. cost a.distance_km * a.quantity

  -- Another choice of units, one number for each warehouse.
  abbrev pub choice_cost : List (RankedWarehouse N) → List ℕ → ℕ
  choice_cost (w ∷ ws) (y ∷ ys) = cost w.distance_km * y + choice_cost ws ys
  choice_cost _ _ = 0

  abbrev pub Choice : ℕ → List (RankedWarehouse N) → List ℕ → Type 0
  Choice r [] [] = r ≡ 0
  Choice r [] (y ∷ ys) = ⊥
  Choice r (w ∷ ws) [] = ⊥
  Choice r (w ∷ ws) (y ∷ ys) = (y ≤ ranked_units w) × (y ≤ r) × Choice (r - y) ws ys

  abbrev pub CostsAtLeast : ℕ → RankedWarehouse N → Type 0
  CostsAtLeast c w = c ≤ cost w.distance_km

  -- Cheaper warehouses come first.
  abbrev pub IsRising : List (RankedWarehouse N) → Type 0
  IsRising [] = Unit
  IsRising (w ∷ ws) = All (CostsAtLeast (cost w.distance_km)) ws × IsRising ws

  -- One step of the loop.
  plan_cost-step :
      (r : ℕ) (w : RankedWarehouse N) (ws : List (RankedWarehouse N))
      → plan_cost (take_units r (w ∷ ws))
        ≡ cost w.distance_km * min r (ranked_units w)
          + plan_cost (take_units (r - min r (ranked_units w)) ws)
  unfolding take_units
  plan_cost-step zero w ws =
      let none_taken : min 0 (ranked_units w) ≡ 0 = omega arith in
      rw none_taken (rw (take_units-zero ws) (omega arith))
  plan_cost-step (suc r) w ws = ground arith

  -- More units cost at least the cheapest price for each unit more.
  plan_cost-add :
      (s k c : ℕ) (ws : List (RankedWarehouse N))
      → All (CostsAtLeast c) ws
      → s + k ≤ sum_by ranked_units ws
      → plan_cost (take_units s ws) + c * k ≤ plan_cost (take_units (s + k) ws)
  plan_cost-add s k c [] h le =
      let none_more : k ≡ 0 = omega arith in
      rw (none_more, take_units-nil s, take_units-nil (s + 0)) (omega arith)
  plan_cost-add s k c (w ∷ ws) (p, h) le =
      let price = cost w.distance_km in
      let u = min s (ranked_units w) in
      let d = min (s + k) (ranked_units w) - u in
      let more : min (s + k) (ranked_units w) ≡ u + d = omega arith in
      let split : k ≡ d + (k - d) = omega arith in
      let left : s - u + (k - d) ≡ s + k - min (s + k) (ranked_units w) = omega arith in
      let rest = plan_cost-add (s - u) (k - d) c ws h (omega arith) in
      omega (
        arith,
        plan_cost-step s w ws,
        plan_cost-step (s + k) w ws,
        rest,
        ap (λ (t : ℕ). plan_cost (take_units t ws)) left,
        ap (λ (t : ℕ). price * t) more,
        ap (λ (t : ℕ). c * t) split,
        mul-le-mul_right d p,
      )

  Choice-sum :
      (r : ℕ) (ws : List (RankedWarehouse N)) (ys : List ℕ)
      → Choice r ws ys
      → r ≤ sum_by ranked_units ws
  Choice-sum r [] [] h = omega arith
  Choice-sum r [] (y ∷ ys) h = absurd h
  Choice-sum r (w ∷ ws) [] h = absurd h
  Choice-sum r (w ∷ ws) (y ∷ ys) (a, b, h) = omega (arith, Choice-sum (r - y) ws ys h)

  -- No choice of the same units is cheaper.
  pub plan_cost_least :
      (r : ℕ) (ws : List (RankedWarehouse N)) (ys : List ℕ)
      → IsRising ws
      → Choice r ws ys
      → plan_cost (take_units r ws) ≤ choice_cost ws ys
  plan_cost_least r [] [] s h = rw (take_units-nil r) (omega arith)
  plan_cost_least r [] (y ∷ ys) s h = absurd h
  plan_cost_least r (w ∷ ws) [] s h = absurd h
  plan_cost_least r (w ∷ ws) (y ∷ ys) (dear, s) (a, b, h) =
      let price = cost w.distance_km in
      let u = min r (ranked_units w) in
      let d = u - y in
      let more : u ≡ y + d = omega arith in
      let left : r - u + d ≡ r - y = omega arith in
      let dearer =
        plan_cost-add (r - u) d price ws dear (omega (arith, Choice-sum (r - y) ws ys h)) in
      omega (
        arith,
        plan_cost-step r w ws,
        dearer,
        ap (λ (t : ℕ). plan_cost (take_units t ws)) left,
        ap (λ (t : ℕ). price * t) more,
        plan_cost_least (r - y) ws ys s h,
      )
