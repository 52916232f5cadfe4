-- ===== src/Shipping/Allocation/Ranking/Sorted.antt =====
-- Insertion keeps the warehouses and puts them in order; the order of the snapshot is forgotten.
use mathlib.Core.Path.{subst}
use scos.Prelude.{
  ℕ, ◌+◌, ◌≡◌, refl, sym, ◌∙◌, ap, true, false, List, [], ◌∷◌, arith, ◌≢◌, inl, inr, Bool-cases,
  false≢true, All-zip, sum_by, All, Ordered,
}
use scos.Js.{Floats, IsIeee}
use scos.Shipping.Allocation.{RankedWarehouse, comes_after, insert, sort}
use scos.Shipping.Allocation.Ranking.{IsFinite, comes_after_asymm, comes_after_total, before_trans}

module _ {N : Type 0} ⦃f : Floats N⦄ where
  -- `insert` on each side of the test
  insert-later :
      (w v : RankedWarehouse N) (vs : List (RankedWarehouse N))
      → comes_after w v ≡ true
      → insert w (v ∷ vs) ≡ v ∷ insert w vs
  unfolding insert
  insert-later w v vs h = rw h

  insert-here :
      (w v : RankedWarehouse N) (vs : List (RankedWarehouse N))
      → comes_after w v ≡ false
      → insert w (v ∷ vs) ≡ w ∷ v ∷ vs
  unfolding insert
  insert-here w v vs h = rw h

  insert-nil : (w : RankedWarehouse N) → insert w [] ≡ w ∷ []
  unfolding insert
  insert-nil w = refl

  pub sum_by-insert :
      (g : RankedWarehouse N → ℕ) (w : RankedWarehouse N) (vs : List (RankedWarehouse N))
      → sum_by g (insert w vs) ≡ g w + sum_by g vs
  unfolding insert
  sum_by-insert g w [] = refl
  sum_by-insert g w (v ∷ vs) = ground (arith, sum_by-insert g w vs)

  -- The sort loses and gains no stock.
  pub sum_by-sort :
      (g : RankedWarehouse N → ℕ) (ws : List (RankedWarehouse N)) → sum_by g (sort ws) ≡ sum_by g ws
  unfolding sort
  sum_by-sort g [] = refl
  sum_by-sort g (w ∷ ws) = sum_by-insert g w (sort ws) ∙ omega (arith, sum_by-sort g ws)

  module _ {κ} (P : RankedWarehouse N → Type κ) where
    pub All-insert :
        (w : RankedWarehouse N) (vs : List (RankedWarehouse N))
        → P w
        → All P vs
        → All P (insert w vs)
    All-insert w [] p h = rw (insert-nil w) (p, tt)
    All-insert w (v ∷ vs) p (q, h) = elim (Bool-cases (comes_after w v)) [
      | inl later ↦ rw (insert-later w v vs later) (q, All-insert w vs p h)
      | inr here ↦ rw (insert-here w v vs here) (p, (q, h))
    ]

    pub All-sort : (ws : List (RankedWarehouse N)) → All P ws → All P (sort ws)
    unfolding sort
    All-sort [] h = tt
    All-sort (w ∷ ws) (p, h) = All-insert w (sort ws) p (All-sort ws h)

    All-of-insert :
        (w : RankedWarehouse N) (vs : List (RankedWarehouse N))
        → All P (insert w vs)
        → P w × All P vs
    All-of-insert w [] h = subst (All P) (insert-nil w) h
    All-of-insert w (v ∷ vs) h = elim (Bool-cases (comes_after w v)) [
      | inl later ↦
          let (q, k) = subst (All P) (insert-later w v vs later) h in
          let (p, k') = All-of-insert w vs k in (p, (q, k'))
      | inr here ↦ subst (All P) (insert-here w v vs here) h
    ]

    pub All-of-sort : (ws : List (RankedWarehouse N)) → All P (sort ws) → All P ws
    unfolding sort
    All-of-sort [] h = tt
    All-of-sort (w ∷ ws) h = let (p, k) = All-of-insert w (sort ws) h in (p, All-of-sort ws k)

  module _ (R : RankedWarehouse N → RankedWarehouse N → Type 0)
      (symm : (v w : RankedWarehouse N) → R v w → R w v) where
    insert-Ordered_symm :
        (w : RankedWarehouse N) (vs : List (RankedWarehouse N))
        → All (R w) vs
        → Ordered R vs
        → Ordered R (insert w vs)
    insert-Ordered_symm w [] h o = rw (insert-nil w) (tt, tt)
    insert-Ordered_symm w (v ∷ vs) (r, h) (below, o) = elim (Bool-cases (comes_after w v)) [
      | inl later ↦
          rw (insert-later w v vs later)
            (All-insert (R v) w vs (symm w v r) below, insert-Ordered_symm w vs h o)
      | inr here ↦ rw (insert-here w v vs here) ((r, h), (below, o))
    ]

    -- The sort keeps a symmetric relation between the warehouses.
    pub sort-Ordered_symm : (ws : List (RankedWarehouse N)) → Ordered R ws → Ordered R (sort ws)
    unfolding sort
    sort-Ordered_symm [] o = tt
    sort-Ordered_symm (w ∷ ws) (h, o) =
        insert-Ordered_symm w (sort ws) (All-sort (R w) ws h) (sort-Ordered_symm ws o)

  abbrev pub NotAfter : RankedWarehouse N → RankedWarehouse N → Type 0
  NotAfter v w = comes_after v w ≡ false

  module _ (ieee : IsIeee N) where
    insert-Ordered :
        (w : RankedWarehouse N) (vs : List (RankedWarehouse N))
        → IsFinite ieee w
        → All (IsFinite ieee) vs
        → Ordered NotAfter vs
        → Ordered NotAfter (insert w vs)
    insert-Ordered w [] fw fs o = rw (insert-nil w) (tt, tt)
    insert-Ordered w (v ∷ vs) fw (fv, fs) (below, o) = elim (Bool-cases (comes_after w v)) [
      | inl later ↦ rw (insert-later w v vs later) (
        All-insert (NotAfter v) w vs (comes_after_asymm ieee w v fw fv later) below,
        insert-Ordered w vs fw fs o,
      )
      | inr here ↦
          rw (insert-here w v vs here) (
            (here, All-zip (λ u fu. before_trans ieee w v u fw fv fu here) vs fs below),
            (below, o),
          )
    ]

    -- The sorted warehouses stand nearest first, and equally near ones by ID.
    pub sort-Ordered :
        (ws : List (RankedWarehouse N)) → All (IsFinite ieee) ws → Ordered NotAfter (sort ws)
    unfolding sort
    sort-Ordered [] fs = tt
    sort-Ordered (w ∷ ws) (fw, fs) =
        insert-Ordered w (sort ws) fw (All-sort (IsFinite ieee) ws fs) (sort-Ordered ws fs)

    -- Both belong before the rest.
    pair_comm :
        (v w : RankedWarehouse N) (us : List (RankedWarehouse N))
        → IsFinite ieee v
        → IsFinite ieee w
        → v.warehouse_id ≢ w.warehouse_id
        → insert v us ≡ v ∷ us
        → insert w us ≡ w ∷ us
        → insert v (w ∷ us) ≡ insert w (v ∷ us)
    pair_comm v w us fv fw distinct front front' = elim (Bool-cases (comes_after v w)) [
      | inl later ↦ rw (
        insert-later v w us later,
        insert-here w v us (comes_after_asymm ieee v w fv fw later),
        front,
      )
      | inr here ↦ rw (
        insert-here v w us here,
        insert-later w v us (comes_after_total ieee v w fv fw distinct here),
        front',
      )
    ]

    -- The first belongs before the head and the second after it.
    past_head :
        (v w u : RankedWarehouse N) (us : List (RankedWarehouse N))
        → IsFinite ieee v
        → IsFinite ieee w
        → IsFinite ieee u
        → comes_after v u ≡ false
        → comes_after w u ≡ true
        → insert v (insert w (u ∷ us)) ≡ insert w (insert v (u ∷ us))
    past_head v w u us fv fw fu v_here w_later =
        let after : comes_after w v ≡ true = elim (Bool-cases (comes_after w v)) [
          | inl later ↦ later
          | inr here ↦
              absurd (false≢true (sym (before_trans ieee w v u fw fv fu here v_here) ∙ w_later))
        ] in
        rw (
          insert-later w u us w_later,
          insert-here v u us v_here,
          insert-here v u (insert w us) v_here,
          insert-later w v (u ∷ us) after,
          insert-later w u us w_later,
        )

    -- Two warehouses with distinct IDs may be inserted in either order.
    pub insert_comm :
        (v w : RankedWarehouse N) (us : List (RankedWarehouse N))
        → IsFinite ieee v
        → IsFinite ieee w
        → v.warehouse_id ≢ w.warehouse_id
        → All (IsFinite ieee) us
        → insert v (insert w us) ≡ insert w (insert v us)
    insert_comm v w [] fv fw distinct fs =
        rw (insert-nil v, insert-nil w)
          (pair_comm v w [] fv fw distinct (insert-nil v) (insert-nil w))
    insert_comm v w (u ∷ us) fv fw distinct (fu, fs) = elim (Bool-cases (comes_after v u)) [
      | inl v_later ↦ elim (Bool-cases (comes_after w u)) [
        | inl w_later ↦
            rw
              (
                insert-later w u us w_later,
                insert-later v u us v_later,
                insert-later v u (insert w us) v_later,
                insert-later w u (insert v us) w_later,
              )
              (ap (◌∷◌ u) (insert_comm v w us fv fw distinct fs))
        | inr w_here ↦ sym (past_head w v u us fw fv fu w_here v_later)
      ]
      | inr v_here ↦ elim (Bool-cases (comes_after w u)) [
        | inl w_later ↦ past_head v w u us fv fw fu v_here w_later
        | inr w_here ↦
            rw (insert-here w u us w_here, insert-here v u us v_here)
              (pair_comm v w (u ∷ us) fv fw distinct (insert-here v u us v_here)
                (insert-here w u us w_here))
      ]
    ]
