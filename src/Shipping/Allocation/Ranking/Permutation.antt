-- ===== src/Shipping/Allocation/Ranking/Permutation.antt =====
-- The sort forgets the order of the snapshot.
use mathlib.Core.List.{Permᴰ}
use mathlib.Core.Path.{subst}
use scos.Prelude.{refl, ℕ, ◌≡◌, ◌≢◌, sym, ◌∙◌, ap, List, arith, sum_by, All, Ordered}
use scos.Js.{Floats, IsIeee}
use scos.Shipping.Allocation.{RankedWarehouse, insert, sort}
use scos.Shipping.Allocation.Ranking.{IsFinite}
use scos.Shipping.Allocation.Ranking.Sorted.{All-sort, insert_comm}

module _ {ℓ κ} {A : Type ℓ} where
  pub All-perm : (P : A → Type κ) {xs ys : List A} → Permᴰ xs ys → All P xs → All P ys
  All-perm P Permᴰ.nil h = h
  All-perm P (Permᴰ.cons e p) (q, h) = (subst P e q, All-perm P p h)
  All-perm P (Permᴰ.swap e e') (q, (r, h)) = (subst P e' r, (subst P e q, h))
  All-perm P (Permᴰ.trans p q) h = All-perm P q (All-perm P p h)

  -- A symmetric relation does not see the order.
  pub Ordered-perm :
      (R : A → A → Type κ)
      → ((x y : A) → R x y → R y x)
      → {xs ys : List A} → Permᴰ xs ys
      → Ordered R xs
      → Ordered R ys
  Ordered-perm R s Permᴰ.nil h = h
  Ordered-perm R s (Permᴰ.cons {l₂ = l₂} e p) (q, h) =
      (subst (λ a. All (R a) l₂) e (All-perm (R _) p q), Ordered-perm R s p h)
  Ordered-perm R s (Permᴰ.swap {a = a} {b = b} {a' = a'} {b' = b'} {l = l} e e') ((r, q), (q', h)) =
      (
        (subst (λ y. R a' y) e (subst (λ x. R x a) e' (s a b r)), subst (λ x. All (R x) l) e' q'),
        (subst (λ x. All (R x) l) e q, h),
      )
  Ordered-perm R s (Permᴰ.trans p q) h = Ordered-perm R s q (Ordered-perm R s p h)

pub sum_by-perm {ℓ} :
    {A : Type ℓ} (g : A → ℕ) {xs ys : List A} → Permᴰ xs ys → sum_by g xs ≡ sum_by g ys
sum_by-perm g Permᴰ.nil = omega arith
sum_by-perm g (Permᴰ.cons e p) = omega (arith, ap g e, sum_by-perm g p)
sum_by-perm g (Permᴰ.swap e e') = omega (arith, ap g e, ap g e')
sum_by-perm g (Permᴰ.trans p q) = sum_by-perm g p ∙ sum_by-perm g q

module _ {N : Type 0} ⦃f : Floats N⦄ where
  abbrev pub DistinctRanked : RankedWarehouse N → RankedWarehouse N → Type 0
  DistinctRanked v w = v.warehouse_id ≢ w.warehouse_id

  module _ (ieee : IsIeee N) where
    pub sort-perm :
        {ws vs : List (RankedWarehouse N)}
        → Permᴰ ws vs
        → All (IsFinite ieee) ws
        → Ordered DistinctRanked ws
        → sort ws ≡ sort vs
    unfolding sort
    sort-perm Permᴰ.nil fs o = refl
    sort-perm (Permᴰ.cons {l₂ = l₂} e p) (fw, fs) (d, o) =
        ap (insert _) (sort-perm p fs o) ∙ ap (λ w. insert w (sort l₂)) e
    sort-perm (Permᴰ.swap {b = b} {b' = b'} {l = l} e e') (fa, (fb, fs)) ((d, _), _) =
        insert_comm ieee _ _ (sort l) fa fb d (All-sort (IsFinite ieee) l fs)
        ∙ ap (λ w. insert b (insert w (sort l))) e
        ∙ ap (λ w. insert w (insert b' (sort l))) e'
    sort-perm (Permᴰ.trans p q) fs o =
        sort-perm p fs o
        ∙ sort-perm q (All-perm (IsFinite ieee) p fs)
            (Ordered-perm DistinctRanked (λ v w n e. n (sym e)) p o)
