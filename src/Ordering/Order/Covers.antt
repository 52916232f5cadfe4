-- ===== src/Ordering/Order/Covers.antt =====
-- `assertAllocations` of `packages/core/src/domain/ordering/order.ts`, independently of its loop.
use scos.Prelude.{
  ◌≤◌, ◌≡◌, ◌≢◌, refl, sym, ◌∙◌, List, [], ◌∷◌, length, true, false, false≢true, Bool-cases, inl,
  inr, All, Ordered, Text, text_eq, text_eq_refl, arith,
}
use scos.Js.{Floats, whole}
use scos.Shared.Errors.{ok}
use scos.Shipping.Allocation.{contains}
use scos.Ordering.Order.{OrderAllocation, assert_each, assert_allocations}

module _ {N : Type 0} ⦃f : Floats N⦄ where
  -- The allocations are named, and each is a positive safe integer.
  abbrev pub WellFormed : OrderAllocation N → Type 0
  WellFormed a =
      (1 ≤ length a.warehouse_id)
      × (1 ≤ length a.warehouse_name)
      × (f.is_safe_integer a.quantity ≡ true)
      × (f.lt (whole 0) a.quantity ≡ true)

  abbrev pub OtherId : OrderAllocation N → OrderAllocation N → Type 0
  OtherId a b = a.warehouse_id ≢ b.warehouse_id

  -- The sum of the quantities, from the first one on.
  abbrev pub total : N → List (OrderAllocation N) → N
  total n [] = n
  total n (a ∷ rest) = total (f.add n a.quantity) rest

  -- Allocations for exactly a quantity, from distinct warehouses.
  pub record Covers (quantity : N) (xs : List (OrderAllocation N)) : Type 0 where
    pub some_given : 1 ≤ length xs
    pub well_formed : All WellFormed xs
    pub distinct : Ordered OtherId xs
    pub sum : f.eq (total (whole 0) xs) quantity ≡ true

  abbrev Fresh : List Text → OrderAllocation N → Type 0
  Fresh seen a = contains a.warehouse_id seen ≡ false

  not_seen :
      (seen : List Text) (a b : OrderAllocation N)
      → Fresh (a.warehouse_id ∷ seen) b
      → OtherId a b × Fresh seen b
  not_seen seen a b h = elim (Bool-cases (text_eq a.warehouse_id b.warehouse_id)) [
    | inl same ↦ absurd (false≢true (sym h ∙ rw same refl))
    | inr other ↦ (
      (λ e. false≢true (sym other ∙ rw e (text_eq_refl b.warehouse_id))),
      sym (rw other refl) ∙ h,
    )
  ]

  all-Fresh :
      (seen : List Text) (a : OrderAllocation N) (xs : List (OrderAllocation N))
      → All (Fresh (a.warehouse_id ∷ seen)) xs
      → All (OtherId a) xs × All (Fresh seen) xs
  all-Fresh seen a [] h = (tt, tt)
  all-Fresh seen a (b ∷ xs) (first, h) =
      let (other, fresh) = not_seen seen a b first in
      let (others, rest) = all-Fresh seen a xs h in ((other, others), (fresh, rest))

  module _ (quantity : N) where
    assert_each-Fresh :
        (seen : List Text) (n : N) (xs : List (OrderAllocation N))
        → assert_each quantity seen n xs ≡ ok tt
        → All WellFormed xs
          × All (Fresh seen) xs
          × Ordered OtherId xs
          × (f.eq (total n xs) quantity ≡ true)
    unfolding assert_each
    assert_each-Fresh seen n [] h = (tt, tt, tt, ground arith)
    assert_each-Fresh seen n (a ∷ rest) h =
        let after : assert_each quantity (a.warehouse_id ∷ seen) (f.add n a.quantity) rest ≡ ok tt =
          ground arith in
        let (formed, fresh, distinct, sum) =
          assert_each-Fresh (a.warehouse_id ∷ seen) (f.add n a.quantity) rest after in
        let (others, unseen) = all-Fresh seen a rest fresh in
        let new : contains a.warehouse_id seen ≡ false = ground arith in
        let first : WellFormed a = (ground arith, ground arith, ground arith, ground arith) in
        ((first, formed), (new, unseen), (others, distinct), sum)

    -- Allocations that pass the check cover the quantity.
    pub assert_allocations-Covers :
        (xs : List (OrderAllocation N))
        → assert_allocations quantity xs ≡ ok tt
        → Covers quantity xs
    unfolding assert_allocations
    assert_allocations-Covers xs h =
        let (formed, _, distinct, sum) = assert_each-Fresh [] (whole 0) xs (ground arith) in
        record { some_given = ground arith; well_formed = formed; distinct = distinct; sum = sum }
