-- ===== src/Persistence/Store/Effects.antt =====
-- What saving an Order through the Prisma store does to the tables.
use mathlib.Core.Path.{subst}
use scos.Prelude.{
  Bool, not, ℕ, ◌≡◌, refl, sym, ap, ◌∙◌, true, false, some, List, [], ◌∷◌, All, Text, ◌==◌,
  if◌then◌else◌, ==_iff, arith, Bool-cases, inl, inr,
}
use scos.Js.{Floats, natural}
use scos.Zod.{Zod}
use scos.Decimal.{Decimals}
use scos.Ordering.Order.{Order, NewOrder, OrderAllocation}
use scos.Ordering.Order.Allocations.{Counted, unit_pairs}
use scos.Ordering.Submit.{Action, returns, fails, unexpected}
use scos.Ordering.Submit.Laws.{continue_with-returns}
use scos.Persistence.Stock.{
  WarehouseStockRow, deduct, update_stock, updated, assert_allocations_cover_quantity,
}
use scos.Persistence.Records.{PrismaDecimals}
use scos.Persistence.Client.{OrderData, TransactionClient, Tables, IsTransactionClient}
use scos.Persistence.Store.{
  classified_result, classified, Session, order_data, deduct_each, require_one, persist_order,
  on_database, save_accepted_order,
}
use scos.Persistence.Store.Reads.{classified-returns}
use scos.Persistence.Store.Contract.{to_domain_order-keeps, stored}

require_one-returns :
    {A V : Type 0} (n : ℕ) (next : Action V A) (v : V) (a : A)
    → (require_one n next v).0 ≡ returns a
    → (n ≡ 1) × (require_one n next v ≡ next v)
require_one-returns n next v a h = elim (Bool-cases (n == 1)) [
  | inl one ↦ ((==_iff n 1).0 one, rw one refl)
  | inr other ↦ absurd (ground arith)
]

-- Two guards before a call.
guarded-returns :
    {A W : Type 0} (flag covers : Bool) (w : W) (call : Action W A) (a : A)
    → (if not flag
        then (fails unexpected, w)
        else if not covers
        then (fails unexpected, w)
        else call w).0
      ≡ returns a
    → (flag ≡ true)
      × ((if not flag
            then (fails unexpected, w)
            else if not covers
            then (fails unexpected, w)
            else call w)
          ≡ call w)
guarded-returns true true w call a h = (refl, refl)
guarded-returns true false w call a h = cc
guarded-returns false covers w call a h = cc

-- A deduction that updates one row, before the others.
deduct-step :
    {N : Type 0} (id : Text) (n : ℕ) (rest : List (Text × ℕ)) (rows : List (WarehouseStockRow N))
    → updated id n rows ≡ 1
    → deduct ((id, n) ∷ rest) rows ≡ deduct rest (update_stock id n rows)
unfolding deduct
deduct-step id n rest rows one = rw one refl

-- The tables after a transaction that has saved an Order under an ID.
abbrev pub Placed :
    {N : Type 0} → Tables N → Tables N → Text → OrderData N → List (Text × ℕ) → Type 0
Placed before after id entry units =
    (after.orders ≡ (id, entry) ∷ before.orders)
    × (deduct units before.warehouses ≡ some after.warehouses)

module _ {N P V : Type 0} ⦃f : Floats N⦄ (tables : V → Tables N) (t : TransactionClient N P V)
    (law : IsTransactionClient tables t) where
  deduct_each-deducts :
      (xs : List (OrderAllocation N)) (v : V)
      → All Counted xs
      → (deduct_each t xs v).0 ≡ returns tt
      → (deduct (unit_pairs xs) (tables v).warehouses
          ≡ some (tables (deduct_each t xs v).1).warehouses)
        × ((tables (deduct_each t xs v).1).orders ≡ (tables v).orders)
  unfolding deduct_each deduct classified
  deduct_each-deducts [] v c h = (refl, refl)
  deduct_each-deducts (a ∷ rest) v (counted, c) h =
      let n = natural a.quantity in
      let (k, u, e, more, ends) =
        continue_with-returns (classified_result (t.update_stock a.warehouse_id a.quantity v)) _
          h in
      let (done, state) = classified-returns _ k u e in
      let (changed, count) = law.updates a.warehouse_id a.quantity n k v counted done in
      let (one, next) = require_one-returns k (deduct_each t rest) u tt more in
      let (rows, orders) = deduct_each-deducts rest u c (sym (ap (λ r. r.0) next) ∙ more) in
      let now = sym (ap tables state) ∙ changed in
      let last = ap (λ r. tables r.1) (ends ∙ next) in
      (
        deduct-step a.warehouse_id n (unit_pairs rest) (tables v).warehouses (sym count ∙ one)
            ∙ ap (λ s. deduct (unit_pairs rest) s.warehouses) (sym now)
            ∙ rows
            ∙ ap (λ s. some s.warehouses) (sym last),
        ap (λ s. s.orders) last ∙ orders ∙ ap (λ s. s.orders) now,
      )

module _ {N D P V : Type 0} ⦃f : Floats N⦄ ⦃z : Zod N⦄ ⦃d : Decimals D⦄ ⦃p : PrismaDecimals P⦄
    (tables : V → Tables N) (t : TransactionClient N P V) (law : IsTransactionClient tables t) where
  persist_order-Placed :
      (order : NewOrder N D) (v : V) (saved : Order N D)
      → All Counted order.allocations
      → (persist_order t order v).0 ≡ returns saved
      → (id : Text) × Placed
          (tables v)
          (tables (persist_order t order v).1)
          id
          (order_data order)
          (unit_pairs order.allocations)
  unfolding persist_order classified
  persist_order-Placed order v saved counted h =
      let created = t.create_order (order_data order) v in
      let (id, u, e, rest, ends) = continue_with-returns (classified_result created) _ h in
      let (done, state) = classified-returns created id u e in
      let now = sym (ap tables state) ∙ law.inserts (order_data order) v id done in
      let (unit, u', e', rest', ends') =
        continue_with-returns (deduct_each t order.allocations u) _ rest in
      let (rows, orders) =
        deduct_each-deducts tables t law order.allocations u counted (ap (λ r. r.0) e') in
      let found = t.find_order_by_id id u' in
      let (row, u'', e'', rest'', ends'') =
        continue_with-returns (classified_result found) _ rest' in
      let (done'', state'') = classified-returns found row u'' e'' in
      let deducted = ap (λ r. tables r.1) e' in
      let last =
        ap (λ r. tables r.1) (ends ∙ ends' ∙ ends'')
        ∙ to_domain_order-keeps tables D row u''
        ∙ sym (ap tables state'')
        ∙ law.finds_by_id id u'
        ∙ sym deducted in
      (
        id,
        (
          ap (λ s. s.orders) last ∙ orders ∙ ap (λ s. s.orders) now,
          ap (λ s. deduct (unit_pairs order.allocations) s.warehouses) (sym now)
              ∙ rows
              ∙ ap (λ s. some s.warehouses) (sym last),
        ),
      )

  -- If an Order of whole quantities is saved, the lock was held, the Order is one more row, and its
  -- units have been deducted from the warehouses.
  pub save_accepted_order-Placed :
      (order : NewOrder N D) (w : Session V) (saved : Order N D)
      → All Counted order.allocations
      → (save_accepted_order t order w).0 ≡ returns saved
      → (w.locked ≡ true)
        × ((id : Text) × Placed
              (stored tables w)
              (stored tables (save_accepted_order t order w).1)
              id
              (order_data order)
              (unit_pairs order.allocations))
  unfolding save_accepted_order
  save_accepted_order-Placed order w saved counted h =
      let call = on_database (persist_order t order) in
      let (held, runs) =
        guarded-returns w.locked (assert_allocations_cover_quantity order) w call saved h in
      let (id, placed) =
        persist_order-Placed order w.database saved counted (sym (ap (λ r. r.0) runs) ∙ h) in
      (
        held,
        (
          id,
          subst
              (λ s. Placed (stored tables w) s id (order_data order) (unit_pairs order.allocations))
              (sym (ap (λ r. stored tables r.1) runs)) placed,
        ),
      )
