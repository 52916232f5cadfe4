-- ===== src/Persistence/Store/Reads.antt =====
-- What the reads of a transaction of the Prisma store answer.
use scos.Prelude.{
  Bool, not, ◌≡◌, refl, sym, ap, ◌∙◌, true, false, some, none, Option, is_some, Text, if◌then◌else◌,
  arith,
}
use scos.Js.{Floats}
use scos.Zod.{Zod}
use scos.Decimal.{Decimals}
use scos.Shipping.Allocation.{InventorySnapshot}
use scos.Ordering.Order.{Order}
use scos.Ordering.Submit.{Attempt, returns, fails, unexpected}
use scos.Ordering.Submit.Laws.{continue_with-returns}
use scos.Persistence.Stock.{to_inventory_snapshot}
use scos.Persistence.Records.{PrismaDecimals}
use scos.Persistence.Client.{
  Outcome, resolves, rejects, OrderRow, has_key, TransactionClient, Tables, IsTransactionClient,
}
use scos.Persistence.Store.{
  classified_result, classified, Session, on_database, in_session, require_lock, find_order,
  to_domain_order, to_domain_or_null, lock_inventory,
}

pub classified-returns :
    {A V : Type 0} (r : Outcome A × V) (a : A) (v : V)
    → classified_result r ≡ (returns a, v)
    → (r.0 ≡ resolves a) × (r.1 ≡ v)
classified-returns (resolves b, u) a v h = (ground arith, ap (λ r. r.1) h)
classified-returns (rejects e, u) a v h = cc

in_session-returns :
    {A V : Type 0} (flag : Bool) (r : Outcome A × V) (a : A) (w : Session V)
    → in_session flag (classified_result r) ≡ (returns a, w)
    → r.0 ≡ resolves a
in_session-returns flag (resolves b, u) a w h = ground arith
in_session-returns flag (rejects e, u) a w h = cc

-- The snapshot that was locked is the stock of the tables.
pub lock_inventory-returns :
    {N P V : Type 0} ⦃f : Floats N⦄ (tables : V → Tables N) (t : TransactionClient N P V)
    (w v : Session V) (inventory : InventorySnapshot N)
    → IsTransactionClient tables t
    → lock_inventory t w ≡ (returns inventory, v)
    → inventory ≡ to_inventory_snapshot (tables w.database).warehouses
unfolding lock_inventory classified
lock_inventory-returns tables t w v inventory law h =
    let (rows, u, e, rest, _) =
      continue_with-returns (on_database (classified t.lock_warehouses) w) _ (ap (λ r. r.0) h) in
    let resolved = in_session-returns w.locked (t.lock_warehouses w.database) rows u e in
    let same : to_inventory_snapshot rows ≡ inventory = cc in
    sym same ∙ ap to_inventory_snapshot (law.locks_rows w.database rows resolved)

module _ {N P V : Type 0} (D : Type 0) ⦃f : Floats N⦄ ⦃z : Zod N⦄ ⦃d : Decimals D⦄
    ⦃p : PrismaDecimals P⦄ where
  mapped-same :
      (row : Option (OrderRow N P)) (v : V) (o : Option (Order N D))
      → (to_domain_or_null row v).0 ≡ returns o
      → is_some o ≡ is_some row
  mapped-same none v o h = let same : none ≡ o = ground arith in rw (← same) refl
  mapped-same (some row) v o h =
      let (order, u, _, rest, _) = continue_with-returns (to_domain_order row v) _ h in
      let same : some order ≡ o = ground arith in rw (← same) refl

  -- A lookup finds an Order exactly if there is a row with the key.
  pub find_order-answers :
      (tables : V → Tables N) (t : TransactionClient N P V)
      → IsTransactionClient tables t
      → (key : Text) (w : Session V) (o : Option (Order N D))
      → (require_lock (on_database (find_order (t.find_order key))) w).0 ≡ returns o
      → is_some o ≡ has_key key (tables w.database).orders
  unfolding find_order classified
  find_order-answers tables t law key w o h =
      let (row, v, e, rest, _) =
        continue_with-returns (classified_result (t.find_order key w.database)) _
          (held w.locked (find_order (t.find_order key) w.database) h) in
      let (found, _) = classified-returns _ row v e in
      mapped-same row v o rest ∙ law.finds_row key w.database row found
    where
      held :
          (flag : Bool) (r : Attempt (Option (Order N D)) × V)
          → (if not flag then (fails unexpected, w) else in_session w.locked r).0 ≡ returns o
          → r.0 ≡ returns o
      held true r h = h
      held false r h = cc
