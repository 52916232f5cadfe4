-- ===== src/Persistence/Store/Placement.antt =====
-- A submission on the Prisma store, from the input to the tables.
use mathlib.Core.Path.{subst}
use scos.Prelude.{
  ℕ, ◌+◌, ◌≡◌, refl, sym, ap, ◌∙◌, false, false≢true, some, Text, List, map, sum_by, arith,
}
use scos.Js.{Floats, IsIeee, natural, natural_of_count}
use scos.Zod.{Zod, IsZod}
use scos.Decimal.{Decimals, IsExact}
use scos.Numeral.{Numerals, IsNumeral}
use scos.Shared.Errors.{ok}
use scos.Shipping.Allocation.{InventorySnapshot}
use scos.Ordering.Request.{OrderRequest}
use scos.Ordering.Estimate.{EstimateBase, Shipping, valid, estimate_order}
use scos.Ordering.Estimate.Covered.{estimate_order-fulfils}
use scos.Ordering.Order.{NewOrder, Order, order_allocation, create_order}
use scos.Ordering.Order.Accepted.{create_order-IsAcceptedFrom}
use scos.Ordering.Order.Allocations.{unit_pairs, all-Counted, sum_by-unit_pairs}
use scos.Ordering.Submit.{returns, SubmitOrderInput, accepted, parsed_input, attempt, submit_order}
use scos.Ordering.Submit.Laws.{is_new, not_new-of_stop, known-of_retried, submit_order-keeps}
use scos.Ordering.Submit.Attempts.{attempt-IsAttempted}
use scos.Persistence.Stock.{WarehouseStockRow, ResolvedOptions, to_inventory_snapshot, deduct}
use scos.Persistence.Stock.Laws.{row_stock, sum_by-deduct}
use scos.Persistence.Records.{PrismaDecimals}
use scos.Persistence.Client.{TransactionClient, PrismaClient, Tables, IsTransactionClient, IsPrisma}
use scos.Persistence.Store.{
  Session, order_data, find_order, create_transaction, run_work, prisma_store, settled,
  save_accepted_order,
}
use scos.Persistence.Store.Contract.{
  stored, settled-returns, run_work-returns, create_transaction-IsTransaction,
  prisma_store-IsTransactional,
}
use scos.Persistence.Store.Reads.{lock_inventory-returns}
use scos.Persistence.Store.Effects.{Placed, save_accepted_order-Placed}

module _ {N : Type 0} (D : Type 0) ⦃f : Floats N⦄ ⦃z : Zod N⦄ ⦃d : Decimals D⦄
    ⦃t : Numerals N D⦄ where
  -- The tables after a submission has placed an Order: it was created from a valid estimate of the
  -- request against the stock before, it is one more row, and its units have left the warehouses.
  pub record IsPlaced (key : Text) (request : OrderRequest N) (before after : Tables N)
      : Type 0 where
    pub order_number : Text
    pub base : EstimateBase N D
    pub shipping : Shipping N D
    pub order : NewOrder N D
    pub id : Text
    pub estimated :
        estimate_order request (to_inventory_snapshot before.warehouses) ≡ ok (valid base shipping)
    pub created : create_order order_number key (valid base shipping) ≡ ok order
    pub placed : Placed before after id (order_data order) (unit_pairs order.allocations)
    pub stock_taken :
        sum_by row_stock before.warehouses
        ≡ sum_by row_stock after.warehouses + natural request.quantity

module _ {N D : Type 0} ⦃f : Floats N⦄ ⦃z : Zod N⦄ ⦃d : Decimals D⦄ ⦃t : Numerals N D⦄ where
  module _ (ieee : IsIeee N) (schemas : IsZod N) (x : IsExact D)
      (numeral : IsNumeral N D ieee x) where
    -- The stock that a placed Order takes is the quantity of the request.
    takes_quantity :
        (request : OrderRequest N) (inventory : InventorySnapshot N) (base : EstimateBase N D)
        (s : Shipping N D) (order : NewOrder N D) (rows after : List (WarehouseStockRow N))
        → estimate_order request inventory ≡ ok (valid base s)
        → order.allocations ≡ map order_allocation s.allocations
        → deduct (unit_pairs order.allocations) rows ≡ some after
        → sum_by row_stock rows ≡ sum_by row_stock after + natural request.quantity
    takes_quantity request inventory base s order rows after estimated same taken =
        let (q, (counted, pos, le), fulfils) =
          estimate_order-fulfils ieee schemas x numeral base s request inventory estimated in
        let units =
          sum_by-unit_pairs ieee q s.allocations (omega (arith, fulfils)) (omega (arith, le)) in
        let read = natural_of_count request.quantity q counted in
        let sums = (sum_by-deduct (unit_pairs order.allocations) rows after taken).0 in
        let listed = ap (λ l. sum_by (λ a. a.1) (unit_pairs l)) same in
        omega (arith, sums, listed, units, fulfils, read)

    module _ {P V : Type 0} ⦃p : PrismaDecimals P⦄ (tables : V → Tables N) where
      attempt-IsPlaced :
          (c : TransactionClient N P V)
          → IsTransactionClient tables c
          → (order_number key : Text) (request : OrderRequest N) (w : Session V) (saved : Order N D)
          → (attempt {D = D} order_number key request (create_transaction c) w).0
            ≡ returns (accepted saved false)
          → IsPlaced D key request
              (stored tables w)
              (stored tables (attempt {D = D} order_number key request (create_transaction c) w).1)
      unfolding create_transaction find_order save_accepted_order
      attempt-IsPlaced c law order_number key request w saved h =
          let b = attempt-IsAttempted (create_transaction c) order_number key request saved w h in
          let reads = create_transaction-IsTransaction {D = D} tables (λ _. 0) c law in
          let locked_same = sym (ap (λ r. stored tables r.1) b.locks) ∙ reads.lock_reads w in
          let looked_same =
            sym (ap (λ r. stored tables r.1) b.free)
            ∙ reads.find_reads key b.locked
            ∙ locked_same in
          let inventory = lock_inventory-returns tables c w b.locked b.inventory law b.locks in
          let (base, s, is_valid, facts) =
            create_order-IsAcceptedFrom order_number key (valid b.base b.shipping) b.order
              b.created in
          let counted = all-Counted ieee b.order.allocations facts.covered.well_formed in
          let (held, (id, placed)) =
            save_accepted_order-Placed tables c law b.order b.looked_up saved counted b.saves in
          let from_start =
            subst
              (λ u.
                Placed u
                  (stored tables
                    (attempt {D = D} order_number key request (create_transaction c) w).1)
                  id (order_data b.order) (unit_pairs b.order.allocations))
              looked_same
              (subst
                (λ u.
                  Placed (stored tables b.looked_up) u id (order_data b.order)
                    (unit_pairs b.order.allocations))
                (sym (ap (stored tables) b.ends)) placed) in
          record {
            order_number = order_number;
            base = b.base;
            shipping = b.shipping;
            order = b.order;
            id = id;
            estimated = ap (estimate_order request) (sym inventory) ∙ b.estimated;
            created = b.created;
            placed = from_start;
            stock_taken =
                takes_quantity request b.inventory base s b.order _ _ (b.estimated ∙ ap ok is_valid)
                  facts.same_allocations from_start.1;
          }

      module _ (client : PrismaClient N P V) (transactions : V → ℕ)
          (law : IsPrisma tables client transactions) (resolved : ResolvedOptions N)
          (order_numbers : ℕ → Text) (max : ℕ) (input : SubmitOrderInput N) (key : Text)
          (request : OrderRequest N) (parsed : parsed_input input ≡ some (key, request))
          (start : Session V) where
        transaction-IsPlaced :
            (order_number : Text) (w : Session V) (saved : Order N D)
            → ((prisma_store client resolved).run_in_transaction
                (attempt order_number key request)
                w).0
              ≡ returns (accepted saved false)
            → IsPlaced D key request (stored tables w) (
                stored tables
                  ((prisma_store client resolved).run_in_transaction
                    (attempt {D = D} order_number key request)
                    w).1)
        unfolding prisma_store
        transaction-IsPlaced order_number w saved h =
            let work = run_work {D = D} resolved (attempt order_number key request) in
            let ran = client.transaction resolved.max_wait_ms resolved.timeout_ms work w.database in
            let (done, kept) = settled-returns tables ran (accepted saved false) h in
            let h =
              law.commits resolved.max_wait_ms resolved.timeout_ms work w.database
                (accepted saved false) done in
            let (u, worked, configured, ends) =
              run_work-returns tables resolved (attempt order_number key request) h.t h.before
                (accepted saved false) h.is_client h.ran in
            subst (λ v. IsPlaced D key request v (tables (settled ran).1)) (configured ∙ h.began)
              (subst (λ v. IsPlaced D key request (tables u) v)
                (sym (kept ∙ h.kept ∙ ap tables ends))
                (attempt-IsPlaced h.t h.is_client order_number key request
                  (record { database = u; locked = false }) saved worked))

        -- On the Prisma store, over a client whose transactions are atomic: a submission that returns
        -- a new Order has placed it. The tables have one more Order, which was created from a valid
        -- estimate of the request against the stock that was stored before, and the stock of all
        -- warehouses together has gone down by the quantity of the request.
        pub submit_order-IsPlaced :
            (saved : Order N D)
            → (submit_order (prisma_store client resolved) order_numbers max input start).0
              ≡ returns (accepted saved false)
            → IsPlaced D key request (stored tables start) (
                stored tables
                  (submit_order {D = D}
                    (prisma_store client resolved)
                    order_numbers
                    max
                    input
                    start).1)
        submit_order-IsPlaced saved h =
            let contract =
              prisma_store-IsTransactional {D = D} tables client transactions law resolved in
            submit_order-keeps (prisma_store client resolved) order_numbers key request
              (λ r.
                r.0 ≡ returns (accepted saved false)
                → IsPlaced D key request (stored tables start) (stored tables r.1))
              (λ n w. stored tables w ≡ stored tables start)
              (record {
                stop = λ n a w q old new.
                    absurd (false≢true (sym (not_new-of_stop a old) ∙ ap is_new new));
                lookup = λ n w q. contract.lookup_reads key w ∙ q;
                step_returns = λ n w m o q e new.
                    subst
                      (λ v. IsPlaced D key request v (
                        stored tables
                          ((prisma_store client resolved).run_in_transaction
                            (attempt {D = D} m key request) w).1))
                      q (transaction-IsPlaced m w saved new);
                step_fails = λ n w m e q h again.
                    contract.rolls_back (attempt m key request) w e h (known-of_retried e again)
                    ∙ q;
                step_stops =
                    λ n w m e q h _ new. absurd (false≢true (sym (ap is_new h) ∙ ap is_new new));
              })
              max input start parsed refl h
