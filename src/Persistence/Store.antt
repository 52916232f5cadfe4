-- ===== src/Persistence/Store.antt =====
-- `packages/persistence/src/submission-store.ts`: the submission store over the Prisma client.
pub mod Reads
pub mod Contract
pub mod Effects
pub mod Placement
use scos.Prelude.{
  ℕ, Bool, true, false, not, Option, some, none, List, [], ◌∷◌, map, ◌==◌, if◌then◌else◌, Text,
}
use scos.Js.{Floats}
use scos.Zod.{Zod}
use scos.Decimal.{Decimals}
use scos.Shared.Errors.{Result, ok, throws}
use scos.Shared.Money
use scos.Shipping.Allocation.{InventorySnapshot}
use scos.Ordering.Order.{Order, NewOrder, OrderAllocation, StoredOrder}
use scos.Ordering.Order.Amounts.{restore_order}
use scos.Ordering.Submit.{
  Failure, key_taken, transient, unexpected, Attempt, returns, fails, Action, pure, and_then,
  compute, SubmissionTransaction, SubmissionStore,
}
use scos.Persistence.Failures.{
  Thrown, submission_key_taken, transient_submission, classify_submission_error,
}
use scos.Persistence.Stock.{
  WarehouseStockRow, to_inventory_snapshot, assert_allocations_cover_quantity,
  PrismaSubmissionStoreOptions, ResolvedOptions, resolve_options,
}
use scos.Persistence.Records.{PrismaDecimals, ◌then_maybe◌, format_money, format_discount_rate}
use scos.Persistence.Client.{
  Outcome, resolves, rejects, Call, AllocationRow, OrderRow, OrderData, TransactionClient, Settled,
  committed, callback_failed, aborted, PrismaClient,
}

-- What a classified error is for the port.
abbrev pub failure_of : Thrown → Failure
failure_of submission_key_taken = key_taken
failure_of transient_submission = transient
failure_of _ = unexpected

abbrev pub classified_result : {A V : Type 0} → Outcome A × V → Attempt A × V
classified_result (resolves a, v) = (returns a, v)
classified_result (rejects e, v) = (fails (failure_of (classify_submission_error e)), v)

-- `classified`
unfoldable pub classified : {A V : Type 0} → Call V A → Action V A
classified call v = classified_result (call v)

-- The state with the flag `locked` of the transaction that is open.
pub record Session (V : Type 0) : Type 0 where
  pub database : V
  pub locked : Bool

abbrev pub in_session : {A V : Type 0} → Bool → Attempt A × V → Attempt A × Session V
in_session flag (a, v) = (a, record { database = v; locked = flag })

-- A call that leaves the flag as it is.
abbrev pub on_database : {A V : Type 0} → Action V A → Action (Session V) A
on_database call w = in_session w.locked (call w.database)

-- `requireLock` before a call
abbrev pub require_lock : {A V : Type 0} → Action (Session V) A → Action (Session V) A
require_lock call w = if not w.locked then (fails unexpected, w) else call w

abbrev pub leave_session : {A V : Type 0} → Attempt A × Session V → Attempt A × V
leave_session (a, w) = (a, w.database)

-- The outer `catch`. An error of the callback has been classified or is none that would be.
abbrev pub settled : {A V : Type 0} → Settled A × V → Attempt A × V
settled (committed a, v) = (returns a, v)
settled (callback_failed e, v) = (fails e, v)
settled (aborted e, v) = (fails (failure_of (classify_submission_error e)), v)

-- A text that was formatted; an Error otherwise.
abbrev pub formatted : {A V : Type 0} → Option A → Action V A
formatted none v = (fails unexpected, v)
formatted (some t) v = (returns t, v)

abbrev pub domain_allocation : {N : Type 0} → AllocationRow N → OrderAllocation N
domain_allocation a = record {
  warehouse_id = a.warehouse_id;
  warehouse_name = a.warehouse_name;
  quantity = a.quantity;
}

-- The argument of `restoreOrder`.
abbrev pub stored_order :
    {N P : Type 0} ⦃p : PrismaDecimals P⦄ → OrderRow N P → Option (StoredOrder N)
stored_order row = format_money row.unit_price then_maybe λ unit_price.
    format_discount_rate row.discount_rate then_maybe λ discount_rate.
    format_money row.discount_amount then_maybe λ discount_amount.
    format_money row.shipping_cost then_maybe λ shipping_cost. some (record {
      id = row.id;
      order_number = row.order_number;
      submission_key = row.submission_key;
      quantity = row.quantity;
      destination = record {
        latitude = row.destination_latitude;
        longitude = row.destination_longitude;
      };
      unit_price = unit_price;
      discount_rate = discount_rate;
      discount_amount = discount_amount;
      shipping_cost = shipping_cost;
      allocations = map domain_allocation row.allocations;
    })

abbrev pub allocation_data : {N : Type 0} → OrderAllocation N → Text × N
allocation_data a = (a.warehouse_id, a.quantity)

module _ {N D : Type 0} ⦃d : Decimals D⦄ where
  -- The `data` of `tx.order.create`.
  abbrev pub order_data : NewOrder N D → OrderData N
  order_data order = record {
    order_number = order.order_number;
    submission_key = order.submission_key;
    quantity = order.quantity;
    destination_latitude = order.destination.latitude;
    destination_longitude = order.destination.longitude;
    unit_price = Money.to_string order.unit_price;
    discount_rate = order.discount_rate;
    discount_amount = Money.to_string order.discount_amount;
    shipping_cost = Money.to_string order.shipping_cost;
    allocations = map allocation_data order.allocations;
  }

-- The test of the loop's body, before the next deduction.
abbrev pub require_one : {A V : Type 0} → ℕ → Action V A → Action V A
require_one updated next v = if not (updated == 1) then (fails unexpected, v) else next v

module _ {N P V : Type 0} where
  -- The loop of guarded deductions.
  unfoldable pub deduct_each :
      TransactionClient N P V → List (OrderAllocation N) → Action V (Unit {0})
  unfolding classified
  deduct_each t [] = pure tt
  deduct_each t (a ∷ rest) =
      and_then (classified (t.update_stock a.warehouse_id a.quantity))
        λ updated. require_one updated (deduct_each t rest)

  -- `lockInventory`
  unfoldable pub lock_inventory :
      ⦃f : Floats N⦄ → TransactionClient N P V → Action (Session V) (InventorySnapshot N)
  unfolding classified
  lock_inventory t w =
      and_then (on_database (classified t.lock_warehouses))
        (λ rows v.
          (returns (to_inventory_snapshot rows), record { database = v.database; locked = true }))
        w

module _ {N D P V : Type 0} ⦃f : Floats N⦄ ⦃z : Zod N⦄ ⦃d : Decimals D⦄ ⦃p : PrismaDecimals P⦄ where
  -- `toDomainOrder`
  unfoldable pub to_domain_order : OrderRow N P → Action V (Order N D)
  to_domain_order row =
      and_then (formatted (stored_order row)) λ stored. compute (restore_order stored)

  abbrev pub to_domain_or_null : Option (OrderRow N P) → Action V (Option (Order N D))
  to_domain_or_null none = pure none
  to_domain_or_null (some row) = and_then (to_domain_order row) λ order. pure (some order)

  -- `findOrder` within `classified`: an error of the mapping is none of those that are classified.
  unfoldable pub find_order : Call V (Option (OrderRow N P)) → Action V (Option (Order N D))
  unfolding classified to_domain_order
  find_order find_unique = and_then (classified find_unique) to_domain_or_null

  -- The statements of `saveAcceptedOrder`.
  unfoldable pub persist_order : TransactionClient N P V → NewOrder N D → Action V (Order N D)
  unfolding classified deduct_each to_domain_order
  persist_order t order = and_then (classified (t.create_order (order_data order))) λ id.
      and_then (deduct_each t order.allocations)
        λ _. and_then (classified (t.find_order_by_id id)) to_domain_order

  unfoldable pub save_accepted_order :
      TransactionClient N P V → NewOrder N D → Action (Session V) (Order N D)
  unfolding persist_order
  save_accepted_order t order = require_lock λ w.
      if not (assert_allocations_cover_quantity order)
      then (fails unexpected, w)
      else on_database (persist_order t order) w

  -- `createTransaction`
  unfoldable pub create_transaction :
      TransactionClient N P V → SubmissionTransaction N D (Session V)
  unfolding find_order lock_inventory save_accepted_order
  create_transaction t = record {
    lock_inventory = lock_inventory t;
    find_order_by_submission_key =
        λ key. require_lock (on_database (find_order (t.find_order key)));
    save_accepted_order = save_accepted_order t;
  }

  -- The callback of `$transaction`: a transaction starts without the lock.
  unfoldable pub run_work :
      {A : Type 0}
      → ResolvedOptions N
      → (SubmissionTransaction N D (Session V) → Action (Session V) A)
      → TransactionClient N P V
      → Action V A
  unfolding classified create_transaction
  run_work resolved work t =
      and_then (classified (t.set_timeouts resolved.lock_timeout_ms resolved.timeout_ms))
        λ _ v. leave_session (work (create_transaction t) (record { database = v; locked = false }))

  unfoldable pub prisma_store :
      PrismaClient N P V → ResolvedOptions N → SubmissionStore N D (Session V)
  unfolding find_order run_work
  prisma_store client resolved = record {
    find_order_by_submission_key = λ key. on_database (find_order (client.find_order key));
    run_in_transaction = λ work. on_database λ v.
        settled
          (client.transaction resolved.max_wait_ms resolved.timeout_ms (run_work resolved work) v);
  }

  -- `createPrismaSubmissionStore`; `none` is the RangeError of the options.
  unfoldable pub create_prisma_submission_store :
      PrismaClient N P V → PrismaSubmissionStoreOptions N → Option (SubmissionStore N D (Session V))
  unfolding prisma_store
  create_prisma_submission_store client options =
      resolve_options options then_maybe λ resolved. some (prisma_store client resolved)
