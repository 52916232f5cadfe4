-- ===== src/Persistence/Client.antt =====
-- The Prisma client and the PostgreSQL database behind it, which the repository has no source for:
-- the calls that `packages/persistence/src/submission-store.ts` makes, and what it relies on of them.
use scos.Prelude.{
  ℕ, ◌+◌, ◌≤◌, ◌≡◌, ◌⊎◌, Bool, true, false, Option, some, is_some, List, [], ◌∷◌, Text, text_eq,
  if◌then◌else◌,
}
use scos.Js.{Floats}
use scos.Ordering.Submit.{Action, Failure, returns}
use scos.Persistence.Failures.{Thrown, is_typed}
use scos.Persistence.Failures.Reasons.{IsUncommitted}
use scos.Persistence.Stock.{WarehouseStockRow, update_stock, updated}

pub data Outcome (A : Type 0) : Type 0 where
  resolves : A → Outcome A
  rejects : Thrown → Outcome A

-- A call on the state `V` of the database and the connections.
abbrev pub Call : Type 0 → Type 0 → Type 0
Call V A = V → Outcome A × V

pub record AllocationRow (N : Type 0) : Type 0 where
  pub warehouse_id : Text
  pub warehouse_name : Text
  pub quantity : N

-- `OrderRow`, what `orderSelect` selects; `P` is Prisma.Decimal.
pub record OrderRow (N P : Type 0) : Type 0 where
  pub id : Text
  pub order_number : Text
  pub submission_key : Text
  pub quantity : N
  pub destination_latitude : N
  pub destination_longitude : N
  pub unit_price : P
  pub discount_rate : P
  pub discount_amount : P
  pub shipping_cost : P
  pub allocations : List (AllocationRow N)

-- The `data` of the insert.
pub record OrderData (N : Type 0) : Type 0 where
  pub order_number : Text
  pub submission_key : Text
  pub quantity : N
  pub destination_latitude : N
  pub destination_longitude : N
  pub unit_price : Text
  pub discount_rate : Text
  pub discount_amount : Text
  pub shipping_cost : Text
  pub allocations : List (Text × N)

pub record TransactionClient (N P V : Type 0) : Type 0 where
  pub set_timeouts : (lock_timeout_ms statement_timeout_ms : N) → Call V (Unit {0})
  pub lock_warehouses : Call V (List (WarehouseStockRow N))
  pub find_order : Text → Call V (Option (OrderRow N P))
  pub create_order : OrderData N → Call V Text
  pub update_stock : Text → N → Call V ℕ
  pub find_order_by_id : Text → Call V (OrderRow N P)

-- How `$transaction` ends: committed, after an error of its callback, or by an error of its own.
pub data Settled (A : Type 0) : Type 0 where
  committed : A → Settled A
  callback_failed : Failure → Settled A
  aborted : Thrown → Settled A

pub record PrismaClient (N P V : Type 0) : Type 1 where
  pub find_order : Text → Call V (Option (OrderRow N P))
  pub transaction :
      {A : Type 0}
      → (max_wait_ms timeout_ms : N) → (TransactionClient N P V → Action V A)
      → V
      → Settled A × V

-- What the tables hold: the warehouses by ascending ID, and the Orders with their IDs, the newest
-- one first.
pub record Tables (N : Type 0) : Type 0 where
  pub warehouses : List (WarehouseStockRow N)
  pub orders : List (Text × OrderData N)

-- Whether there is a row with this submission key.
abbrev pub has_key : {N : Type 0} → Text → List (Text × OrderData N) → Bool
has_key key [] = false
has_key key ((id, entry) ∷ rest) =
    if text_eq entry.submission_key key then true else has_key key rest

module _ {N P V : Type 0} ⦃f : Floats N⦄ (tables : V → Tables N) where
  -- The statements of one transaction, which has the warehouses to itself.
  pub record IsTransactionClient (t : TransactionClient N P V) : Type 0 where
    pub configures : (x y : N) (v : V) → tables (t.set_timeouts x y v).1 ≡ tables v
    pub locks : (v : V) → tables (t.lock_warehouses v).1 ≡ tables v
    pub locks_rows :
        (v : V) (rows : List (WarehouseStockRow N))
        → (t.lock_warehouses v).0 ≡ resolves rows
        → rows ≡ (tables v).warehouses
    pub finds : (key : Text) (v : V) → tables (t.find_order key v).1 ≡ tables v
    pub finds_row :
        (key : Text) (v : V) (row : Option (OrderRow N P))
        → (t.find_order key v).0 ≡ resolves row
        → is_some row ≡ has_key key (tables v).orders
    pub finds_by_id : (id : Text) (v : V) → tables (t.find_order_by_id id v).1 ≡ tables v
    pub inserts :
        (data_of : OrderData N) (v : V) (id : Text)
        → (t.create_order data_of v).0 ≡ resolves id
        → tables (t.create_order data_of v).1 ≡ record {
          warehouses = (tables v).warehouses;
          orders = (id, data_of) ∷ (tables v).orders;
        }
    pub updates :
        (id : Text) (quantity : N) (n k : ℕ) (v : V)
        → f.count quantity ≡ some n
        → (t.update_stock id quantity v).0 ≡ resolves k
        → (tables (t.update_stock id quantity v).1 ≡ record {
          warehouses = update_stock id n (tables v).warehouses;
          orders = (tables v).orders;
        })
          × (k ≡ updated id n (tables v).warehouses)

  -- The callback has returned in a transaction that started from `was`, and ended in `after`.
  pub record HasReturned {A : Type 0} (work : TransactionClient N P V → Action V A)
      (was after : Tables N) (a : A) : Type 0 where
    pub t : TransactionClient N P V
    pub before : V
    pub is_client : IsTransactionClient t
    pub began : tables before ≡ was
    pub ran : (work t before).0 ≡ returns a
    pub kept : after ≡ tables (work t before).1

  -- The client, where `transactions` is how many have been started: a read changes nothing; a
  -- transaction whose callback fails is rolled back, one that commits has run its callback. A
  -- `$transaction` that fails by itself throws none of the port's errors; it has committed nothing
  -- after the errors documented as uncommitted, and after any other the outcome of its COMMIT, which
  -- is only sent once the callback has returned, is not known.
  pub record IsPrisma (client : PrismaClient N P V) (transactions : V → ℕ) : Type 1 where
    pub reads : (key : Text) (v : V) → tables (client.find_order key v).1 ≡ tables v
    pub reads_outside :
        (key : Text) (v : V) → transactions (client.find_order key v).1 ≡ transactions v
    pub starts :
        {A : Type 0} (x y : N) (work : TransactionClient N P V → Action V A) (v : V)
        → transactions (client.transaction x y work v).1 ≤ transactions v + 1
    pub rolls_back_failed :
        {A : Type 0} (x y : N) (work : TransactionClient N P V → Action V A) (v : V) (e : Failure)
        → (client.transaction x y work v).0 ≡ callback_failed e
        → tables (client.transaction x y work v).1 ≡ tables v
    pub aborts_untyped :
        {A : Type 0} (x y : N) (work : TransactionClient N P V → Action V A) (v : V) (e : Thrown)
        → (client.transaction x y work v).0 ≡ aborted e
        → is_typed e ≡ false
    pub rolls_back_uncommitted :
        {A : Type 0} (x y : N) (work : TransactionClient N P V → Action V A) (v : V) (e : Thrown)
        → (client.transaction x y work v).0 ≡ aborted e
        → IsUncommitted e
        → tables (client.transaction x y work v).1 ≡ tables v
    pub may_commit :
        {A : Type 0} (x y : N) (work : TransactionClient N P V → Action V A) (v : V) (e : Thrown)
        → (client.transaction x y work v).0 ≡ aborted e
        → (tables (client.transaction x y work v).1 ≡ tables v)
          ⊎ (a : A) × HasReturned work (tables v) (tables (client.transaction x y work v).1) a
    pub commits :
        {A : Type 0} (x y : N) (work : TransactionClient N P V → Action V A) (v : V) (a : A)
        → (client.transaction x y work v).0 ≡ committed a
        → HasReturned work (tables v) (tables (client.transaction x y work v).1) a
