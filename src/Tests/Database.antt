-- ===== src/Tests/Database.antt =====
-- A database in memory behind the Prisma client, and a submission on it.
use scos.Prelude.{
  sym, ◌∙◌, is_some, Bool-cases, inl, inr, ℕ, suc, ◌+◌, ◌≤◌, ◌≡◌, refl, ap, Option, some, none,
  List, [], ◌∷◌, map, codes, Text, text_eq, if◌then◌else◌, arith,
}
use scos.Js.Fixed.{Fixed, fixed_floats, count_fixed}
use scos.Zod.Plain.{plain_zod}
use scos.Decimal.Exact.{Exact, exact_decimals}
use scos.Decimal.Plain.{decimal_of_text}
use scos.Numeral.Plain.{fixed_numerals}
use scos.Ordering.Submit.{Attempt, returns, fails}
use scos.Persistence.Failures.{not_an_error}
use scos.Persistence.Stock.{update_stock, updated}
use scos.Persistence.Records.{PrismaDecimals}
use scos.Persistence.Client.{
  Outcome, resolves, rejects, AllocationRow, OrderRow, OrderData, TransactionClient, Settled,
  committed, callback_failed, PrismaClient, Tables, has_key, IsTransactionClient, IsPrisma,
}

instance abbrev pub exact_prisma : PrismaDecimals Exact
exact_prisma = record {
  of_text = decimal_of_text;
  is_finite = exact_decimals.is_finite;
  decimal_places = exact_decimals.decimal_places;
  to_fixed = exact_decimals.to_fixed;
  abs = exact_decimals.abs;
  greater_than = exact_decimals.greater_than;
  minus = exact_decimals.minus;
  plus = exact_decimals.plus;
}

pub record Memory : Type 0 where
  pub tables : Tables Fixed
  pub started : ℕ

abbrev pub tables_of : Memory → Tables Fixed
tables_of m = m.tables

abbrev pub started_of : Memory → ℕ
started_of m = m.started

abbrev with_name : Text × Fixed → AllocationRow Fixed
with_name (id, quantity) = record {
  warehouse_id = id;
  warehouse_name = codes "Hong Kong";
  quantity = quantity;
}

abbrev row_of : Text → OrderData Fixed → OrderRow Fixed Exact
row_of id entry = record {
  id = id;
  order_number = entry.order_number;
  submission_key = entry.submission_key;
  quantity = entry.quantity;
  destination_latitude = entry.destination_latitude;
  destination_longitude = entry.destination_longitude;
  unit_price = decimal_of_text entry.unit_price;
  discount_rate = decimal_of_text entry.discount_rate;
  discount_amount = decimal_of_text entry.discount_amount;
  shipping_cost = decimal_of_text entry.shipping_cost;
  allocations = map with_name entry.allocations;
}

abbrev find_row : Text → List (Text × OrderData Fixed) → Option (OrderRow Fixed Exact)
find_row key [] = none
find_row key ((id, entry) ∷ rest) =
    if text_eq entry.submission_key key then some (row_of id entry) else find_row key rest

abbrev find_row_by_id : Text → List (Text × OrderData Fixed) → Outcome (OrderRow Fixed Exact)
find_row_by_id wanted [] = rejects not_an_error
find_row_by_id wanted ((id, entry) ∷ rest) =
    if text_eq id wanted then resolves (row_of id entry) else find_row_by_id wanted rest

abbrev add_order : OrderData Fixed → Memory → Memory
add_order entry m = record {
  tables = record {
    warehouses = m.tables.warehouses;
    orders = (codes "1", entry) ∷ m.tables.orders;
  };
  started = m.started;
}

abbrev update_rows : Text → Option ℕ → Memory → Outcome ℕ × Memory
update_rows id none m = (rejects not_an_error, m)
update_rows id (some n) m = (
  resolves (updated id n m.tables.warehouses),
  record {
    tables = record {
      warehouses = update_stock id n m.tables.warehouses;
      orders = m.tables.orders;
    };
    started = m.started;
  },
)

abbrev memory_transaction : TransactionClient Fixed Exact Memory
memory_transaction = record {
  set_timeouts = λ x y m. (resolves tt, m);
  lock_warehouses = λ m. (resolves m.tables.warehouses, m);
  find_order = λ key m. (resolves (find_row key m.tables.orders), m);
  create_order = λ entry m. (resolves (codes "1"), add_order entry m);
  update_stock = λ id quantity m. update_rows id (count_fixed quantity) m;
  find_order_by_id = λ id m. (find_row_by_id id m.tables.orders, m);
}

abbrev settle : {A : Type 0} → Memory → Attempt A × Memory → Settled A × Memory
settle m (returns a, n) = (committed a, record { tables = n.tables; started = suc m.started })
settle m (fails e, n) = (callback_failed e, record { tables = m.tables; started = suc m.started })

abbrev pub memory_client : PrismaClient Fixed Exact Memory
memory_client = record {
  find_order = λ key m. (resolves (find_row key m.tables.orders), m);
  transaction = λ x y work m. settle m (work memory_transaction m);
}

update_rows_lem :
    (id : Text) (o : Option ℕ) (n k : ℕ) (m : Memory)
    → o ≡ some n
    → (update_rows id o m).0 ≡ resolves k
    → ((update_rows id o m).1.tables
        ≡ record { warehouses = update_stock id n m.tables.warehouses; orders = m.tables.orders })
      × (k ≡ updated id n m.tables.warehouses)
update_rows_lem id none n k m h e = cc
update_rows_lem id (some l) n k m h e = let same : l ≡ n = cc in rw (← same) (refl, cc)

find_row-has_key :
    (key : Text) (os : List (Text × OrderData Fixed)) → is_some (find_row key os) ≡ has_key key os
find_row-has_key key [] = refl
find_row-has_key key ((id, entry) ∷ rest) = elim (Bool-cases (text_eq entry.submission_key key)) [
  | inl same ↦ rw same refl
  | inr other ↦ rw other (find_row-has_key key rest)
]

memory_transaction-IsTransactionClient : IsTransactionClient tables_of memory_transaction
memory_transaction-IsTransactionClient = record {
  configures = λ x y v. refl;
  locks = λ v. refl;
  locks_rows = λ v rows h. cc;
  finds = λ key v. refl;
  finds_row = λ key v row h.
      let same : find_row key v.tables.orders ≡ row = cc in
      sym (ap is_some same) ∙ find_row-has_key key v.tables.orders;
  finds_by_id = λ id v. refl;
  inserts = λ entry v id h.
      let same : codes "1" ≡ id = cc in
      ap (λ i. record { warehouses = v.tables.warehouses; orders = (i, entry) ∷ v.tables.orders })
        same;
  updates = λ id quantity n k v h e. update_rows_lem id (count_fixed quantity) n k v h e;
}

settle-one :
    {A : Type 0} (m : Memory) (r : Attempt A × Memory) → (settle m r).1.started ≤ m.started + 1
settle-one m (returns a, n) = omega arith
settle-one m (fails e, n) = omega arith

settle-kept :
    {A : Type 0} (m : Memory) (r : Attempt A × Memory) (e : _)
    → (settle m r).0 ≡ callback_failed e
    → (settle m r).1.tables ≡ m.tables
settle-kept m (returns a, n) e h = cc
settle-kept m (fails x, n) e h = refl

settle-aborted :
    {A : Type 0} (m : Memory) (r : Attempt A × Memory) (e : _)
    → (settle m r).0 ≡ Settled.aborted e
    → ⊥
settle-aborted m (returns a, n) e h = cc
settle-aborted m (fails x, n) e h = cc

settle-committed :
    {A : Type 0} (m : Memory) (r : Attempt A × Memory) (a : A)
    → (settle m r).0 ≡ committed a
    → (r.0 ≡ returns a) × ((settle m r).1.tables ≡ r.1.tables)
settle-committed m (returns b, n) a h = (ground arith, refl)
settle-committed m (fails x, n) a h = cc

pub memory_client-IsPrisma : IsPrisma tables_of memory_client started_of
memory_client-IsPrisma = record {
  reads = λ key v. refl;
  reads_outside = λ key v. refl;
  starts = λ x y work v. settle-one v (work memory_transaction v);
  rolls_back_failed = λ x y work v e h. settle-kept v (work memory_transaction v) e h;
  aborts_untyped = λ x y work v e h. absurd (settle-aborted v (work memory_transaction v) e h);
  rolls_back_uncommitted =
      λ x y work v e h _. absurd (settle-aborted v (work memory_transaction v) e h);
  may_commit = λ x y work v e h. absurd (settle-aborted v (work memory_transaction v) e h);
  commits = λ x y work v a h.
      let (ran, kept) = settle-committed v (work memory_transaction v) a h in
      record {
        t = memory_transaction;
        before = v;
        is_client = memory_transaction-IsTransactionClient;
        began = refl;
        ran = ran;
        kept = kept;
      };
}
