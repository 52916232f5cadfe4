-- ===== src/Persistence/Store/Contract.antt =====
-- The Prisma store against the contract of the port.
use scos.Prelude.{
  Bool, true, false≢true, ◌+◌, ◌≤◌, ◌⊎◌, not, if◌then◌else◌, ℕ, ◌≡◌, refl, sym, ap, ◌∙◌, false,
  Option, some, none, arith, Option-cases, inl, inr,
}
use scos.Js.{Floats}
use scos.Zod.{Zod}
use scos.Decimal.{Decimals}
use scos.Ordering.Order.{StoredOrder}
use scos.Ordering.Submit.{
  Failure, Attempt, returns, fails, unexpected, Action, continue_with, compute,
  SubmissionTransaction, SubmissionStore,
}
use scos.Ordering.Order.Amounts.{restore_order}
use scos.Ordering.Submit.Laws.{
  is_known, StoreView, IsTransaction, HasRun, IsTransactional, continue_with-returns,
}
use scos.Persistence.Failures.{
  Thrown, submission_key_taken, transient_submission, pg_error, prisma_error, plain_error,
  not_an_error, is_typed, classify_submission_error,
}
use scos.Persistence.Failures.Reasons.{IsUncommitted}
use scos.Persistence.Failures.Laws.{
  Classified, as_taken, as_transient, unchanged, classify_submission_error-Classified,
}
use scos.Persistence.Store.Reads.{lock_inventory-returns, find_order-answers}
use scos.Persistence.Stock.{
  PrismaSubmissionStoreOptions, ResolvedOptions, resolve_options, to_inventory_snapshot,
}
use scos.Persistence.Records.{PrismaDecimals}
use scos.Persistence.Client.{
  Outcome, resolves, rejects, Call, OrderRow, TransactionClient, Settled, committed,
  callback_failed, aborted, PrismaClient, Tables, has_key, HasReturned, IsTransactionClient,
  IsPrisma,
}
use scos.Persistence.Store.{
  failure_of, classified_result, classified, Session, settled, stored_order, to_domain_order,
  to_domain_or_null, find_order, lock_inventory, create_transaction, run_work, on_database,
  require_lock, prisma_store, create_prisma_submission_store,
}

-- An error that the port may not report as unexpected is one after which nothing is committed.
known-IsUncommitted :
    (x : Thrown)
    → is_typed x ≡ false
    → is_known (failure_of (classify_submission_error x)) ≡ true
    → IsUncommitted x
known-IsUncommitted x untyped known =
    go x (classify_submission_error x) (classify_submission_error-Classified x) untyped known
  where
    kept : (x : Thrown) → is_typed x ≡ false → is_known (failure_of x) ≡ true → IsUncommitted x
    kept submission_key_taken h k = absurd (false≢true (sym h))
    kept transient_submission h k = absurd (false≢true (sym h))
    kept (pg_error m c l) h k = absurd (false≢true k)
    kept (prisma_error c m l) h k = absurd (false≢true k)
    kept (plain_error m) h k = absurd (false≢true k)
    kept not_an_error h k = absurd (false≢true k)

    go :
        (x y : Thrown)
        → Classified x y
        → is_typed x ≡ false
        → is_known (failure_of y) ≡ true
        → IsUncommitted x
    go x _ (as_taken n taken) h k = inr taken
    go x _ (as_transient transient) h k = inl transient
    go x _ (unchanged t n) h k = kept x h k

-- A view of the state that a chain of calls keeps.
module _ {V X : Type 0} (view : V → X) where
  continue_with-keeps :
      {A B : Type 0} (was : X) (r : Attempt A × V) (k : A → Action V B)
      → view r.1 ≡ was
      → ((a : A) (v : V) → view v ≡ was → view (k a v).1 ≡ was)
      → view (continue_with r k).1 ≡ was
  continue_with-keeps was (returns a, v) k q g = g a v q
  continue_with-keeps was (fails e, v) k q g = q

  pub classified-keeps :
      {A : Type 0} (was : X) (r : Outcome A × V)
      → view r.1 ≡ was
      → view (classified_result r).1 ≡ was
  classified-keeps was (resolves a, v) q = q
  classified-keeps was (rejects e, v) q = q

  module _ {N P : Type 0} (D : Type 0) ⦃f : Floats N⦄ ⦃z : Zod N⦄ ⦃d : Decimals D⦄
      ⦃p : PrismaDecimals P⦄ where
    pub to_domain_order-keeps :
        (row : OrderRow N P) (v : V) → view (to_domain_order {D = D} row v).1 ≡ view v
    unfolding to_domain_order
    to_domain_order-keeps row v = elim (Option-cases (stored_order row)) [
      | inl no_text ↦ rw no_text refl
      | inr (stored, e) ↦ rw e (restored stored)
    ]
      where
        restored :
            (stored : StoredOrder N)
            → view (compute (restore_order {D = D} {N = N} stored) v).1 ≡ view v
        restored stored = ground arith

    to_domain_or_null-keeps :
        (row : Option (OrderRow N P)) (v : V) → view (to_domain_or_null {D = D} row v).1 ≡ view v
    to_domain_or_null-keeps none v = refl
    to_domain_or_null-keeps (some row) v =
        continue_with-keeps (view v) (to_domain_order row v) _ (to_domain_order-keeps row v)
          (λ order u q. q)

    pub find_order-keeps :
        (call : Call V (Option (OrderRow N P))) (v : V)
        → view (call v).1 ≡ view v
        → view (find_order {D = D} call v).1 ≡ view v
    unfolding find_order classified
    find_order-keeps call v q =
        continue_with-keeps (view v) (classified_result (call v)) _
          (classified-keeps (view v) (call v) q)
          (λ row u same. to_domain_or_null-keeps row u ∙ same)

settled-fails :
    {A V Q : Type 0} (r : Settled A × V) (e : Failure)
    → ((x : Failure) → r.0 ≡ callback_failed x → Q)
    → ((x : Thrown) → r.0 ≡ aborted x → failure_of (classify_submission_error x) ≡ e → Q)
    → (settled r).0 ≡ fails e
    → Q
settled-fails (committed a, v) e g k h = cc
settled-fails (callback_failed x, v) e g k h = g x refl
settled-fails (aborted x, v) e g k h = k x refl (ground arith)

module _ {A V X : Type 0} (view : V → X) where
  pub settled-returns :
      (r : Settled A × V) (a : A)
      → (settled r).0 ≡ returns a
      → (r.0 ≡ committed a) × (view (settled r).1 ≡ view r.1)
  settled-returns (committed b, v) a h = (ground arith, refl)
  settled-returns (callback_failed x, v) a h = cc
  settled-returns (aborted x, v) a h = cc

  pub settled-state : (r : Settled A × V) → view (settled r).1 ≡ view r.1
  settled-state (committed b, v) = refl
  settled-state (callback_failed x, v) = refl
  settled-state (aborted x, v) = refl

-- What is stored, whatever the transaction.
abbrev pub stored : {N V : Type 0} → (V → Tables N) → Session V → Tables N
stored tables w = tables w.database

-- What is seen of the store: the tables, their stock and the keys of their Orders.
abbrev pub prisma_view :
    {N V : Type 0} ⦃f : Floats N⦄ → (V → Tables N) → (V → ℕ) → StoreView N (Tables N) (Session V)
prisma_view tables transactions = record {
  stored = stored tables;
  transactions = λ w. transactions w.database;
  stock = λ u. to_inventory_snapshot u.warehouses;
  taken = λ key u. has_key key u.orders;
}

module _ {A V X : Type 0} (view : Session V → X) where
  require_lock-keeps :
      (call : Action (Session V) A) (w : Session V)
      → view (call w).1 ≡ view w
      → view (require_lock call w).1 ≡ view w
  require_lock-keeps call w q = go w.locked
    where
      go : (flag : Bool) → view (if not flag then (fails unexpected, w) else call w).1 ≡ view w
      go true = q
      go false = refl

module _ {N D P V : Type 0} ⦃f : Floats N⦄ ⦃z : Zod N⦄ ⦃d : Decimals D⦄ ⦃p : PrismaDecimals P⦄
    (tables : V → Tables N) where
  -- What a transaction of this client can do before it saves.
  pub create_transaction-IsTransaction :
      (transactions : V → ℕ) (t : TransactionClient N P V)
      → IsTransactionClient tables t
      → IsTransaction (prisma_view tables transactions) (create_transaction {D = D} t)
  unfolding create_transaction lock_inventory classified find_order
  create_transaction-IsTransaction transactions t law = record {
    lock_reads = λ w.
        continue_with-keeps (stored tables) (stored tables w) _ _
          (classified-keeps tables (stored tables w) (t.lock_warehouses w.database)
            (law.locks w.database))
          (λ rows v q. q);
    lock_answers = λ w inventory h.
        lock_inventory-returns tables t w (lock_inventory t w).1 inventory law
          (ap (λ a. (a, (lock_inventory t w).1)) h);
    find_reads = λ key w.
        require_lock-keeps (stored tables) (on_database (find_order (t.find_order key))) w
          (find_order-keeps tables D (t.find_order key) w.database (law.finds key w.database));
    find_answers = λ key w o h. find_order-answers D tables t law key w o h;
  }

  -- A callback that returns has run its work on the transaction, which has only been configured.
  pub run_work-returns :
      {A : Type 0} (resolved : ResolvedOptions N)
      (work : SubmissionTransaction N D (Session V) → Action (Session V) A)
      (t : TransactionClient N P V) (v : V) (a : A)
      → IsTransactionClient tables t
      → (run_work resolved work t v).0 ≡ returns a
      → (u : V) × ((work (create_transaction t) (record { database = u; locked = false })).0
          ≡ returns a)
        × (tables u ≡ tables v)
        × ((run_work resolved work t v).1
            ≡ (work (create_transaction t) (record { database = u; locked = false })).1.database)
  unfolding run_work classified
  run_work-returns resolved work t v a law h =
      let configured = t.set_timeouts resolved.lock_timeout_ms resolved.timeout_ms v in
      let (done, u, e, rest, ends) = continue_with-returns (classified_result configured) _ h in
      let kept = classified-keeps tables (tables v) configured (law.configures _ _ v) in
      (u, rest, sym (ap (λ r. tables r.1) e) ∙ kept, ap (λ r. r.1) ends)

  module _ (transactions : V → ℕ) (resolved : ResolvedOptions N) {A : Type 0}
      (work : SubmissionTransaction N D (Session V) → Action (Session V) A) where
    -- A callback that has returned has run its work in a transaction of the store.
    run-HasRun :
        (was after : Tables N) (a : A)
        → HasReturned {P = P} tables (run_work resolved work) was after a
        → HasRun (prisma_view tables transactions) work was after a
    run-HasRun was after a h =
        let (u, worked, configured, ends) =
          run_work-returns resolved work h.t h.before a h.is_client h.ran in
        record {
          tx = create_transaction h.t;
          before = record { database = u; locked = false };
          opened = create_transaction-IsTransaction transactions h.t h.is_client;
          started = configured ∙ h.began;
          ran = worked;
          ended = h.kept ∙ ap tables ends;
        }

  module _ (client : PrismaClient N P V) (transactions : V → ℕ)
      (law : IsPrisma tables client transactions) (resolved : ResolvedOptions N) where
    module _ {A : Type 0} (work : SubmissionTransaction N D (Session V) → Action (Session V) A)
        (v : V) where
      abbrev ran : Settled A × V
      ran = client.transaction resolved.max_wait_ms resolved.timeout_ms (run_work resolved work) v

      settled-rolls_back :
          (e : Failure)
          → (settled ran).0 ≡ fails e
          → is_known e ≡ true
          → tables (settled ran).1 ≡ tables v
      settled-rolls_back e h known =
          settled-state tables ran
          ∙ settled-fails ran e
              (λ x failed. law.rolls_back_failed _ _ (run_work resolved work) v x failed)
              (λ x aborts same. law.rolls_back_uncommitted _ _ (run_work resolved work) v x aborts (
                known-IsUncommitted x (law.aborts_untyped _ _ (run_work resolved work) v x aborts)
                  (ap is_known same ∙ known)))
              h

      settled-may_commit :
          (settled ran).0 ≡ fails unexpected
          → (tables (settled ran).1 ≡ tables v)
            ⊎ (a : A) × HasRun
                (prisma_view tables transactions)
                work
                (tables v)
                (tables (settled ran).1)
                a
      settled-may_commit h = rw (settled-state tables ran) (
          settled-fails ran unexpected
            (λ x failed. inl (law.rolls_back_failed _ _ (run_work resolved work) v x failed))
            (λ x aborts _. elim (law.may_commit _ _ (run_work resolved work) v x aborts) [
              | inl same ↦ inl same
              | inr (a, h) ↦ inr (a, run-HasRun transactions resolved work _ _ a h)
            ])
            h)

      settled-commits :
          (a : A)
          → (settled ran).0 ≡ returns a
          → HasRun (prisma_view tables transactions) work (tables v) (tables (settled ran).1) a
      settled-commits a h =
          let (done, kept) = settled-returns tables ran a h in
          rw kept (
            run-HasRun transactions resolved work _ _ a
              (law.commits _ _ (run_work resolved work) v a done))

      settled-starts : transactions (settled ran).1 ≤ transactions v + 1
      settled-starts =
          rw (settled-state transactions ran) (law.starts _ _ (run_work resolved work) v)

    pub prisma_store-IsTransactional :
        IsTransactional (prisma_view tables transactions) (prisma_store {D = D} client resolved)
    unfolding prisma_store
    prisma_store-IsTransactional = record {
      lookup_reads = λ key w.
          find_order-keeps tables D (client.find_order key) w.database (law.reads key w.database);
      lookup_starts_none = λ key w.
          find_order-keeps transactions D (client.find_order key) w.database
            (law.reads_outside key w.database);
      starts_one = λ work w. settled-starts work w.database;
      rolls_back = λ work w e h known. settled-rolls_back work w.database e h known;
      may_commit = λ work w h. settled-may_commit work w.database h;
      commits = λ work w a h. settled-commits work w.database a h;
    }

  -- With valid options, on a client whose transactions are atomic, the Prisma store is made and meets
  -- the contract of the port that the submission relies on.
  pub create_prisma_submission_store-IsTransactional :
      (client : PrismaClient N P V) (transactions : V → ℕ)
      (options : PrismaSubmissionStoreOptions N) (resolved : ResolvedOptions N)
      → IsPrisma tables client transactions
      → resolve_options options ≡ some resolved
      → (store : SubmissionStore N D (Session V)) × (create_prisma_submission_store client options
          ≡ some store)
        × IsTransactional (prisma_view tables transactions) store
  unfolding create_prisma_submission_store
  create_prisma_submission_store-IsTransactional client transactions options resolved law h = (
    prisma_store client resolved,
    rw h refl,
    prisma_store-IsTransactional client transactions law resolved,
  )
