-- ===== src/Ordering/Submit/Laws.antt =====
-- What submission promises of any store that runs transactions.
use mathlib.Core.Path.{subst}
use scos.Prelude.{
  is_some, ℕ, zero, suc, ◌+◌, ◌≤◌, ◌≡◌, refl, sym, Bool, true, false, Option, some, none, Text, ◌⊎◌,
  inl, inr, Bool-cases,
}
use scos.Js.{Floats}
use scos.Zod.{Zod, is_empty}
use scos.Decimal.{Decimals}
use scos.Numeral.{Numerals}
use scos.Shipping.Allocation.{InventorySnapshot}
use scos.Ordering.Request.{OrderRequest}
use scos.Ordering.Order.{Order, has_same_request}
use scos.Ordering.Submit.{
  Failure, domain, key_taken, transient, unexpected, Attempt, returns, fails, Action, continue_with,
  SubmissionTransaction, SubmissionStore, SubmitOrderInput, SubmitOrderOutcome, accepted, rejected,
  conflict, invalid, unavailable, Lookup, lookup_unavailable, found, lookup_result, unlocked_lookup,
  resolve_existing, input_issues, parsed_input, attempt, resolve_winner, resolve_attempt,
  submit_loop, after_lookup, submit_order,
}

-- Whether a new Order was accepted.
abbrev pub is_new : {N D : Type 0} → Attempt (SubmitOrderOutcome N D) → Bool
is_new (returns (accepted o false)) = true
is_new _ = false

-- Inversion of a chain of calls.
pub continue_with-returns :
    {A B W : Type 0} (r : Attempt A × W) (k : A → Action W B) {b : B}
    → (continue_with r k).0 ≡ returns b
    → (a : A) × (w : W) × (r ≡ (returns a, w))
      × ((k a w).0 ≡ returns b)
      × (continue_with r k ≡ k a w)
continue_with-returns (returns a, w) k h = (a, w, refl, h, refl)
continue_with-returns (fails e, w) k h = cc

-- Whether a further attempt follows the failure of one.
abbrev pub is_retried : Failure → Bool
is_retried key_taken = true
is_retried transient = true
is_retried (domain e) = false
is_retried unexpected = false

-- Whether the port promises that nothing was committed; any other failure may be that of a commit.
abbrev pub is_known : Failure → Bool
is_known key_taken = true
is_known transient = true
is_known (domain e) = true
is_known unexpected = false

pub known-of_retried : (e : Failure) → is_retried e ≡ true → is_known e ≡ true
known-of_retried key_taken h = refl
known-of_retried transient h = refl
known-of_retried (domain e) h = refl
known-of_retried unexpected h = cc

-- What is seen of a store: what is committed, the number of transactions started, and of what is
-- committed the stock and whether a key has an Order.
pub record StoreView (N S W : Type 0) : Type 0 where
  pub stored : W → S
  pub transactions : W → ℕ
  pub stock : S → InventorySnapshot N
  pub taken : Text → S → Bool

module _ {N D W S : Type 0} (view : StoreView N S W) where
  -- The calls of a transaction that only read keep what is stored, and answer what is stored.
  pub record IsTransaction (tx : SubmissionTransaction N D W) : Type 0 where
    pub lock_reads : (w : W) → view.stored (tx.lock_inventory w).1 ≡ view.stored w
    pub lock_answers :
        (w : W) (inventory : InventorySnapshot N)
        → (tx.lock_inventory w).0 ≡ returns inventory
        → inventory ≡ view.stock (view.stored w)
    pub find_reads :
        (key : Text) (w : W) → view.stored (tx.find_order_by_submission_key key w).1 ≡ view.stored w
    pub find_answers :
        (key : Text) (w : W) (o : Option (Order N D))
        → (tx.find_order_by_submission_key key w).0 ≡ returns o
        → is_some o ≡ view.taken key (view.stored w)

  -- The work has run in a transaction of the store, started from `was`, and returned.
  pub record HasRun {A : Type 0} (work : SubmissionTransaction N D W → Action W A) (was after : S)
      (a : A) : Type 0 where
    pub tx : SubmissionTransaction N D W
    pub before : W
    pub opened : IsTransaction tx
    pub started : view.stored before ≡ was
    pub ran : (work tx before).0 ≡ returns a
    pub ended : after ≡ view.stored (work tx before).1

  -- A store as its port documents it: a lookup reads, a transaction that returns has run the work, a
  -- failure that the port promises to be uncommitted leaves what is stored, and after any other
  -- failure the work may have been committed or not.
  pub record IsTransactional (store : SubmissionStore N D W) : Type 1 where
    pub lookup_reads :
        (key : Text) (w : W)
        → view.stored (store.find_order_by_submission_key key w).1 ≡ view.stored w
    pub lookup_starts_none :
        (key : Text) (w : W)
        → view.transactions (store.find_order_by_submission_key key w).1 ≡ view.transactions w
    pub starts_one :
        {A : Type 0} (work : SubmissionTransaction N D W → Action W A) (w : W)
        → view.transactions (store.run_in_transaction work w).1 ≤ view.transactions w + 1
    pub rolls_back :
        {A : Type 0} (work : SubmissionTransaction N D W → Action W A) (w : W) (e : Failure)
        → (store.run_in_transaction work w).0 ≡ fails e
        → is_known e ≡ true
        → view.stored (store.run_in_transaction work w).1 ≡ view.stored w
    pub may_commit :
        {A : Type 0} (work : SubmissionTransaction N D W → Action W A) (w : W)
        → (store.run_in_transaction work w).0 ≡ fails unexpected
        → (view.stored (store.run_in_transaction work w).1 ≡ view.stored w)
          ⊎ (a : A) × HasRun work
              (view.stored w)
              (view.stored (store.run_in_transaction work w).1)
              a
    pub commits :
        {A : Type 0} (work : SubmissionTransaction N D W → Action W A) (w : W) (a : A)
        → (store.run_in_transaction work w).0 ≡ returns a
        → HasRun work (view.stored w) (view.stored (store.run_in_transaction work w).1) a

-- Whether a submission ends outside a transaction that has estimated the request.
abbrev pub is_stop : {N D : Type 0} → Attempt (SubmitOrderOutcome N D) → Bool
is_stop (returns (accepted o false)) = false
is_stop (returns (rejected e)) = false
is_stop _ = true

pub not_new-of_stop :
    {N D : Type 0} (a : Attempt (SubmitOrderOutcome N D)) → is_stop a ≡ true → is_new a ≡ false
not_new-of_stop (returns (accepted o false)) h = cc
not_new-of_stop (returns (accepted o true)) h = refl
not_new-of_stop (returns (rejected e)) h = refl
not_new-of_stop (returns (conflict k)) h = refl
not_new-of_stop (returns (invalid i)) h = refl
not_new-of_stop (returns (unavailable n)) h = refl
not_new-of_stop (fails e) h = refl

pub is_stop-resolve_existing :
    {N D : Type 0} ⦃f : Floats N⦄ (key : Text) (request : OrderRequest N) (existing : Order N D)
    → is_stop (returns (resolve_existing existing key request)) ≡ true
unfolding resolve_existing
is_stop-resolve_existing key request existing =
    elim (Bool-cases (has_same_request existing.facts request)) [
      | inl same ↦ rw same refl
      | inr other ↦ rw other refl
    ]

pub not_new-resolve_existing :
    {N D : Type 0} ⦃f : Floats N⦄ (key : Text) (request : OrderRequest N) (existing : Order N D)
    → is_new (returns (resolve_existing existing key request)) ≡ false
unfolding resolve_existing
not_new-resolve_existing key request existing =
    elim (Bool-cases (has_same_request existing.facts request)) [
      | inl same ↦ rw same refl
      | inr other ↦ rw other refl
    ]

module _ {N D W : Type 0} ⦃f : Floats N⦄ ⦃z : Zod N⦄ ⦃d : Decimals D⦄ ⦃t : Numerals N D⦄
    (store : SubmissionStore N D W) (order_numbers : ℕ → Text) (key : Text)
    (request : OrderRequest N) (P : Attempt (SubmitOrderOutcome N D) × W → Type 0)
    (Q : ℕ → W → Type 0) where
  -- What the parts of a submission keep, by which every run of it is judged: `Q n` holds before the
  -- last `n` attempts, and `P` of the result.
  pub record Keeps : Type 0 where
    pub stop :
        (n : ℕ) (a : Attempt (SubmitOrderOutcome N D)) (w : W) → Q n w → is_stop a ≡ true → P (a, w)
    pub lookup : (n : ℕ) (w : W) → Q n w → Q n (store.find_order_by_submission_key key w).1
    pub step_returns :
        (n : ℕ) (w : W) (order_number : Text) (o : SubmitOrderOutcome N D)
        → Q (suc n) w
        → (store.run_in_transaction (attempt order_number key request) w).0 ≡ returns o
        → P (store.run_in_transaction (attempt order_number key request) w)
    pub step_fails :
        (n : ℕ) (w : W) (order_number : Text) (e : Failure)
        → Q (suc n) w
        → (store.run_in_transaction (attempt order_number key request) w).0 ≡ fails e
        → is_retried e ≡ true
        → Q n (store.run_in_transaction (attempt order_number key request) w).1
    pub step_stops :
        (n : ℕ) (w : W) (order_number : Text) (e : Failure)
        → Q (suc n) w
        → (store.run_in_transaction (attempt order_number key request) w).0 ≡ fails e
        → is_retried e ≡ false
        → P (store.run_in_transaction (attempt order_number key request) w)

  state-lookup_result : (r : Attempt (Option (Order N D)) × W) → (lookup_result r).1 ≡ r.1
  state-lookup_result (returns o, w) = refl
  state-lookup_result (fails (domain e), w) = refl
  state-lookup_result (fails key_taken, w) = refl
  state-lookup_result (fails transient, w) = refl
  state-lookup_result (fails unexpected, w) = refl

  module _ (k : Keeps) where
    unlocked_lookup-keeps : (n : ℕ) (w : W) → Q n w → Q n (unlocked_lookup store key w).1
    unfolding unlocked_lookup
    unlocked_lookup-keeps n w q =
        subst (Q n) (sym (state-lookup_result (store.find_order_by_submission_key key w)))
          (k.lookup n w q)

    resolve_winner-keeps :
        (n attempts : ℕ) (again : Action W (SubmitOrderOutcome N D))
        → ((w : W) → Q n w → P (again w))
        → (r : Attempt (Lookup N D) × W) → Q n r.1
        → P (resolve_winner key request attempts again r)
    unfolding resolve_winner
    resolve_winner-keeps n attempts again more (returns lookup_unavailable, w) q =
        k.stop n _ w q refl
    resolve_winner-keeps n attempts again more (returns (found (some winner)), w) q =
        k.stop n _ w q (is_stop-resolve_existing key request winner)
    resolve_winner-keeps n attempts again more (returns (found none), w) q = more w q
    resolve_winner-keeps n attempts again more (fails e, w) q = k.stop n _ w q refl

    resolve_attempt-keeps :
        (n attempts : ℕ) (again : Action W (SubmitOrderOutcome N D))
        → ((w : W) → Q n w → P (again w))
        → (r : Attempt (SubmitOrderOutcome N D) × W)
        → ((o : SubmitOrderOutcome N D) → r.0 ≡ returns o → P r)
        → ((e : Failure) → r.0 ≡ fails e → is_retried e ≡ true → Q n r.1)
        → ((e : Failure) → r.0 ≡ fails e → is_retried e ≡ false → P r)
        → P (resolve_attempt store key request attempts again r)
    unfolding resolve_attempt
    resolve_attempt-keeps n attempts again more (returns o, w) h g s = h o refl
    resolve_attempt-keeps n attempts again more (fails key_taken, w) h g s =
        resolve_winner-keeps n attempts again more (unlocked_lookup store key w)
          (unlocked_lookup-keeps n w (g key_taken refl refl))
    resolve_attempt-keeps n attempts again more (fails transient, w) h g s =
        more w (g transient refl refl)
    resolve_attempt-keeps n attempts again more (fails (domain e), w) h g s = s (domain e) refl refl
    resolve_attempt-keeps n attempts again more (fails unexpected, w) h g s = s unexpected refl refl

    submit_loop-keeps :
        (left made : ℕ) (w : W)
        → Q left w
        → P (submit_loop store order_numbers key request made left w)
    unfolding submit_loop
    submit_loop-keeps zero made w q = k.stop 0 _ w q refl
    submit_loop-keeps (suc left) made w q =
        resolve_attempt-keeps left (suc made)
          (submit_loop store order_numbers key request (suc made) left)
          (λ v r. submit_loop-keeps left (suc made) v r)
          (store.run_in_transaction (attempt (order_numbers (suc made)) key request) w)
          (λ o e. k.step_returns left w (order_numbers (suc made)) o q e)
          (λ e h. k.step_fails left w (order_numbers (suc made)) e q h)
          (λ e h. k.step_stops left w (order_numbers (suc made)) e q h)

    after_lookup-keeps :
        (max : ℕ) (r : Attempt (Lookup N D) × W)
        → Q max r.1
        → P (after_lookup store order_numbers max key request r)
    unfolding after_lookup
    after_lookup-keeps max (returns lookup_unavailable, w) q = k.stop max _ w q refl
    after_lookup-keeps max (returns (found (some existing)), w) q =
        k.stop max _ w q (is_stop-resolve_existing key request existing)
    after_lookup-keeps max (returns (found none), w) q = submit_loop-keeps max 0 w q
    after_lookup-keeps max (fails e, w) q = k.stop max _ w q refl

    -- A submission of this key and request keeps them.
    pub submit_order-keeps :
        (max : ℕ) (input : SubmitOrderInput N) (w : W)
        → parsed_input input ≡ some (key, request)
        → Q max w
        → P (submit_order store order_numbers max input w)
    unfolding submit_order
    submit_order-keeps max input w parsed q = elim (Bool-cases (is_empty (input_issues input))) [
      | inl fine ↦
          rw (fine, parsed)
            (after_lookup-keeps max (unlocked_lookup store key w) (unlocked_lookup-keeps max w q))
      | inr issues ↦ rw issues (k.stop max _ w q refl)
    ]
