-- ===== src/Ordering/Submit/Safety.antt =====
-- The bounds, the atomicity and the soundness of submission.
use scos.Prelude.{ℕ, ◌+◌, ◌≤◌, ◌≡◌, ◌⊎◌, true, ◌∙◌, false, some, Text, arith}
use scos.Js.{Floats}
use scos.Zod.{Zod}
use scos.Decimal.{Decimals}
use scos.Numeral.{Numerals}
use scos.Shared.Errors.{ok}
use scos.Ordering.Request.{OrderRequest}
use scos.Ordering.Estimate.{EstimateBase, Shipping, valid, estimate_order}
use scos.Ordering.Order.{NewOrder, Order, create_order}
use scos.Ordering.Submit.{
  Attempt, returns, fails, SubmissionTransaction, SubmissionStore, SubmitOrderInput,
  SubmitOrderOutcome, Failure, unexpected, parsed_input, attempt, submit_order,
}
use scos.Ordering.Submit.Laws.{
  is_retried, known-of_retried, StoreView, IsTransaction, IsTransactional, submit_order-keeps,
}

module _ {N D W : Type 0} ⦃f : Floats N⦄ ⦃z : Zod N⦄ ⦃d : Decimals D⦄ ⦃t : Numerals N D⦄ where
  module _ {S : Type 0} (view : StoreView N S W) (key : Text) (request : OrderRequest N) where
    -- What stands behind an Order that is new between two states of the store: the key was free, the
    -- request was estimated as valid against the stock, and the Order was created from that
    -- estimate and saved by a transaction of the store that had changed nothing before.
    pub record IsBacked (was after : S) (saved : Order N D) : Type 0 where
      pub order_number : Text
      pub base : EstimateBase N D
      pub shipping : Shipping N D
      pub order : NewOrder N D
      pub tx : SubmissionTransaction N D W
      pub saving : W
      pub free : view.taken key was ≡ false
      pub estimated : estimate_order request (view.stock was) ≡ ok (valid base shipping)
      pub created : create_order order_number key (valid base shipping) ≡ ok order
      pub opened : IsTransaction view tx
      pub unchanged : view.stored saving ≡ was
      pub saves : (tx.save_accepted_order order saving).0 ≡ returns saved
      pub ended : after ≡ view.stored (tx.save_accepted_order order saving).1

    -- Nothing was stored, or an unexpected failure hides that an Order was.
    abbrev pub Untouched : S → Attempt (SubmitOrderOutcome N D) × W → Type 0
    Untouched was r =
        (view.stored r.1 ≡ was)
        ⊎ (r.0 ≡ fails unexpected) × (saved : Order N D) × IsBacked was (view.stored r.1) saved

  module _ (S : Type 0) (store : SubmissionStore N D W) (view : StoreView N S W)
      (law : IsTransactional view store) (order_numbers : ℕ → Text) (max : ℕ)
      (input : SubmitOrderInput N) (key : Text) (request : OrderRequest N)
      (parsed : parsed_input input ≡ some (key, request)) (start : W) where
    -- On a store that meets the port's contract, a submission whose input parses starts at most `max`
    -- transactions, whatever the store answers.
    pub submit_order-attempts :
        view.transactions (submit_order store order_numbers max input start).1
        ≤ view.transactions start + max
    submit_order-attempts =
        submit_order-keeps store order_numbers key request
          (λ r. view.transactions r.1 ≤ view.transactions start + max)
          (λ n w. view.transactions w + n ≤ view.transactions start + max)
          (record {
            stop = λ n a w q _. omega (arith, q);
            lookup = λ n w q. omega (arith, q, law.lookup_starts_none key w);
            step_returns =
                λ n w m o q _. omega (arith, q, law.starts_one (attempt m key request) w);
            step_fails =
                λ n w m e q _ _. omega (arith, q, law.starts_one (attempt m key request) w);
            step_stops =
                λ n w m e q _ _. omega (arith, q, law.starts_one (attempt m key request) w);
          })
          max input start parsed (omega arith)

    -- After a failure that is retried, what is stored is as it was.
    pub retried-unchanged :
        (order_number : Text) (w : W) (e : Failure)
        → view.stored w ≡ view.stored start
        → (store.run_in_transaction (attempt order_number key request) w).0 ≡ fails e
        → is_retried e ≡ true
        → view.stored (store.run_in_transaction (attempt order_number key request) w).1
          ≡ view.stored start
    retried-unchanged m w e q h again =
        law.rolls_back (attempt m key request) w e h (known-of_retried e again) ∙ q
