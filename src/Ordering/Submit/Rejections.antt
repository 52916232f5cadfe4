-- ===== src/Ordering/Submit/Rejections.antt =====
-- What a submission rejects.
use mathlib.Core.Path.{subst}
use scos.Prelude.{is_some, ℕ, ◌≡◌, refl, false, sym, ap, ◌∙◌, false≢true, Option, some, none, Text}
use scos.Js.{Floats}
use scos.Zod.{Zod}
use scos.Decimal.{Decimals}
use scos.Numeral.{Numerals}
use scos.Shared.Errors.{Result, ok, throws}
use scos.Shipping.Allocation.{InventorySnapshot}
use scos.Ordering.Request.{OrderRequest}
use scos.Ordering.Estimate.{
  EstimateBase, Shipping, OrderEstimate, valid, shipping_exceeds_limit, insufficient_stock,
  estimate_order,
}
use scos.Ordering.Order.{Order, create_order}
use scos.Ordering.Submit.{
  returns, compute, decide, save_estimate, SubmissionTransaction, SubmissionStore, SubmitOrderInput,
  rejected, parsed_input, attempt, submit_order,
}
use scos.Ordering.Submit.Laws.{
  StoreView, HasRun, IsTransactional, known-of_retried, is_stop, is_stop-resolve_existing,
  continue_with-returns, submit_order-keeps,
}

-- A business rejection.
pub data IsRejection {N D : Type 0} : OrderEstimate N D → Type 0 where
  exceeds :
      (base : EstimateBase N D) (s : Shipping N D) → IsRejection (shipping_exceeds_limit base s)
  short : (base : EstimateBase N D) → IsRejection (insufficient_stock base)

compute-ok :
    {A W : Type 0} (r : Result A) (w v : W) (a : A) → compute r w ≡ (returns a, v) → r ≡ ok a
compute-ok (ok b) w v a h = cc
compute-ok (throws e) w v a h = cc

module _ {N D W : Type 0} ⦃f : Floats N⦄ ⦃z : Zod N⦄ ⦃d : Decimals D⦄ ⦃t : Numerals N D⦄ where
  save_estimate-IsRejection :
      (order_number key : Text) (tx : SubmissionTransaction N D W) (estimate e : OrderEstimate N D)
      (w : W)
      → (save_estimate order_number tx key estimate w).0 ≡ returns (rejected e)
      → (estimate ≡ e) × IsRejection e
  unfolding save_estimate
  save_estimate-IsRejection order_number key tx (shipping_exceeds_limit base s) e w h =
      let same : shipping_exceeds_limit base s ≡ e = cc in
      (same, subst IsRejection same (exceeds base s))
  save_estimate-IsRejection order_number key tx (insufficient_stock base) e w h =
      let same : insufficient_stock base ≡ e = cc in (same, subst IsRejection same (short base))
  save_estimate-IsRejection order_number key tx (valid base s) e w h =
      let (order, v, _, rest, _) =
        continue_with-returns (compute (create_order order_number key (valid base s)) w) _ h in
      let (saved, u, _, last, _) = continue_with-returns (tx.save_accepted_order order v) _ rest in
      absurd cc

  decide-IsRejection :
      (order_number key : Text) (tx : SubmissionTransaction N D W) (request : OrderRequest N)
      (inventory : InventorySnapshot N) (existing : Option (Order N D)) (e : OrderEstimate N D)
      (w : W)
      → (decide order_number tx key request inventory existing w).0 ≡ returns (rejected e)
      → (is_some existing ≡ false) × (estimate_order request inventory ≡ ok e) × IsRejection e
  decide-IsRejection order_number key tx request inventory (some existing) e w h =
      absurd (false≢true (sym (ap is_stop h) ∙ is_stop-resolve_existing key request existing))
  decide-IsRejection order_number key tx request inventory none e w h =
      let (estimate, v, estimated, rest, _) =
        continue_with-returns (compute (estimate_order request inventory) w) _ h in
      let (same, rejection) = save_estimate-IsRejection order_number key tx estimate e v rest in
      (refl, compute-ok _ w v estimate estimated ∙ ap ok same, rejection)

  module _ {S : Type 0} (view : StoreView N S W) (key : Text) (request : OrderRequest N)
      (e : OrderEstimate N D) where
    -- A rejection against a state of the store: the key is free, and the rejected estimate is that of
    -- the request against the stock, and is not valid.
    pub record IsRejected (was : S) : Type 0 where
      pub free : view.taken key was ≡ false
      pub estimated : estimate_order request (view.stock was) ≡ ok e
      pub rejection : IsRejection e

    run-IsRejected :
        (order_number : Text) (was after : S)
        → HasRun view (attempt order_number key request) was after (rejected e)
        → IsRejected was
    unfolding attempt
    run-IsRejected order_number was after r =
        let (inventory, v, locked, rest, _) =
          continue_with-returns (r.tx.lock_inventory r.before) _ r.ran in
        let (existing, u, found, last, _) =
          continue_with-returns (r.tx.find_order_by_submission_key key v) _ rest in
        let (none_found, estimated, rejection) =
          decide-IsRejection order_number key r.tx request inventory existing e u last in
        let same =
          sym (ap (λ l. view.stored l.1) locked) ∙ r.opened.lock_reads r.before ∙ r.started in
        let answered = r.opened.find_answers key v existing (ap (λ l. l.0) found) in
        let counted =
          r.opened.lock_answers r.before inventory (ap (λ l. l.0) locked)
          ∙ ap view.stock r.started in
        record {
          free = ap (view.taken key) (sym same) ∙ sym answered ∙ none_found;
          estimated = ap (estimate_order request) (sym counted) ∙ estimated;
          rejection = rejection;
        }

  -- On a store that meets the port's contract, with an input that parses as this key and request: an
  -- estimate that a submission rejects is the estimate of the request against the stock that was
  -- stored before it, is over the shipping limit or short of stock, and the key was free.
  pub submit_order-IsRejected :
      (S : Type 0) (store : SubmissionStore N D W) (view : StoreView N S W)
      → IsTransactional view store
      → (order_numbers : ℕ → Text) (max : ℕ) (input : SubmitOrderInput N) (key : Text)
        (request : OrderRequest N)
      → parsed_input input ≡ some (key, request)
      → (start : W) (e : OrderEstimate N D)
      → (submit_order store order_numbers max input start).0 ≡ returns (rejected e)
      → IsRejected view key request e (view.stored start)
  submit_order-IsRejected S store view law order_numbers max input key request parsed start e =
      submit_order-keeps store order_numbers key request
        (λ r. r.0 ≡ returns (rejected e) → IsRejected view key request e (view.stored start))
        (λ n w. view.stored w ≡ view.stored start)
        (record {
          stop = λ n a w q old h. absurd (false≢true (sym (ap is_stop h) ∙ old));
          lookup = λ n w q. law.lookup_reads key w ∙ q;
          step_returns = λ n w m o q returned h.
              subst (IsRejected view key request e) q (
                run-IsRejected view key request e m _ _
                  (law.commits (attempt m key request) w _ h));
          step_fails = λ n w m x q h again.
              law.rolls_back (attempt m key request) w x h (known-of_retried x again) ∙ q;
          step_stops = λ n w m x q h _ returned.
              absurd (false≢true (sym (ap is_stop returned) ∙ ap is_stop h));
        })
        max input start parsed refl
