-- ===== src/Ordering/Submit/Attempts.antt =====
-- One attempt of a submission: how it gets to a new Order, and that it only reads before.
use scos.Prelude.{◌≡◌, refl, sym, ◌∙◌, ap, false, false≢true, Option, some, none, Text}
use scos.Js.{Floats}
use scos.Zod.{Zod}
use scos.Decimal.{Decimals}
use scos.Numeral.{Numerals}
use scos.Shared.Errors.{Result, ok, throws}
use scos.Shipping.Allocation.{InventorySnapshot}
use scos.Ordering.Request.{OrderRequest}
use scos.Ordering.Estimate.{
  OrderEstimate, EstimateBase, Shipping, valid, shipping_exceeds_limit, insufficient_stock,
  estimate_order,
}
use scos.Ordering.Order.{NewOrder, Order, create_order}
use scos.Ordering.Submit.{
  Attempt, returns, fails, Action, continue_with, compute, decide, save_estimate,
  SubmissionTransaction, SubmitOrderOutcome, accepted, attempt,
}
use scos.Ordering.Submit.Laws.{
  StoreView, IsTransaction, is_new, not_new-resolve_existing, continue_with-returns,
}

module _ {N D W : Type 0} ⦃f : Floats N⦄ ⦃z : Zod N⦄ ⦃d : Decimals D⦄ ⦃t : Numerals N D⦄ where
  -- How a transaction got to a new Order: it locked the stock, found no Order for the key, estimated
  -- the request as valid against that stock, created the Order and saved it.
  pub record IsAttempted (tx : SubmissionTransaction N D W) (order_number key : Text)
      (request : OrderRequest N) (before : W) (saved : Order N D) : Type 0 where
    pub inventory : InventorySnapshot N
    pub base : EstimateBase N D
    pub shipping : Shipping N D
    pub order : NewOrder N D
    pub locked : W
    pub looked_up : W
    pub locks : tx.lock_inventory before ≡ (returns inventory, locked)
    pub free : tx.find_order_by_submission_key key locked ≡ (returns none, looked_up)
    pub estimated : estimate_order request inventory ≡ ok (valid base shipping)
    pub created : create_order order_number key (valid base shipping) ≡ ok order
    pub saves : (tx.save_accepted_order order looked_up).0 ≡ returns saved
    pub ends :
        (attempt order_number key request tx before).1 ≡ (tx.save_accepted_order order looked_up).1

  module _ (tx : SubmissionTransaction N D W) (order_number key : Text) (request : OrderRequest N)
      (saved : Order N D) where
    compute-returns :
        {A B : Type 0} (r : Result A) (k : A → Action W B) (w : W) {b : B}
        → (continue_with (compute r w) k).0 ≡ returns b
        → (a : A) × (r ≡ ok a) × ((k a w).0 ≡ returns b) × (continue_with (compute r w) k ≡ k a w)
    compute-returns (ok a) k w h = (a, refl, h, refl)
    compute-returns (throws e) k w h = cc

    save_estimate-new :
        (estimate : OrderEstimate N D) (w : W)
        → (save_estimate order_number tx key estimate w).0 ≡ returns (accepted saved false)
        → (base : EstimateBase N D) × (s : Shipping N D) × (order : NewOrder N D) × (estimate
            ≡ valid base s)
          × (create_order order_number key (valid base s) ≡ ok order)
          × ((tx.save_accepted_order order w).0 ≡ returns saved)
          × ((save_estimate order_number tx key estimate w).1 ≡ (tx.save_accepted_order order w).1)
    unfolding save_estimate
    save_estimate-new (shipping_exceeds_limit base s) w h = cc
    save_estimate-new (insufficient_stock base) w h = cc
    save_estimate-new (valid base s) w h =
        let (order, made, rest, ends) =
          compute-returns (create_order order_number key (valid base s)) _ w h in
        let (o, v, e, last, ends') =
          continue_with-returns (tx.save_accepted_order order w) _ rest in
        let same : o ≡ saved = cc in
        (
          base,
          s,
          order,
          refl,
          made,
          ap (λ r. r.0) e ∙ ap returns same,
          ap (λ r. r.1) (ends ∙ ends') ∙ sym (ap (λ r. r.1) e),
        )

    pub attempt-IsAttempted :
        (before : W)
        → (attempt order_number key request tx before).0 ≡ returns (accepted saved false)
        → IsAttempted tx order_number key request before saved
    unfolding attempt
    attempt-IsAttempted before h =
        let (inventory, locked, e, rest, ends) =
          continue_with-returns (tx.lock_inventory before) _ h in
        let (existing, looked_up, e', rest', ends') =
          continue_with-returns (tx.find_order_by_submission_key key locked) _ rest in
        finish inventory locked looked_up e existing e' (ends ∙ ends') rest'
      where
        finish :
            (inventory : InventorySnapshot N) (locked looked_up : W)
            → tx.lock_inventory before ≡ (returns inventory, locked)
            → (existing : Option (Order N D))
            → tx.find_order_by_submission_key key locked ≡ (returns existing, looked_up)
            → attempt order_number key request tx before
              ≡ decide order_number tx key request inventory existing looked_up
            → (decide order_number tx key request inventory existing looked_up).0
              ≡ returns (accepted saved false)
            → IsAttempted tx order_number key request before saved
        finish inventory locked looked_up e (some existing) e' ends k =
            absurd (false≢true (sym (not_new-resolve_existing key request existing) ∙ ap is_new k))
        finish inventory locked looked_up e none e' ends k =
            let (estimate, estimated, rest, ends') =
              compute-returns (estimate_order request inventory) _ looked_up k in
            let (base, s, order, is_valid, made, saves, last) =
              save_estimate-new estimate looked_up rest in
            record {
              inventory = inventory;
              base = base;
              shipping = s;
              order = order;
              locked = locked;
              looked_up = looked_up;
              locks = e;
              free = e';
              estimated = estimated ∙ ap ok is_valid;
              created = made;
              saves = saves;
              ends = ap (λ r. r.1) (ends ∙ ends') ∙ last;
            }

  module _ {S : Type 0} (view : StoreView N S W) (tx : SubmissionTransaction N D W)
      (order_number key : Text) (request : OrderRequest N) (reads : IsTransaction view tx) where
    -- The result keeps `was`, if it is returned and no new Order.
    abbrev pub KeepsOld : S → Attempt (SubmitOrderOutcome N D) × W → Type 0
    KeepsOld was r =
        is_new r.0 ≡ false
        → (o : SubmitOrderOutcome N D) × (r.0 ≡ returns o)
        → view.stored r.1 ≡ was

    chain-keeps :
        {A : Type 0} (was : S) (r : Attempt A × W) (k : A → Action W (SubmitOrderOutcome N D))
        → view.stored r.1 ≡ was
        → ((a : A) (w : W) → view.stored w ≡ was → KeepsOld was (k a w))
        → KeepsOld was (continue_with r k)
    chain-keeps was (returns a, w) k q g = g a w q
    chain-keeps was (fails e, w) k q g = λ _ _. q

    state-compute : {A : Type 0} (r : Result A) (w : W) → (compute r w).1 ≡ w
    state-compute (ok a) w = refl
    state-compute (throws e) w = refl

    saved-keeps :
        (was : S) (r : Attempt (Order N D) × W)
        → KeepsOld was (continue_with r (λ saved w. (returns (accepted saved false), w)))
    saved-keeps was (returns saved, w) old h = absurd (false≢true (sym old))
    saved-keeps was (fails e, w) old (o, h) = cc

    save_estimate-keeps :
        (was : S) (estimate : OrderEstimate N D) (w : W)
        → view.stored w ≡ was
        → KeepsOld was (save_estimate order_number tx key estimate w)
    unfolding save_estimate
    save_estimate-keeps was (shipping_exceeds_limit base s) w q = λ _ _. q
    save_estimate-keeps was (insufficient_stock base) w q = λ _ _. q
    save_estimate-keeps was (valid base s) w q =
        let made = create_order order_number key (valid base s) in
        chain-keeps was (compute made w) _ (ap view.stored (state-compute made w) ∙ q)
          (λ order v _. saved-keeps was (tx.save_accepted_order order v))

    decide-keeps :
        (was : S) (inventory : InventorySnapshot N) (existing : Option (Order N D)) (w : W)
        → view.stored w ≡ was
        → KeepsOld was (decide order_number tx key request inventory existing w)
    decide-keeps was inventory (some existing) w q = λ _ _. q
    decide-keeps was inventory none w q =
        let estimate = estimate_order request inventory in
        chain-keeps was (compute estimate w) _ (ap view.stored (state-compute estimate w) ∙ q)
          (save_estimate-keeps was)

    -- A transaction that returns anything but a new Order has only read.
    pub attempt-reads :
        (before : W) → KeepsOld (view.stored before) (attempt order_number key request tx before)
    unfolding attempt
    attempt-reads before =
        chain-keeps (view.stored before) (tx.lock_inventory before) _ (reads.lock_reads before)
          (λ inventory v q.
            chain-keeps (view.stored before) (tx.find_order_by_submission_key key v) _
              (reads.find_reads key v ∙ q) (decide-keeps (view.stored before) inventory))
