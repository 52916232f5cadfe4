-- ===== src/Ordering/Submit.antt =====
-- `packages/core/src/application/submit-order.ts` and `verify-order.ts`, with the ports
-- `submission-store.ts` and `inventory-reader.ts`: what the application does with a store.
pub mod Laws
pub mod Attempts
pub mod Safety
pub mod Rejections
use scos.Prelude.{
  ℕ, zero, suc, Bool, true, false, not, ◌&&◌, ◌||◌, Option, some, none, List, [], ◌∷◌, Text, codes,
  leb, if◌then◌else◌,
}
use scos.Js.{Floats, JsValue, number, text, whole, natural}
use scos.Zod.{Zod, Issue, is_empty}
use scos.Decimal.{Decimals}
use scos.Numeral.{Numerals}
use scos.Shared.Errors.{Result, ok, throws, DomainErrorCode}
use scos.Shared.Schemas.{quantity_schema, latitude_schema, longitude_schema}
use scos.Shipping.Allocation.{InventorySnapshot}
use scos.Ordering.Request.{OrderRequest}
use scos.Ordering.Estimate.{
  OrderEstimate, EstimateBase, Shipping, valid, shipping_exceeds_limit, insufficient_stock,
  estimate_order,
}
use scos.Ordering.Key.{submission_key_schema}
use scos.Ordering.Order.{NewOrder, Order, create_order, has_same_request}

-- What a call may throw.
pub data Failure : Type 0 where
  domain : DomainErrorCode → Failure
  key_taken : Failure
  transient : Failure
  unexpected : Failure

pub data Attempt (A : Type 0) : Type 0 where
  returns : A → Attempt A
  fails : Failure → Attempt A

-- An asynchronous call, on a state `W` of everything outside the application.
abbrev pub Action : Type 0 → Type 0 → Type 0
Action W A = W → Attempt A × W

module _ {W : Type 0} where
  abbrev pub pure : {A : Type 0} → A → Action W A
  pure a w = (returns a, w)

  abbrev pub continue_with : {A B : Type 0} → Attempt A × W → (A → Action W B) → Attempt B × W
  continue_with (returns a, w) k = k a w
  continue_with (fails e, w) k = (fails e, w)

  -- `const a = await m; …`
  abbrev pub and_then : {A B : Type 0} → Action W A → (A → Action W B) → Action W B
  and_then m k w = continue_with (m w) k

  -- a computation of the domain, whose DomainError is thrown
  abbrev pub compute : {A : Type 0} → Result A → Action W A
  compute (ok a) w = (returns a, w)
  compute (throws e) w = (fails (domain e), w)

-- The ports.
pub record SubmissionTransaction (N D W : Type 0) : Type 0 where
  pub lock_inventory : Action W (InventorySnapshot N)
  pub find_order_by_submission_key : Text → Action W (Option (Order N D))
  pub save_accepted_order : NewOrder N D → Action W (Order N D)

pub record SubmissionStore (N D W : Type 0) : Type 1 where
  pub find_order_by_submission_key : Text → Action W (Option (Order N D))
  pub run_in_transaction : {A : Type 0} → (SubmissionTransaction N D W → Action W A) → Action W A

pub record InventoryReader (N W : Type 0) : Type 0 where
  pub read_inventory_snapshot : Action W (InventorySnapshot N)

-- The fields of the raw input, each of unknown type.
pub record SubmitOrderInput (N : Type 0) : Type 0 where
  pub submission_id : JsValue N
  pub quantity : JsValue N
  pub latitude : JsValue N
  pub longitude : JsValue N

pub data SubmitOrderOutcome (N D : Type 0) : Type 0 where
  accepted : Order N D → Bool → SubmitOrderOutcome N D
  rejected : OrderEstimate N D → SubmitOrderOutcome N D
  conflict : Text → SubmitOrderOutcome N D
  invalid : List Issue → SubmitOrderOutcome N D
  unavailable : ℕ → SubmitOrderOutcome N D

-- MAX_SUBMISSION_ATTEMPTS
abbrev pub max_submission_attempts : ℕ
max_submission_attempts = 3

-- What an unlocked lookup gives: `UNAVAILABLE`, or an Order or null.
pub data Lookup (N D : Type 0) : Type 0 where
  lookup_unavailable : Lookup N D
  found : Option (Order N D) → Lookup N D

module _ {N D W : Type 0} where
  abbrev pub lookup_result : Attempt (Option (Order N D)) × W → Attempt (Lookup N D) × W
  lookup_result (returns o, w) = (returns (found o), w)
  lookup_result (fails transient, w) = (returns lookup_unavailable, w)
  lookup_result (fails e, w) = (fails e, w)

  -- `unlockedLookup`
  unfoldable pub unlocked_lookup : SubmissionStore N D W → Text → Action W (Lookup N D)
  unlocked_lookup store key w = lookup_result (store.find_order_by_submission_key key w)

module _ {N D : Type 0} ⦃f : Floats N⦄ where
  -- `resolveExisting`
  unfoldable pub resolve_existing : Order N D → Text → OrderRequest N → SubmitOrderOutcome N D
  resolve_existing existing key request =
      if has_same_request existing.facts request then accepted existing true else conflict key

-- `submitOrderInputSchema.safeParse(input)`: its issues, and the values of its fields.
module _ {N : Type 0} ⦃f : Floats N⦄ ⦃z : Zod N⦄ where
  unfoldable pub input_issues : SubmitOrderInput N → List Issue
  input_issues input = z.object_issues (
      (codes "submissionId", z.string_issues submission_key_schema input.submission_id)
      ∷ (codes "quantity", z.number_issues quantity_schema input.quantity)
      ∷ (codes "latitude", z.number_issues latitude_schema input.latitude)
      ∷ (codes "longitude", z.number_issues longitude_schema input.longitude)
      ∷ [])

  unfoldable pub parsed_fields :
      JsValue N → JsValue N → JsValue N → JsValue N → Option (Text × OrderRequest N)
  parsed_fields (text key) (number q) (number a) (number o) =
      some (key, record { quantity = q; destination = record { latitude = a; longitude = o } })
  parsed_fields _ _ _ _ = none

  unfoldable pub parsed_input : SubmitOrderInput N → Option (Text × OrderRequest N)
  unfolding parsed_fields
  parsed_input input =
      parsed_fields input.submission_id input.quantity input.latitude input.longitude

module _ {N D W : Type 0} ⦃f : Floats N⦄ ⦃z : Zod N⦄ ⦃d : Decimals D⦄ ⦃t : Numerals N D⦄ where
  -- From the estimate on: a rejection is returned, a valid estimate becomes an Order and is saved.
  unfoldable pub save_estimate :
      (order_number : Text)
      → SubmissionTransaction N D W
      → Text
      → OrderEstimate N D
      → Action W (SubmitOrderOutcome N D)
  save_estimate order_number tx key (shipping_exceeds_limit base s) =
      pure (rejected (shipping_exceeds_limit base s))
  save_estimate order_number tx key (insufficient_stock base) =
      pure (rejected (insufficient_stock base))
  save_estimate order_number tx key (valid base s) =
      and_then (compute (create_order order_number key (valid base s)))
        λ order. and_then (tx.save_accepted_order order) λ saved. pure (accepted saved false)

  abbrev pub decide :
      (order_number : Text)
      → SubmissionTransaction N D W
      → Text
      → OrderRequest N
      → InventorySnapshot N
      → Option (Order N D)
      → Action W (SubmitOrderOutcome N D)
  decide order_number tx key request inventory (some existing) =
      pure (resolve_existing existing key request)
  decide order_number tx key request inventory none =
      and_then (compute (estimate_order request inventory)) (save_estimate order_number tx key)

  -- `attempt`, with the number that `generateOrderNumber()` gives
  unfoldable pub attempt :
      (order_number : Text)
      → Text
      → OrderRequest N
      → SubmissionTransaction N D W
      → Action W (SubmitOrderOutcome N D)
  attempt order_number key request tx = and_then tx.lock_inventory λ inventory.
      and_then (tx.find_order_by_submission_key key) (decide order_number tx key request inventory)

  -- After `SubmissionKeyTakenError`: the lookup of the winner; `again` is the next attempt.
  unfoldable pub resolve_winner :
      Text
      → OrderRequest N
      → ℕ
      → Action W (SubmitOrderOutcome N D)
      → Attempt (Lookup N D) × W
      → Attempt (SubmitOrderOutcome N D) × W
  resolve_winner key request attempts again (returns lookup_unavailable, w) =
      (returns (unavailable attempts), w)
  resolve_winner key request attempts again (returns (found (some winner)), w) =
      (returns (resolve_existing winner key request), w)
  resolve_winner key request attempts again (returns (found none), w) = again w
  resolve_winner key request attempts again (fails e, w) = (fails e, w)

  -- The `try` and the `catch` of the loop's body.
  unfoldable pub resolve_attempt :
      SubmissionStore N D W
      → Text
      → OrderRequest N
      → ℕ
      → Action W (SubmitOrderOutcome N D)
      → Attempt (SubmitOrderOutcome N D) × W
      → Attempt (SubmitOrderOutcome N D) × W
  unfolding resolve_winner
  resolve_attempt store key request attempts again (returns outcome, w) = (returns outcome, w)
  resolve_attempt store key request attempts again (fails key_taken, w) =
      resolve_winner key request attempts again (unlocked_lookup store key w)
  resolve_attempt store key request attempts again (fails transient, w) = again w
  resolve_attempt store key request attempts again (fails (domain e), w) = (fails (domain e), w)
  resolve_attempt store key request attempts again (fails unexpected, w) = (fails unexpected, w)

  -- The loop, with the attempts made and left; `order_numbers` are the generated numbers.
  unfoldable pub submit_loop :
      SubmissionStore N D W
      → (ℕ → Text)
      → Text
      → OrderRequest N
      → ℕ
      → ℕ
      → Action W (SubmitOrderOutcome N D)
  unfolding resolve_attempt
  submit_loop store order_numbers key request made zero w = (returns (unavailable made), w)
  submit_loop store order_numbers key request made (suc left) w =
      resolve_attempt store key request (suc made)
        (submit_loop store order_numbers key request (suc made) left)
        (store.run_in_transaction (attempt (order_numbers (suc made)) key request) w)

  -- After the first unlocked lookup.
  unfoldable pub after_lookup :
      SubmissionStore N D W
      → (ℕ → Text)
      → ℕ
      → Text
      → OrderRequest N
      → Attempt (Lookup N D) × W
      → Attempt (SubmitOrderOutcome N D) × W
  unfolding submit_loop
  after_lookup store order_numbers max key request (returns lookup_unavailable, w) =
      (returns (unavailable 0), w)
  after_lookup store order_numbers max key request (returns (found (some existing)), w) =
      (returns (resolve_existing existing key request), w)
  after_lookup store order_numbers max key request (returns (found none), w) =
      submit_loop store order_numbers key request 0 max w
  after_lookup store order_numbers max key request (fails e, w) = (fails e, w)

  abbrev pub submit_parsed :
      SubmissionStore N D W
      → (ℕ → Text)
      → ℕ
      → Option (Text × OrderRequest N)
      → Action W (SubmitOrderOutcome N D)
  submit_parsed store order_numbers max none w = (fails unexpected, w)
  submit_parsed store order_numbers max (some (key, request)) w =
      after_lookup store order_numbers max key request (unlocked_lookup store key w)

  -- `submitOrder`
  unfoldable pub submit_order :
      SubmissionStore N D W
      → (ℕ → Text)
      → ℕ
      → SubmitOrderInput N
      → Action W (SubmitOrderOutcome N D)
  submit_order store order_numbers max input w =
      let issues = input_issues input in
      if not (is_empty issues)
      then (returns (invalid issues), w)
      else submit_parsed store order_numbers max (parsed_input input) w

  -- `createSubmitOrder`; `none` is the RangeError.
  unfoldable pub create_submit_order :
      SubmissionStore N D W
      → (ℕ → Text)
      → N
      → Option (SubmitOrderInput N → Action W (SubmitOrderOutcome N D))
  create_submit_order store order_numbers max =
      if not (f.is_safe_integer max) || f.lt max (whole 1)
      then none
      else some (submit_order store order_numbers (natural max))

  -- `verifyOrder`
  unfoldable pub verify_order : InventoryReader N W → OrderRequest N → Action W (OrderEstimate N D)
  verify_order reader request =
      and_then reader.read_inventory_snapshot
        λ inventory. compute (estimate_order request inventory)
