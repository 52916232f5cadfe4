-- ===== src/Http/Endpoints.antt =====
-- `apps/api/src/endpoints`: the submit-order and the verify-order endpoint, with the error mapping
-- of `http/endpoint-app.ts` and the validation of `http/json.ts`.
pub mod Answers
pub mod Verified
use scos.Prelude.{
  ℕ, Bool, true, false, not, Option, some, none, List, [], ◌∷◌, if◌then◌else◌, Text, codes,
}
use scos.Js.{Floats, JsValue, number, whole}
use scos.Zod
use scos.Zod.{Zod, Issue, NumberCheck, is_empty}
use scos.Decimal.{Decimals}
use scos.Numeral.{Numerals}
use scos.Shared.Schemas.{
  latitude_limit, longitude_limit, quantity_schema, latitude_schema, longitude_schema,
}
use scos.Ordering.Key.{submission_key_schema}
use scos.Ordering.Request.{OrderRequest}
use scos.Ordering.Estimate.{OrderEstimate, valid, shipping_exceeds_limit, insufficient_stock}
use scos.Ordering.Submit.{
  Attempt, returns, fails, Action, SubmitOrderInput, SubmitOrderOutcome, accepted, rejected,
  conflict, invalid, unavailable, SubmissionStore, submit_order, InventoryReader, verify_order,
}
use scos.Http.Json.{is_json}
use scos.Http.Bodies.{
  ErrorCode, invalid_request_code, submission_id_conflict, insufficient_stock_code,
  shipping_exceeds_limit_code, internal_error, service_unavailable, ErrorBody, error_body,
  EstimateResponse, OrderResponse, estimate_body, order_body,
}

-- The fields of an object that a body was parsed to, and the keys that the schema does not know; or
-- the value is no object, or the body is no JSON.
pub data JsonBody (A : Type 0) : Type 0 where
  malformed : JsonBody A
  not_object : JsonBody A
  fields : A → List Text → JsonBody A

pub record Request (A : Type 0) : Type 0 where
  pub content_type : Option Text
  pub body : JsonBody A

pub record VerifyOrderInput (N : Type 0) : Type 0 where
  pub quantity : JsValue N
  pub latitude : JsValue N
  pub longitude : JsValue N

pub data Body (N : Type 0) : Type 0 where
  order_response : OrderResponse N → Body N
  estimate_response : EstimateResponse N → Body N
  error_response : ErrorBody → Body N
  rejected_response : ErrorBody → EstimateResponse N → Body N

pub record Response (N : Type 0) : Type 0 where
  pub status : ℕ
  pub retry_after : Option ℕ
  pub body : Body N

-- MESSAGES
abbrev pub invalid_body_message : Text
invalid_body_message = codes "The request body is invalid."

abbrev pub malformed_json_message : Text
malformed_json_message = codes "The request body is not valid JSON."

abbrev pub unsupported_content_type_message : Text
unsupported_content_type_message =
    codes "The request body must be JSON sent with Content-Type: application/json."

abbrev pub internal_message : Text
internal_message = codes "An unexpected error occurred. The request may be retried."

pub record SubmitOrderMessages : Type 0 where
  pub conflict : Text
  pub insufficient_stock : Text
  pub shipping_exceeds_limit : Text
  pub unavailable : Text
  pub internal : Text

-- SUBMIT_ORDER_MESSAGES
unfoldable pub submit_order_messages : SubmitOrderMessages
submit_order_messages = record {
  conflict =
      codes
        "This submissionId was already used for an Order with a different quantity or destination. Use a new submissionId for a different order.";
  insufficient_stock =
      codes
        "Available stock cannot fulfil the requested quantity. Nothing was stored; the same submissionId may be reused.";
  shipping_exceeds_limit =
      codes
        "The shipping cost exceeds 15% of the discounted merchandise total. Nothing was stored; the same submissionId may be reused.";
  unavailable =
      codes
        "The order could not be processed right now and was not accepted. Retry with the same submissionId after the Retry-After delay.";
  internal =
      codes
        "An unexpected error occurred and the order could not be confirmed. Retry with the same submissionId: an accepted Order is returned, never duplicated.";
}

-- RETRY_AFTER_SECONDS
abbrev pub retry_after_seconds : ℕ
retry_after_seconds = 1

module _ {N : Type 0} where
  -- `c.json(body, status)`
  abbrev pub json : Body N → ℕ → Response N
  json body status = record { status = status; retry_after = none; body = body }

  -- `invalidRequest`
  abbrev pub invalid_request : Text → Option (List Issue) → Response N
  invalid_request message issues =
      json (error_response (error_body invalid_request_code message issues)) 400

  -- `errorHandler`, for an error that is not an HTTPException of the validator.
  abbrev pub internal_server_error : Text → Response N
  internal_server_error message = json (error_response (error_body internal_error message none)) 500

  -- What the client gets if the handler throws.
  abbrev pub handled : {W : Type 0} → Text → Attempt (Response N) × W → Response N × W
  handled message (returns r, w) = (r, w)
  handled message (fails e, w) = (internal_server_error message, w)

  -- `requireJson` and `jsonBody` before a handler of the validated fields.
  abbrev pub with_json_body :
      {A W : Type 0} ⦃z : Zod N⦄
      → (A → List Text → List Issue)
      → (A → W → Response N × W)
      → Request A
      → W
      → Response N × W
  with_json_body ⦃z⦄ issues_of handle request w =
      if not (is_json request.content_type)
      then (invalid_request unsupported_content_type_message none, w)
      else elim request.body [
        | malformed ↦ (invalid_request malformed_json_message none, w)
        | not_object ↦ (invalid_request invalid_body_message (some z.not_object_issues), w)
        | fields input unknown ↦
            let issues = issues_of input unknown in
            if not (is_empty issues)
            then (invalid_request invalid_body_message (some issues), w)
            else handle input w
      ]

  module _ ⦃f : Floats N⦄ where
    -- `quantityFieldSchema`, which is core's schema, `latitudeFieldSchema` and `longitudeFieldSchema`
    abbrev pub quantity_field_schema : List (NumberCheck N)
    quantity_field_schema = quantity_schema

    abbrev pub latitude_field_schema : List (NumberCheck N)
    latitude_field_schema =
        Zod.min (f.neg (whole latitude_limit)) ∷ Zod.max (whole latitude_limit) ∷ []

    abbrev pub longitude_field_schema : List (NumberCheck N)
    longitude_field_schema =
        Zod.min (f.neg (whole longitude_limit)) ∷ Zod.max (whole longitude_limit) ∷ []

  module _ ⦃f : Floats N⦄ ⦃z : Zod N⦄ where
    -- `submitOrderRequestSchema`
    unfoldable pub submit_order_issues : SubmitOrderInput N → List Text → List Issue
    submit_order_issues input unknown = z.strict_object_issues unknown (
        (codes "submissionId", z.string_issues submission_key_schema input.submission_id)
        ∷ (codes "quantity", z.number_issues quantity_field_schema input.quantity)
        ∷ (codes "latitude", z.number_issues latitude_field_schema input.latitude)
        ∷ (codes "longitude", z.number_issues longitude_field_schema input.longitude)
        ∷ [])

    -- `verifyOrderRequestSchema`
    unfoldable pub verify_order_issues : VerifyOrderInput N → List Text → List Issue
    verify_order_issues input unknown = z.strict_object_issues unknown (
        (codes "quantity", z.number_issues quantity_field_schema input.quantity)
        ∷ (codes "latitude", z.number_issues latitude_field_schema input.latitude)
        ∷ (codes "longitude", z.number_issues longitude_field_schema input.longitude)
        ∷ [])

    abbrev pub order_request : JsValue N → JsValue N → JsValue N → Option (OrderRequest N)
    order_request (number q) (number a) (number o) =
        some (record { quantity = q; destination = record { latitude = a; longitude = o } })
    order_request _ _ _ = none

    -- `orderRequestSchema.parse` of numbers; `none` is the ZodError.
    unfoldable pub parse_request : VerifyOrderInput N → Option (OrderRequest N)
    parse_request input =
        let issues = z.object_issues (
          (codes "quantity", z.number_issues quantity_schema input.quantity)
          ∷ (codes "latitude", z.number_issues latitude_schema input.latitude)
          ∷ (codes "longitude", z.number_issues longitude_schema input.longitude)
          ∷ []) in
        if not (is_empty issues)
        then none
        else order_request input.quantity input.latitude input.longitude

module _ {N D : Type 0} ⦃d : Decimals D⦄ where
  -- `outcome.reason` with its message; a valid estimate is never rejected.
  abbrev pub rejection : OrderEstimate N D → ErrorBody
  rejection (insufficient_stock base) =
      error_body insufficient_stock_code submit_order_messages.insufficient_stock none
  rejection (shipping_exceeds_limit base s) =
      error_body shipping_exceeds_limit_code submit_order_messages.shipping_exceeds_limit none
  rejection (valid base s) =
      error_body shipping_exceeds_limit_code submit_order_messages.shipping_exceeds_limit none

  -- The `switch` on the outcome.
  unfoldable pub outcome_response : SubmitOrderOutcome N D → Response N
  unfolding order_body estimate_body
  outcome_response (accepted order replayed) = json (order_response (order_body order)) 201
  outcome_response (rejected estimate) =
      json (rejected_response (rejection estimate) (estimate_body estimate)) 422
  outcome_response (conflict key) =
      json (error_response (error_body submission_id_conflict submit_order_messages.conflict none))
        409
  outcome_response (invalid issues) = invalid_request invalid_body_message (some issues)
  outcome_response (unavailable attempts) = record {
    status = 503;
    retry_after = some retry_after_seconds;
    body = error_response (error_body service_unavailable submit_order_messages.unavailable none);
  }

  abbrev pub respond :
      {W : Type 0} → Attempt (SubmitOrderOutcome N D) × W → Attempt (Response N) × W
  respond (returns outcome, w) = (returns (outcome_response outcome), w)
  respond (fails e, w) = (fails e, w)

  abbrev pub respond_estimate :
      {W : Type 0} → Attempt (OrderEstimate N D) × W → Attempt (Response N) × W
  respond_estimate (returns estimate, w) =
      (returns (json (estimate_response (estimate_body estimate)) 200), w)
  respond_estimate (fails e, w) = (fails e, w)

module _ {N D W : Type 0} ⦃f : Floats N⦄ ⦃z : Zod N⦄ ⦃d : Decimals D⦄ ⦃t : Numerals N D⦄ where
  -- The handler of the validated body.
  unfoldable pub submit_validated :
      SubmissionStore N D W → (ℕ → Text) → ℕ → SubmitOrderInput N → W → Response N × W
  unfolding outcome_response
  submit_validated store order_numbers max input w =
      handled submit_order_messages.internal
        (respond (submit_order store order_numbers max input w))

  -- `POST /api/v1/orders` of `createSubmitOrderApp`, over the use case of a store.
  unfoldable pub post_order :
      SubmissionStore N D W → (ℕ → Text) → ℕ → Request (SubmitOrderInput N) → W → Response N × W
  unfolding submit_order_issues submit_validated
  post_order store order_numbers max =
      with_json_body submit_order_issues (submit_validated store order_numbers max)

module _ {N W : Type 0} (D : Type 0) ⦃f : Floats N⦄ ⦃z : Zod N⦄ ⦃d : Decimals D⦄
    ⦃t : Numerals N D⦄ where
  abbrev pub verify_parsed : InventoryReader N W → Option (OrderRequest N) → W → Response N × W
  verify_parsed reader none w = (internal_server_error internal_message, w)
  verify_parsed reader (some request) w =
      handled internal_message (respond_estimate (verify_order {D = D} reader request w))

  -- `POST /api/v1/orders/verify` of `createVerifyOrderApp`
  unfoldable pub post_verification :
      InventoryReader N W → Request (VerifyOrderInput N) → W → Response N × W
  unfolding verify_order_issues parse_request estimate_body
  post_verification reader =
      with_json_body verify_order_issues λ input w. verify_parsed reader (parse_request input) w
