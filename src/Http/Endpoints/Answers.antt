-- ===== src/Http/Endpoints/Answers.antt =====
-- What the submit-order endpoint answers, and what it leaves behind.
use mathlib.Core.Path.{subst}
use scos.Prelude.{
  ℕ, ◌≡◌, refl, sym, ap, ◌∙◌, true, false, false≢true, not, ◌&&◌, Option, some, none, Bool, [], ◌∷◌,
  List, Text, Bool-cases, Option-cases, inl, inr, if◌then◌else◌,
}
use scos.Js.{Floats}
use scos.Zod.{Zod, IsZod, Issue, is_empty}
use scos.Decimal.{Decimals}
use scos.Numeral.{Numerals}
use scos.Ordering.Request.{OrderRequest}
use scos.Ordering.Estimate.{OrderEstimate}
use scos.Ordering.Order.{Order}
use scos.Ordering.Submit.{
  Failure, Action, Attempt, returns, fails, unexpected, SubmitOrderInput, SubmitOrderOutcome,
  accepted, rejected, conflict, invalid, unavailable, SubmissionStore, input_issues, parsed_input,
  submit_order,
}
use scos.Ordering.Submit.Laws.{StoreView, IsTransactional, is_stop}
use scos.Ordering.Submit.Safety.{IsBacked}
use scos.Ordering.Submit.Rejections.{IsRejection, exceeds, short, submit_order-IsRejected}
use scos.Http.Json.{is_json}
use scos.Http.Bodies.{
  invalid_request_code, submission_id_conflict, internal_error, service_unavailable, ErrorBody,
  order_body, estimate_body,
}
use scos.Http.Endpoints.{
  JsonBody, invalid_body_message, invalid_request, malformed_json_message, malformed, not_object,
  fields, Request, order_response, error_response, rejected_response, Response, submit_order_issues,
  outcome_response, respond, handled, submit_validated, post_order, submit_order_messages,
}

module _ {N : Type 0} ⦃f : Floats N⦄ ⦃z : Zod N⦄ (schemas : IsZod N) where
  -- The schema of the endpoint refuses a body exactly if it has an unknown key or the use case would
  -- refuse its fields.
  pub submit_order_issues-agrees :
      (input : SubmitOrderInput N) (unknown : List Text)
      → is_empty (submit_order_issues input unknown)
        ≡ (is_empty unknown && is_empty (input_issues input))
  unfolding submit_order_issues input_issues
  submit_order_issues-agrees input unknown =
      schemas.strict_object_lem unknown _
      ∙ ap (λ b. is_empty unknown && b) (sym (schemas.object_lem _))

-- What a client of the submit-order endpoint gets for each result of the use case: the status, the
-- error code, the Retry-After header and the body agree.
pub data IsAnswer {N D : Type 0} ⦃d : Decimals D⦄
    : Attempt (SubmitOrderOutcome N D) → Response N → Type 0 where
  created :
      (order : Order N D) (replayed : Bool)
      → IsAnswer
          (returns (accepted order replayed))
          (record { status = 201; retry_after = none; body = order_response (order_body order) })
  -- the code of the error is the reason of the estimate
  refused :
      (e : OrderEstimate N D) (error : ErrorBody)
      → (estimate_body e).is_valid ≡ false
      → (estimate_body e).reason ≡ some error.code
      → IsAnswer (returns (rejected e)) (record {
        status = 422;
        retry_after = none;
        body = rejected_response error (estimate_body e);
      })
  in_conflict :
      (key message : Text)
      → IsAnswer (returns (conflict key)) (record {
        status = 409;
        retry_after = none;
        body =
            error_response
              (record { code = submission_id_conflict; message = message; issues = none });
      })
  bad_request :
      (message : Text) (issues : List Issue)
      → IsAnswer (returns (invalid issues)) (record {
        status = 400;
        retry_after = none;
        body =
            error_response
              (record { code = invalid_request_code; message = message; issues = some issues });
      })
  try_again :
      (attempts : ℕ) (message : Text)
      → IsAnswer (returns (unavailable attempts)) (record {
        status = 503;
        retry_after = some 1;
        body =
            error_response
              (record { code = service_unavailable; message = message; issues = none });
      })
  failed :
      (e : Failure) (message : Text)
      → IsAnswer (fails e) (record {
        status = 500;
        retry_after = none;
        body = error_response (record { code = internal_error; message = message; issues = none });
      })

module _ {N : Type 0} ⦃f : Floats N⦄ ⦃z : Zod N⦄ where
  abbrev pub valid_submission_body : JsonBody (SubmitOrderInput N) → Option (SubmitOrderInput N)
  valid_submission_body (fields input []) =
      if is_empty (input_issues input) then some input else none
  valid_submission_body _ = none

  -- A request to submit is valid if it is JSON with exactly the fields of the use case, in which the
  -- use case finds no issue.
  abbrev pub valid_submission : Request (SubmitOrderInput N) → Option (SubmitOrderInput N)
  valid_submission request =
      if is_json request.content_type then valid_submission_body request.body else none

-- A response and the state after it, by the valid input of the request and what the use case does.
pub data IsResponse {N D W : Type 0} ⦃d : Decimals D⦄
    (run : SubmitOrderInput N → Action W (SubmitOrderOutcome N D)) (w : W)
    : Option (SubmitOrderInput N) → Response N × W → Type 0 where
  not_valid :
      (message : Text) (issues : Option (List Issue))
      → IsResponse run w none (
        record {
          status = 400;
          retry_after = none;
          body =
              error_response
                (record { code = invalid_request_code; message = message; issues = issues });
        },
        w,
      )
  answered :
      (input : SubmitOrderInput N) (r : Response N)
      → IsAnswer (run input w).0 r
      → IsResponse run w (some input) (r, (run input w).1)

module _ {N D : Type 0} ⦃d : Decimals D⦄ where
  rejected-IsAnswer :
      (e : OrderEstimate N D)
      → IsRejection e
      → IsAnswer (returns (rejected e)) (outcome_response (rejected e))
  unfolding outcome_response estimate_body
  rejected-IsAnswer _ (exceeds base s) = refused _ _ refl refl
  rejected-IsAnswer _ (short base) = refused _ _ refl refl

  handled-IsAnswer :
      {W : Type 0} (message : Text) (r : Attempt (SubmitOrderOutcome N D) × W)
      → ((e : OrderEstimate N D) → r.0 ≡ returns (rejected e) → IsRejection e)
      → IsAnswer r.0 (handled message (respond r)).0
  unfolding outcome_response
  handled-IsAnswer message (returns (accepted o b), w) h = created o b
  handled-IsAnswer message (returns (rejected e), w) h = rejected-IsAnswer e (h e refl)
  handled-IsAnswer message (returns (conflict k), w) h = in_conflict k _
  handled-IsAnswer message (returns (invalid is), w) h = bad_request _ is
  handled-IsAnswer message (returns (unavailable n), w) h = try_again n _
  handled-IsAnswer message (fails e, w) h = failed e _

  handled-state :
      {W : Type 0} (message : Text) (r : Attempt (SubmitOrderOutcome N D) × W)
      → (handled message (respond r)).1 ≡ r.1
  handled-state message (returns o, w) = refl
  handled-state message (fails e, w) = refl

module _ {N W S : Type 0} (D : Type 0) ⦃f : Floats N⦄ ⦃z : Zod N⦄ ⦃d : Decimals D⦄
    ⦃t : Numerals N D⦄ (view : StoreView N S W) where
  -- The input of a request may have been stored as an Order, whose acceptance was not confirmed.
  pub record MayBeStored (input : SubmitOrderInput N) (was after : S) : Type 0 where
    pub key : Text
    pub request : OrderRequest N
    pub parsed : parsed_input input ≡ some (key, request)
    pub saved : Order N D
    pub backed : IsBacked view key request was after saved

module _ {N D W : Type 0} ⦃f : Floats N⦄ ⦃z : Zod N⦄ ⦃d : Decimals D⦄ ⦃t : Numerals N D⦄
    (schemas : IsZod N) (S : Type 0) (store : SubmissionStore N D W) (view : StoreView N S W)
    (law : IsTransactional view store) (order_numbers : ℕ → Text) (max : ℕ) where
  -- An input that is refused or does not parse starts nothing.
  unparsed :
      (input : SubmitOrderInput N) (w : W)
      → parsed_input input ≡ none
      → (o : Attempt (SubmitOrderOutcome N D)) × (submit_order store order_numbers max input w
          ≡ (o, w))
        × (is_stop o ≡ true)
  unfolding submit_order
  unparsed input w h = elim (Bool-cases (is_empty (input_issues input))) [
    | inl fine ↦ (fails unexpected, rw (fine, h) refl, refl)
    | inr issues ↦ (returns (invalid (input_issues input)), rw issues refl, refl)
  ]

  submit-IsRejection :
      (input : SubmitOrderInput N) (w : W) (e : OrderEstimate N D)
      → (submit_order store order_numbers max input w).0 ≡ returns (rejected e)
      → IsRejection e
  submit-IsRejection input w e h = elim (Option-cases (parsed_input input)) [
    | inl none_parsed ↦
        let (o, same, stops) = unparsed input w none_parsed in
        absurd (false≢true (sym (ap is_stop (sym (ap (λ r. r.0) same) ∙ h)) ∙ stops))
    | inr ((key, request), parsed) ↦
        (submit_order-IsRejected S store view law order_numbers max input key request parsed w e
          h).rejection
  ]

  body-cases :
      (P : Option (SubmitOrderInput N) → Response N × W → Type 0) (w : W)
      (body : JsonBody (SubmitOrderInput N))
      → ((message : Text) (issues : Option (List Issue))
          → P none (invalid_request message issues, w))
      → ((input : SubmitOrderInput N)
          → P (some input) (submit_validated store order_numbers max input w))
      → P (valid_submission_body body) (elim body [
        | malformed ↦ (invalid_request malformed_json_message none, w)
        | not_object ↦ (invalid_request invalid_body_message (some z.not_object_issues), w)
        | fields input unknown ↦
            if not (is_empty (submit_order_issues input unknown))
            then (
              invalid_request invalid_body_message (some (submit_order_issues input unknown)),
              w,
            )
            else submit_validated store order_numbers max input w
      ])
  body-cases P w malformed refuse accept = refuse _ none
  body-cases P w not_object refuse accept = refuse _ _
  body-cases P w (fields input (key ∷ unknown)) refuse accept =
      rw (submit_order_issues-agrees schemas input (key ∷ unknown)) (refuse _ _)
  body-cases P w (fields input []) refuse accept =
      elim (Bool-cases (is_empty (input_issues input))) [
        | inl fine ↦ rw (submit_order_issues-agrees schemas input [], fine) (accept input)
        | inr issues ↦ rw (submit_order_issues-agrees schemas input [], issues) (refuse _ _)
      ]

  -- The endpoint, by whether the request is valid.
  post_order-cases :
      (P : Option (SubmitOrderInput N) → Response N × W → Type 0)
      (request : Request (SubmitOrderInput N)) (w : W)
      → ((message : Text) (issues : Option (List Issue))
          → P none (invalid_request message issues, w))
      → ((input : SubmitOrderInput N)
          → P (some input) (submit_validated store order_numbers max input w))
      → P (valid_submission request) (post_order store order_numbers max request w)
  unfolding post_order
  post_order-cases P request w refuse accept = elim (Bool-cases (is_json request.content_type)) [
    | inl typed ↦ rw typed (body-cases P w request.body refuse accept)
    | inr untyped ↦ rw untyped (refuse _ none)
  ]

  -- Whatever the request, on a store that meets the port's contract: a request that is not valid is
  -- answered with 400 and changes nothing, and a valid one is submitted, and answered by the result:
  -- 201 with the Order, 422 with the rejected estimate, whose reason is the code of the error, 409
  -- for a conflict, 400 with the issues, 503 with Retry-After if unavailable, and 500 for a failure.
  pub post_order-IsResponse :
      (request : Request (SubmitOrderInput N)) (w : W)
      → IsResponse
          (submit_order store order_numbers max)
          w
          (valid_submission request)
          (post_order store order_numbers max request w)
  unfolding submit_validated
  post_order-IsResponse request w =
      post_order-cases (IsResponse (submit_order store order_numbers max) w) request w
        (λ message issues. not_valid message issues)
        (λ input.
          let ran = submit_order store order_numbers max input w in
          let response = handled submit_order_messages.internal (respond ran) in
          subst
            (λ v. IsResponse (submit_order store order_numbers max) w (some input) (response.0, v))
            (sym (handled-state submit_order_messages.internal ran))
            (answered input response.0
              (handled-IsAnswer submit_order_messages.internal ran (submit-IsRejection input w))))
