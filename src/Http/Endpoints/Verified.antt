-- ===== src/Http/Endpoints/Verified.antt =====
-- What the verify-order endpoint answers, against the validated request and its estimate.
use scos.Prelude.{
  ℕ, not, ◌≡◌, refl, sym, ap, ◌∙◌, Bool, true, false, false≢true, ◌&&◌, Option, some, none, List,
  [], ◌∷◌, arith, all, codes, Text, Bool-cases, inl, inr, if◌then◌else◌,
}
use scos.Js.{Floats, IsIeee, JsValue, number, text, other}
use scos.Zod.{Zod, IsZod, Issue, is_empty, conforms_number}
use scos.Decimal.{Decimals, IsExact}
use scos.Numeral.{Numerals, IsNumeral}
use scos.Shared.Errors.{Result, ok, throws, amount_out_of_range}
use scos.Shared.Schemas.{
  quantity_schema, latitude_schema, longitude_schema, quantity_valid, geo_point_valid,
}
use scos.Shipping.Allocation.{InventorySnapshot, ShippingPlan, snapshot_valid}
use scos.Ordering.Request.{OrderRequest}
use scos.Ordering.Estimate.{EstimateBase, OrderEstimate, estimate_order}
use scos.Ordering.Estimate.Laws.{
  IsEstimate, IsShipped, estimate_order-IsEstimate, short, shipped, within_limit, over_limit,
  overflow,
}
use scos.Ordering.Submit.{returns, compute, InventoryReader, verify_order}
use scos.Http.Json.{is_json}
use scos.Http.Bodies.{estimate_body}
use scos.Http.Endpoints.{
  JsonBody, malformed, not_object, fields, Request, VerifyOrderInput, Response, json,
  estimate_response, invalid_request, internal_server_error, internal_message, handled,
  respond_estimate, malformed_json_message, invalid_body_message, verify_order_issues,
  parse_request, order_request, verify_parsed, post_verification,
}

module _ {N : Type 0} ⦃f : Floats N⦄ ⦃z : Zod N⦄ where
  -- The request that three values stand for: numbers, a supported quantity and a point on Earth.
  abbrev pub valid_values : JsValue N → JsValue N → JsValue N → Option (OrderRequest N)
  valid_values (number q) (number a) (number o) =
      if quantity_valid q && geo_point_valid (record { latitude = a; longitude = o })
      then some (record { quantity = q; destination = record { latitude = a; longitude = o } })
      else none
  valid_values _ _ _ = none

  abbrev pub valid_body : JsonBody (VerifyOrderInput N) → Option (OrderRequest N)
  valid_body (fields input []) = valid_values input.quantity input.latitude input.longitude
  valid_body _ = none

  -- A request to verify is valid if it is JSON with exactly the three fields, each of them valid.
  abbrev pub valid_request : Request (VerifyOrderInput N) → Option (OrderRequest N)
  valid_request request = if is_json request.content_type then valid_body request.body else none

  -- The three fields as the schemas see them.
  abbrev fields_issues : VerifyOrderInput N → List (Text × List Issue)
  fields_issues input =
      (codes "quantity", z.number_issues quantity_schema input.quantity)
      ∷ (codes "latitude", z.number_issues latitude_schema input.latitude)
      ∷ (codes "longitude", z.number_issues longitude_schema input.longitude)
      ∷ []

  abbrev fields_valid : VerifyOrderInput N → Bool
  fields_valid input = all (λ field. is_empty field.1) (fields_issues input)

  record IsParsed (input : VerifyOrderInput N) (r : OrderRequest N) : Type 0 where
    found : valid_values input.quantity input.latitude input.longitude ≡ some r
    parsed : order_request input.quantity input.latitude input.longitude ≡ some r
    quantity_ok : quantity_valid r.quantity ≡ true
    destination_ok : geo_point_valid r.destination ≡ true

  module _ (schemas : IsZod N) where
    fields_of_values :
        (q a o : N)
        → fields_valid (record { quantity = number q; latitude = number a; longitude = number o })
          ≡ (quantity_valid q && geo_point_valid (record { latitude = a; longitude = o }))
    unfolding quantity_valid geo_point_valid
    fields_of_values q a o =
        ap (λ b. is_empty (z.number_issues quantity_schema (number q)) && b)
          (sym (schemas.object_lem _))

    -- The schema of a number refuses every other value.
    only_numbers :
        (input : VerifyOrderInput N)
        → fields_valid input ≡ true
        → (conforms_number quantity_schema input.quantity ≡ true)
          × (conforms_number latitude_schema input.latitude ≡ true)
          × (conforms_number longitude_schema input.longitude ≡ true)
    only_numbers input h = (
      sym (schemas.number_lem quantity_schema input.quantity) ∙ ground arith,
      sym (schemas.number_lem latitude_schema input.latitude) ∙ ground arith,
      sym (schemas.number_lem longitude_schema input.longitude) ∙ ground arith,
    )

    valid_lem :
        (q a o : JsValue N)
        → fields_valid (record { quantity = q; latitude = a; longitude = o }) ≡ true
        → (r : OrderRequest N) × IsParsed (record { quantity = q; latitude = a; longitude = o }) r
    valid_lem (number q) (number a) (number o) h =
        let both = sym (fields_of_values q a o) ∙ h in
        (
          record { quantity = q; destination = record { latitude = a; longitude = o } },
          record {
            found = rw both refl;
            parsed = refl;
            quantity_ok = ground arith;
            destination_ok = ground arith;
          },
        )
    valid_lem (number q) (number a) (text t) h = absurd (false≢true (only_numbers _ h).2)
    valid_lem (number q) (number a) other h = absurd (false≢true (only_numbers _ h).2)
    valid_lem (number q) (text t) o h = absurd (false≢true (only_numbers _ h).1)
    valid_lem (number q) other o h = absurd (false≢true (only_numbers _ h).1)
    valid_lem (text t) a o h = absurd (false≢true (only_numbers _ h).0)
    valid_lem other a o h = absurd (false≢true (only_numbers _ h).0)

    invalid_lem :
        (q a o : JsValue N)
        → fields_valid (record { quantity = q; latitude = a; longitude = o }) ≡ false
        → valid_values q a o ≡ none
    invalid_lem (number q) (number a) (number o) h = rw (sym (fields_of_values q a o) ∙ h) refl
    invalid_lem (number q) (number a) (text t) h = refl
    invalid_lem (number q) (number a) other h = refl
    invalid_lem (number q) (text t) o h = refl
    invalid_lem (number q) other o h = refl
    invalid_lem (text t) a o h = refl
    invalid_lem other a o h = refl

    parse_request-of_valid :
        (input : VerifyOrderInput N) (r : OrderRequest N)
        → fields_valid input ≡ true
        → IsParsed input r
        → parse_request input ≡ some r
    unfolding parse_request
    parse_request-of_valid input r h p = rw (schemas.object_lem (fields_issues input), h) p.parsed

    verify_order_issues-valid :
        (input : VerifyOrderInput N) (unknown : List Text)
        → is_empty (verify_order_issues input unknown) ≡ (is_empty unknown && fields_valid input)
    unfolding verify_order_issues
    verify_order_issues-valid input unknown =
        schemas.strict_object_lem unknown (fields_issues input)

module _ {N D W : Type 0} ⦃f : Floats N⦄ ⦃z : Zod N⦄ ⦃d : Decimals D⦄ ⦃t : Numerals N D⦄
    (ieee : IsIeee N) (schemas : IsZod N) (x : IsExact D) (numeral : IsNumeral N D ieee x) where
  -- The answers to a verification, by its valid request, with the state that each leaves.
  pub data IsVerification (inventory : InventorySnapshot N) (w v : W)
      : Option (OrderRequest N) → Response N × W → Type 0 where
    refused :
        (message : Text) (issues : Option (List Issue))
        → IsVerification inventory w v none (invalid_request message issues, w)
    estimated :
        (request : OrderRequest N) (e : OrderEstimate N D)
        → estimate_order request inventory ≡ ok e
        → IsVerification inventory w v
            (some request)
            (json (estimate_response (estimate_body e)) 200, v)
    overflowed :
        (request : OrderRequest N)
        → estimate_order {D = D} request inventory ≡ throws amount_out_of_range
        → IsVerification inventory w v (some request) (internal_server_error internal_message, v)

  module _ (reader : InventoryReader N W) (inventory : InventorySnapshot N) (w v : W)
      (reads : reader.read_inventory_snapshot w ≡ (returns inventory, v))
      (stocked : snapshot_valid inventory ≡ true) where
    abbrev Answered : OrderRequest N → Result (OrderEstimate N D) → Type 0
    Answered r result =
        estimate_order r inventory ≡ result
        → IsVerification inventory w v (some r)
            (handled internal_message (respond_estimate (compute result v)))

    shipped-IsVerification :
        (r : OrderRequest N) {base : EstimateBase N D} {p : ShippingPlan N} {c : ℕ}
        (result : Result (OrderEstimate N D))
        → IsShipped ieee schemas x numeral base p c result
        → Answered r result
    shipped-IsVerification r _ (within_limit s b _ _ _) h = estimated r _ h
    shipped-IsVerification r _ (over_limit s b _ _ _) h = estimated r _ h
    shipped-IsVerification r _ (overflow cost b _ _ _ _ _) h = overflowed r h

    answer :
        (r : OrderRequest N) {q : ℕ} (result : Result (OrderEstimate N D))
        → IsEstimate ieee schemas x numeral r inventory q result
        → Answered r result
    answer r _ (short base _ _) h = estimated r _ h
    answer r _ (shipped base p result _ _ s) h = shipped-IsVerification r result s h

    verify_parsed-IsVerification :
        (input : VerifyOrderInput N) (r : OrderRequest N)
        → IsParsed input r
        → IsVerification inventory w v (some r) (verify_parsed D reader (some r) w)
    unfolding verify_order
    verify_parsed-IsVerification input r p =
        let (q, _, e) =
          estimate_order-IsEstimate ieee schemas x numeral r inventory p.quantity_ok
            p.destination_ok stocked in
        rw reads (answer r _ e refl)

    body-IsVerification :
        (body : JsonBody (VerifyOrderInput N))
        → IsVerification inventory w v (valid_body body) (elim body [
          | malformed ↦ (invalid_request malformed_json_message none, w)
          | not_object ↦ (invalid_request invalid_body_message (some z.not_object_issues), w)
          | fields input unknown ↦
              if not (is_empty (verify_order_issues input unknown))
              then (
                invalid_request invalid_body_message (some (verify_order_issues input unknown)),
                w,
              )
              else verify_parsed D reader (parse_request input) w
        ])
    body-IsVerification malformed = refused _ none
    body-IsVerification not_object = refused _ _
    body-IsVerification (fields input (key ∷ unknown)) =
        rw (verify_order_issues-valid schemas input (key ∷ unknown)) (refused _ _)
    body-IsVerification (fields input []) = elim (Bool-cases (fields_valid input)) [
      | inl fine ↦
          let (r, p) = valid_lem schemas input.quantity input.latitude input.longitude fine in
          rw
            (
              verify_order_issues-valid schemas input [],
              fine,
              p.found,
              parse_request-of_valid schemas input r fine p,
            )
            (verify_parsed-IsVerification input r p)
      | inr bad ↦
          rw
            (
              verify_order_issues-valid schemas input [],
              bad,
              invalid_lem schemas input.quantity input.latitude input.longitude bad,
            )
            (refused _ _)
    ]

    -- If the reader gives a valid snapshot, then whatever the request, the endpoint answers 400 and
    -- leaves the state as it was if the request is not JSON with exactly three valid fields, and
    -- otherwise with 200 and the estimate of the request against that snapshot, or with 500 if the
    -- total of the estimate overflows.
    pub post_verification-IsVerification :
        (request : Request (VerifyOrderInput N))
        → IsVerification inventory w v
            (valid_request request)
            (post_verification D reader request w)
    unfolding post_verification
    post_verification-IsVerification request = elim (Bool-cases (is_json request.content_type)) [
      | inl typed ↦ rw typed (body-IsVerification request.body)
      | inr untyped ↦ rw untyped (refused _ none)
    ]
