-- ===== src/Tests/Endpoints.antt =====
-- Requests to the endpoints, over the store in memory.
use scos.Ordering.Submit.{submit_order, input_issues, SubmitOrderInput, InventoryReader, returns}
use scos.Ordering.Key.{is_white_space}
use scos.Shared.Schemas.{quantity_valid, geo_point_valid}
use scos.Ordering.Order.{NewOrder}
use scos.Http.Endpoints.{
  post_order, submit_order_issues, Request, fields, VerifyOrderInput, post_verification,
}
use scos.Http.Json.{
  is_json_content_type, subtype_matches, parameters_match, after_parameter, span, after_word,
}
use scos.Prelude.{◌≡◌, refl, true, false, some, List, [], codes}
use scos.Js.Fixed.{Fixed, fixed_floats}
use scos.Zod.{is_empty}
use scos.Zod.Plain.{plain_zod, plain-IsZod}
use scos.Decimal.Exact.{Exact, exact_decimals}
use scos.Numeral.Plain.{fixed_numerals}
use scos.Http.Endpoints.Answers.{
  IsResponse, valid_submission, submit_order_issues-agrees, post_order-IsResponse,
}
use scos.Http.Endpoints.Verified.{IsVerification, valid_request, post_verification-IsVerification}
use scos.Js.Fixed.Laws.{Fixed-IsIeee}
use scos.Decimal.Exact.Laws.{Exact-IsExact}
use scos.Numeral.Plain.{Fixed-IsNumeral}
use scos.Tests.Data.{units, destination, two_warehouses, two_warehouses-valid}
use scos.Tests.Orders.{
  input, numbers, memory_store, memory_store-IsTransactional, memory_view, start, World,
}

accepts_json : is_json_content_type (codes "Application/Problem+JSON; charset=utf-8;q=a b") ≡ true
unfolding is_json_content_type subtype_matches parameters_match after_parameter span after_word
    is_white_space
accepts_json = refl

refuses_text : is_json_content_type (codes "text/json") ≡ false
unfolding is_json_content_type after_word
refuses_text = refl

abbrev order_of : SubmitOrderInput Fixed → Request (SubmitOrderInput Fixed)
order_of i = record { content_type = some (codes "application/json"); body = fields i [] }

submit_order_issues-agrees_example :
    is_empty (submit_order_issues input []) ≡ is_empty (input_issues input)
submit_order_issues-agrees_example = submit_order_issues-agrees plain-IsZod input []

post_order-IsResponse_example :
    IsResponse
      (submit_order memory_store numbers 3)
      start
      (valid_submission (order_of input))
      (post_order memory_store numbers 3 (order_of input) start)
post_order-IsResponse_example =
    post_order-IsResponse plain-IsZod (List (NewOrder Fixed Exact)) memory_store memory_view
      memory_store-IsTransactional numbers 3 (order_of input) start

-- A reader that always finds the two warehouses.
abbrev memory_reader : InventoryReader Fixed World
memory_reader = record { read_inventory_snapshot = λ w. (returns two_warehouses, w) }

abbrev verification : Request (VerifyOrderInput Fixed)
verification = record {
  content_type = some (codes "application/json");
  body =
      fields
        (record {
          quantity = input.quantity;
          latitude = input.latitude;
          longitude = input.longitude;
        })
        [];
}

verification-valid :
    valid_request verification ≡ some (record { quantity = units 7; destination = destination })
unfolding is_json_content_type quantity_valid geo_point_valid subtype_matches parameters_match
    after_parameter span after_word
verification-valid = refl

post_verification_example :
    IsVerification Fixed-IsIeee plain-IsZod Exact-IsExact Fixed-IsNumeral two_warehouses start start
      (valid_request verification)
      (post_verification Exact memory_reader verification start)
post_verification_example =
    post_verification-IsVerification Fixed-IsIeee plain-IsZod Exact-IsExact Fixed-IsNumeral
      memory_reader two_warehouses start start refl two_warehouses-valid verification
