-- ===== src/Routes/Form/Tests.antt =====
-- Routes run through the code of the forms.
use text.Mathlib.Text.{◌==◌ as str_eq}
use aurora_api_gateway.Prelude.{◌≡◌, refl, true, false, none, some, if◌then◌else◌}
use aurora_api_gateway.Prelude.Int.{pos}
use aurora_api_gateway.Prelude.Json.{obj, end, JsonText}
use aurora_api_gateway.Prelude.Text.{trim, to_lower_case, starts_with_slash}
use aurora_api_gateway.Prelude.Text.Laws.{trim_idem}
use aurora_api_gateway.Routes.Form.{
  RouteFormState, RoutePayload, sent, check_route, default_route_form, item_form,
}
use aurora_api_gateway.Routes.Form.Sent.{
  ReadsTrimmed, IsRoutePayload, stored_route, check_route-IsRoutePayload, check_route-item_form,
}

-- A reader of the empty object alone.
abbrev braces_only : JsonText
braces_only = record {
  parse = λ s. if str_eq (trim s) "{}" then some (obj end) else none;
  stringify = λ v. "{}";
}

braces_only-ReadsTrimmed : ReadsTrimmed braces_only
braces_only-ReadsTrimmed = record {
  braces = unfold trim in refl;
  trimmed = λ s h. rw (trim_idem s) h;
}

abbrev orders : RouteFormState
orders = record default_route_form {
  name = " orders ";
  host = " API.Example.com ";
  path = "/v1";
  upstream_name = "order-pool";
  priority = some (pos 0);
  plugins_json = " {} ";
}

abbrev orders_payload : RoutePayload
orders_payload = record {
  name = "orders";
  host = "api.example.com";
  path = "/v1";
  upstream_name = "order-pool";
  enabled = true;
  strip_path = false;
  websocket = false;
  priority = pos 10;
  plugins_json = "{}";
  description = "";
}

orders_sent : check_route braces_only orders ≡ sent orders_payload
unfolding check_route trim to_lower_case starts_with_slash
orders_sent = refl

check_route-IsRoutePayload_example : IsRoutePayload braces_only orders_payload
check_route-IsRoutePayload_example =
    check_route-IsRoutePayload braces_only orders orders_payload braces_only-ReadsTrimmed
      orders_sent

check_route-item_form_example :
    check_route braces_only (item_form (stored_route "7" orders_payload)) ≡ sent orders_payload
check_route-item_form_example =
    check_route-item_form braces_only "7" orders orders_payload braces_only-ReadsTrimmed orders_sent
