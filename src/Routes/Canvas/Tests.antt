-- ===== src/Routes/Canvas/Tests.antt =====
-- The canvas of the routes on sample routes.
use text.Mathlib.Text.{◌==◌ as str_eq}
use aurora_api_gateway.Prelude.{
  ◌≡◌, refl, String, true, false, none, some, [], ◌∷◌, map, sort_by, if◌then◌else◌,
}
use aurora_api_gateway.Prelude.Text.{trim}
use aurora_api_gateway.Prelude.Json.{str, obj, Fields, end, field, get, JsonText}
use aurora_api_gateway.Prelude.Int.{pos}
use aurora_api_gateway.Routes.Form.{RouteItem}
use aurora_api_gateway.Routes.Canvas.{
  RouteCanvas, init_route_canvas, keep_selection, routes_by_host, ordered_catalog, canvas_plugins,
  handle_drop_on_route,
}
use aurora_api_gateway.Routes.Switches.{
  select_profile, profile_params, is_off_word, get_route_extension_selected_profile,
}
use aurora_api_gateway.Routes.Canvas.Dropped.{selected-handle_drop_on_route}

abbrev at_host : String → String → RouteItem
at_host id host = record {
  id = id;
  name = id;
  host = host;
  path = "/";
  upstream_name = "pool";
  enabled = true;
  strip_path = false;
  websocket = false;
  priority = pos 0;
  plugins_json = "{}";
  description = "";
  created_at = "";
  updated_at = "";
}

grouped :
    map (λ g. g.0) (routes_by_host (at_host "1" "a.io" ∷ at_host "2" "" ∷ at_host "3" "a.io" ∷ []))
    ≡ "a.io" ∷ "*" ∷ []
unfolding routes_by_host
grouped = refl

-- A route that is gone leaves the first one selected.
moved_on :
    (keep_selection
      (at_host "2" "" ∷ [])
      (init_route_canvas (at_host "1" "" ∷ []))).selected_route_id
    ≡ some "2"
unfolding keep_selection init_route_canvas
moved_on = refl

in_order :
    map (λ m. m.key) ordered_catalog
    ≡ "ip-restriction" ∷ "connection-limit" ∷ "resource-limit" ∷ "rate-limit" ∷ "jwt-authentication"
      ∷ "traffic-shaper" ∷ "response-cache" ∷ "response-compression" ∷ []
unfolding ordered_catalog sort_by
in_order = refl

abbrev drag : Fields
drag = field "extKey" (str "rate-limit") (field "profileId" (str "strict") end)

-- A codec for the drag and for one object of a route.
abbrev codec : Fields → JsonText
codec o = record {
  parse = λ t. if str_eq t "drag" then some (obj drag) else some (obj o);
  stringify = λ v. "text";
}

abbrev canvas : RouteCanvas
canvas = record {
  selected_route_id = none;
  drag_over_route_id = some "1";
  live_configs_by_ext = end;
}

abbrev bare : RouteItem
bare = record (at_host "1" "a.io") { plugins_json = "" }

limited : Fields
unfolding select_profile
limited = select_profile (codec end) end end "rate-limit" "strict"

selected-handle_drop_on_route_example :
    (text : String) × ((handle_drop_on_route (codec limited) bare "drag" canvas
        ≡ (record canvas { drag_over_route_id = none; selected_route_id = some "1" }, some text))
      × (get_route_extension_selected_profile (canvas_plugins (codec limited) text) "rate-limit" "x"
          ≡ "strict")
      × (get_route_extension_selected_profile (canvas_plugins (codec limited) text) "jwt" "x"
          ≡ get_route_extension_selected_profile (canvas_plugins (codec limited) "") "jwt" "x"))
unfolding limited select_profile canvas_plugins profile_params trim is_off_word get
selected-handle_drop_on_route_example =
    selected-handle_drop_on_route (codec limited) canvas bare "drag" "rate-limit" "strict"
      (record { back = refl; full = refl }) "jwt" "x"
      (record { members = drag; given = refl; read = refl; ext_key = refl; profile_id = refl }) refl
      (record { trimmed = refl; full = refl; on = refl })
      (record { enabled = refl; profile = refl }) refl refl refl
