-- ===== src/Routes/Canvas.antt =====
-- The canvas of the routes, in ui/src/pages/routes/sections/RouteVisualCanvas.tsx: which route is
-- selected, the groups by host, and the profiles that are dropped on a route. It changes a route's
-- `plugins_json` by the same rules as the switches of Routes/Switches.
pub mod Dropped
mod Tests
use text.Mathlib.Text.{◌==◌ as str_eq}
use aurora_api_gateway.Prelude.{
  ℕ, zero, suc, ◌+◌, String, Bool, true, false, not, ◌&&◌, ◌||◌, Option, none, some, List, [], ◌∷◌,
  ◌++◌, any, find, keep, leb, sort_by, if◌then◌else◌,
}
use aurora_api_gateway.Prelude.Json.{Json, str, obj, Fields, end, get, JsonText}
use aurora_api_gateway.Prelude.Text.{is_empty, trim, or_text}
use aurora_api_gateway.Extensions.Catalog.{DataplaneExtensionMeta, dataplane_extension_catalog}
use aurora_api_gateway.Extensions.Item.{ExtensionItem}
use aurora_api_gateway.Routes.Form.{RouteItem}
use aurora_api_gateway.Routes.Switches.{object_or_empty, select_profile, all_off, live_configs}

-- The configurations of the extensions are kept by their keys.
pub record RouteCanvas : Type 0 where
  pub selected_route_id : Option String
  pub drag_over_route_id : Option String
  pub live_configs_by_ext : Fields

first_id : List RouteItem → Option String
first_id [] = none
first_id (r ∷ rs) = some r.id

unfoldable pub init_route_canvas : List RouteItem → RouteCanvas
unfolding first_id
init_route_canvas routes = record {
  selected_route_id = first_id routes;
  drag_over_route_id = none;
  live_configs_by_ext = end;
}

first_or : Option String → List RouteItem → Option String
first_or kept [] = kept
first_or kept (r ∷ rs) = some r.id

-- The selection after the routes have changed: `!id` holds for an empty id too.
reselected : List RouteItem → Option String → Option String
unfolding first_id first_or
reselected [] none = none
reselected (r ∷ rs) none = some r.id
reselected routes (some id) =
    if is_empty id
    then first_or (some id) routes
    else if any (λ r. str_eq r.id id) routes
    then some id
    else first_id routes

unfoldable pub keep_selection : List RouteItem → RouteCanvas → RouteCanvas
unfolding reselected
keep_selection routes s = record s { selected_route_id = reselected routes s.selected_route_id }

-- The effect that loads the extensions, from its answer on.
unfoldable pub take_extensions : List ExtensionItem → RouteCanvas → RouteCanvas
take_extensions extensions s = record s { live_configs_by_ext = live_configs end extensions }

unfoldable pub selected_route : List RouteItem → RouteCanvas → Option RouteItem
selected_route routes s = elim (s.selected_route_id) [
  | none ↦ none
  | some id ↦ find (λ r. str_eq r.id id) routes
]

-- `list.push(r)` in the group of the host, which is new at the end of the map.
join_group : String → RouteItem → List (String × List RouteItem) → List (String × List RouteItem)
join_group host r [] = (host, r ∷ []) ∷ []
join_group host r ((name, members) ∷ rest) =
    let others = join_group host r rest in
    if str_eq name host then (name, members ++ r ∷ []) ∷ rest else (name, members) ∷ others

group_from : List (String × List RouteItem) → List RouteItem → List (String × List RouteItem)
unfolding join_group
group_from groups [] = groups
group_from groups (r ∷ rs) = group_from (join_group (or_text r.host "*") r groups) rs

unfoldable pub routes_by_host : List RouteItem → List (String × List RouteItem)
unfolding group_from
routes_by_host routes = group_from [] routes

unfoldable pub canvas_plugins : JsonText → String → Fields
unfolding trim
canvas_plugins json raw = if is_empty (trim raw) then end else object_or_empty (json.parse raw)

-- The text that `assignProfileToRoute` hands to `onUpdateRoutePlugins`.
unfoldable pub assign_profile_to_route :
    JsonText → RouteCanvas → RouteItem → String → String → String
unfolding canvas_plugins
assign_profile_to_route json s route ext_key profile_id = json.stringify (
    obj (
      select_profile json s.live_configs_by_ext (canvas_plugins json route.plugins_json) ext_key
        profile_id))

-- The text that `setRoutePassthrough` hands on.
unfoldable pub set_route_passthrough : JsonText → String
set_route_passthrough json = json.stringify (obj all_off)

-- What a drag carries, where both parts are texts that are not empty.
dragged : Option Json → Option Json → Option (String × String)
dragged (some (str ext_key)) (some (str profile_id)) =
    if not (is_empty ext_key) && not (is_empty profile_id) then some (ext_key, profile_id) else none
dragged _ _ = none

carried : Option Json → Option (String × String)
unfolding dragged get
carried (some (obj o)) = dragged (get "extKey" o) (get "profileId" o)
carried _ = none

assigned : JsonText → RouteCanvas → RouteItem → Option (String × String) → Option String
unfolding assign_profile_to_route
assigned json s route none = none
assigned json s route (some (ext_key, profile_id)) =
    some (assign_profile_to_route json s route ext_key profile_id)

-- A drop on a route: the selection, and the text that is handed on if the drag carries a profile.
unfoldable pub handle_drop_on_route :
    JsonText → RouteItem → String → RouteCanvas → RouteCanvas × Option String
unfolding carried assigned
handle_drop_on_route json route raw s = (
  record s { drag_over_route_id = none; selected_route_id = some route.id },
  if is_empty raw then none else assigned json s route (carried (json.parse raw)),
)

abbrev execution_order : List String
execution_order =
    "ip-restriction" ∷ "connection-limit" ∷ "resource-limit" ∷ "rate-limit" ∷ "jwt-authentication"
    ∷ "traffic-shaper" ∷ "response-cache" ∷ "response-compression" ∷ []

-- The place of a key in the list, counted from `n`; 99 for one that is not there.
place_from : ℕ → List String → String → ℕ
place_from n [] key = 99
place_from n (k ∷ ks) key =
    let later = place_from (suc n) ks key in if str_eq k key then n else later

unfoldable pub ordered_catalog : List DataplaneExtensionMeta
unfolding sort_by place_from
ordered_catalog =
    sort_by (λ a b. leb (place_from 0 execution_order a.key) (place_from 0 execution_order b.key))
      dataplane_extension_catalog
