-- ===== src/Routes/Canvas/Dropped.antt =====
-- What a drop of a profile on a route does.
use text.Mathlib.Text.{◌==◌ as str_eq}
use aurora_api_gateway.Prelude.{String, false, none, some, ◌≡◌, refl, ap, ◌∙◌}
use aurora_api_gateway.Prelude.Text.{is_empty, trim}
use aurora_api_gateway.Prelude.Json.{str, obj, Fields, get, JsonText}
use aurora_api_gateway.Routes.Form.{RouteItem}
use aurora_api_gateway.Routes.Switches.{
  select_profile, object_or_empty, profile_params, get_route_extension_selected_profile,
}
use aurora_api_gateway.Routes.Switches.Selection.{
  IsProfileId, LeavesSwitches, selected_of_chosen, selected_of_other,
}
use aurora_api_gateway.Routes.Canvas.{
  RouteCanvas, canvas_plugins, assign_profile_to_route, carried, dragged, assigned,
  handle_drop_on_route,
}

-- A drag that carries an extension and a profile of it.
pub record IsDrag (json : JsonText) (raw ext id : String) : Type 0 where
  pub members : Fields
  pub given : is_empty raw ≡ false
  pub read : json.parse raw ≡ some (obj members)
  pub ext_key : get "extKey" members ≡ some (str ext)
  pub profile_id : get "profileId" members ≡ some (str id)

-- `JSON.parse` reads back what `JSON.stringify` writes for an object, and that is not blank.
pub record ReadsBackFull (json : JsonText) (o : Fields) : Type 0 where
  pub back : json.parse (json.stringify (obj o)) ≡ some (obj o)
  pub full : is_empty (trim (json.stringify (obj o))) ≡ false

canvas_plugins_read :
    (json : JsonText) (o : Fields)
    → ReadsBackFull json o
    → canvas_plugins json (json.stringify (obj o)) ≡ o
unfolding canvas_plugins object_or_empty
canvas_plugins_read json o reads = rw (reads.full) (rw (reads.back) refl)

carried_drag :
    (json : JsonText) (raw ext id : String)
    → IsDrag json raw ext id
    → is_empty ext ≡ false
    → is_empty id ≡ false
    → carried (json.parse raw) ≡ some (ext, id)
unfolding carried dragged
carried_drag json raw ext id d named full =
    rw (d.read) (rw (d.ext_key, d.profile_id) (rw (named, full) refl))

module _ (json : JsonText) (s : RouteCanvas) (route : RouteItem) (raw ext id : String)
    (reads : ReadsBackFull json (
      select_profile json s.live_configs_by_ext
        (canvas_plugins json route.plugins_json)
        ext
        id)) where
  assigned_object :
      canvas_plugins json (assign_profile_to_route json s route ext id)
      ≡ select_profile json s.live_configs_by_ext (canvas_plugins json route.plugins_json) ext id
  unfolding assign_profile_to_route
  assigned_object = canvas_plugins_read json _ reads

  -- A drop of a profile on a route selects the route, ends the drag, and hands on one text for the
  -- route: read again, it names that profile for that extension, and for every other extension what
  -- the route named before. The drag carries the key of the extension, which is not empty, and the id,
  -- which is trimmed, not empty and no word for "off"; the parameters of the profile have no member
  -- `enabled` or `profile`; the other key is not `_mode` or `_profile`; and the JSON reads back and is
  -- not blank.
  pub selected-handle_drop_on_route :
      (other default : String)
      → IsDrag json raw ext id
      → is_empty ext ≡ false
      → IsProfileId id
      → LeavesSwitches (profile_params json s.live_configs_by_ext ext id)
      → str_eq ext other ≡ false
      → str_eq "_mode" other ≡ false
      → str_eq "_profile" other ≡ false
      → (text : String) × ((handle_drop_on_route json route raw s ≡ (
        record s { drag_over_route_id = none; selected_route_id = some route.id },
        some text,
      ))
          × (get_route_extension_selected_profile (canvas_plugins json text) ext default ≡ id)
          × (get_route_extension_selected_profile (canvas_plugins json text) other default
              ≡ get_route_extension_selected_profile
                  (canvas_plugins json route.plugins_json)
                  other
                  default))
  unfolding handle_drop_on_route assigned
  selected-handle_drop_on_route other default d named v l e m p = (
    assign_profile_to_route json s route ext id,
    (
      rw (d.given) (rw (carried_drag json raw ext id d named v.full) refl),
      ap (λ o. get_route_extension_selected_profile o ext default) assigned_object
          ∙ selected_of_chosen json s.live_configs_by_ext (canvas_plugins json route.plugins_json)
              ext id default v l,
      ap (λ o. get_route_extension_selected_profile o other default) assigned_object
          ∙ selected_of_other json s.live_configs_by_ext (canvas_plugins json route.plugins_json)
              ext id other default e m p,
    ),
  )
