-- ===== src/Routes/Form.antt =====
-- Creating and editing a route: the state, the handlers, the submission and the loading of
-- ui/src/pages/routes/create/page.tsx and ui/src/pages/routes/edit/page.tsx, with the fields of
-- ui/src/pages/routes/types.ts. A submission runs up to the request; the answer is a later event.
pub mod Sent
mod Tests
use text.Mathlib.Text.{◌==◌ as str_eq}
use aurora_api_gateway.Prelude.{
  ℕ, zero, suc, String, Bool, true, false, ◌&&◌, ◌||◌, not, Option, none, some, List, [], ◌∷◌,
  if◌then◌else◌, find,
}
use aurora_api_gateway.Prelude.Int.{ℤ, pos, negsuc}
use aurora_api_gateway.Prelude.Json.{Json, JsonText}
use aurora_api_gateway.Prelude.Text.{is_empty, trim, or_text, to_lower_case, starts_with_slash}

-- The fields of the form; a priority that is no number is `none`.
pub record RouteFormState : Type 0 where
  pub name : String
  pub host : String
  pub path : String
  pub upstream_name : String
  pub enabled : Bool
  pub strip_path : Bool
  pub websocket : Bool
  pub priority : Option ℤ
  pub plugins_json : String
  pub description : String

abbrev pub default_route_form : RouteFormState
default_route_form = record {
  name = "";
  host = "";
  path = "/";
  upstream_name = "";
  enabled = true;
  strip_path = false;
  websocket = false;
  priority = some (pos 10);
  plugins_json = "{}";
  description = "";
}

pub data RouteError : Type 0 where
  name_required host_required path_invalid upstream_required plugins_invalid : RouteError
  failed : String → RouteError

-- The route that was loaded is on the page that edits one only.
pub record RoutePage : Type 0 where
  pub form : RouteFormState
  pub upstreams : List String
  pub loading : Bool
  pub submitting : Bool
  pub error : Option RouteError
  pub show_advanced : Bool
  pub json_error : Option String
  pub location : String

abbrev pub init_route_page : String → RoutePage
init_route_page location = record {
  form = default_route_form;
  upstreams = [];
  loading = true;
  submitting = false;
  error = none;
  show_advanced = false;
  json_error = none;
  location = location;
}

abbrev first_upstream : String → List String → RouteFormState → RouteFormState
first_upstream held [] form = form
first_upstream held (first ∷ rest) form =
    if is_empty held then record form { upstream_name = first } else form

-- The effect of the page that creates a route, once the names have arrived. The test reads the name
-- that the form held when the effect began.
unfoldable pub load_route_upstreams : String → RoutePage → List String → RoutePage
load_route_upstreams held p names = record p {
  upstreams = names;
  form = first_upstream held names p.form;
  loading = false;
}

-- The message for a text that does not parse: that of `JSON.parse`, an argument, or a fixed one.
abbrev json_message : (String → String) → String → Option Json → Option String
json_message message val none = some (or_text (message val) "Invalid JSON syntax")
json_message message val (some v) = none

unfoldable pub handle_plugins_json_change :
    JsonText → (String → String) → RoutePage → String → RoutePage
unfolding trim
handle_plugins_json_change json message p val = record p {
  form = record (p.form) { plugins_json = val };
  json_error =
      if is_empty (trim val) || str_eq (trim val) "{}"
      then none
      else json_message message val (json.parse val);
}

abbrev formatted_page : JsonText → RoutePage → Option Json → RoutePage
formatted_page json p none = p
formatted_page json p (some v) = record p {
  form = record (p.form) { plugins_json = json.stringify v };
  json_error = none;
}

unfoldable pub handle_format_json : JsonText → RoutePage → RoutePage
handle_format_json json p = formatted_page json p (json.parse (or_text p.form.plugins_json "{}"))

pub record RoutePayload : Type 0 where
  pub name : String
  pub host : String
  pub path : String
  pub upstream_name : String
  pub enabled : Bool
  pub strip_path : Bool
  pub websocket : Bool
  pub priority : ℤ
  pub plugins_json : String
  pub description : String

-- `Number(priority) || 10`
abbrev pub priority_or_ten : Option ℤ → ℤ
priority_or_ten none = pos 10
priority_or_ten (some (pos zero)) = pos 10
priority_or_ten (some (pos (suc n))) = pos (suc n)
priority_or_ten (some (negsuc n)) = negsuc n

pub route_payload : RouteFormState → RoutePayload
unfolding trim to_lower_case
route_payload f = record {
  name = trim f.name;
  host = to_lower_case (trim f.host);
  path = trim f.path;
  upstream_name = trim f.upstream_name;
  enabled = f.enabled;
  strip_path = f.strip_path;
  websocket = f.websocket;
  priority = priority_or_ten f.priority;
  plugins_json = or_text (trim f.plugins_json) "{}";
  description = trim f.description;
}

pub data CheckedRoute : Type 0 where
  refused : RouteError → CheckedRoute
  sent : RoutePayload → CheckedRoute

abbrev pub is_none {ℓ} : {A : Type ℓ} → Option A → Bool
is_none none = true
is_none (some x) = false

-- Text for the extensions that is there and does not parse.
pub plugins_broken : JsonText → String → Bool
unfolding trim
plugins_broken json text_value = not (is_empty (trim text_value)) && is_none (json.parse text_value)

-- The checks of a submission, in their order, and the payload.
unfoldable pub check_route : JsonText → RouteFormState → CheckedRoute
unfolding route_payload plugins_broken starts_with_slash
check_route json f =
    if is_empty (trim f.name)
    then refused name_required
    else if is_empty (to_lower_case (trim f.host))
    then refused host_required
    else if not (starts_with_slash (trim f.path))
    then refused path_invalid
    else if is_empty (trim f.upstream_name)
    then refused upstream_required
    else if plugins_broken json f.plugins_json
    then refused plugins_invalid
    else sent (route_payload f)

after_check : RoutePage → CheckedRoute → RoutePage × Option RoutePayload
after_check p (refused e) = (record p { error = some e }, none)
after_check p (sent req) = (record p { error = none; submitting = true }, some req)

-- `handleSubmit` up to the request.
unfoldable pub submit_route : JsonText → RoutePage → RoutePage × Option RoutePayload
unfolding after_check check_route
submit_route json p = after_check p (check_route json p.form)

-- `handleSubmit` of the page that edits a route: nothing happens without an id.
unfoldable pub submit_edited_route :
    JsonText → Option String → RoutePage → RoutePage × Option RoutePayload
unfolding submit_route
submit_edited_route json none p = (p, none)
submit_edited_route json (some id) p = submit_route json p

-- The controller's answer: accepted, or an error with its message.
pub data Reply : Type 0 where
  accepted : Reply
  rejected : String → Reply

-- The rest of `handleSubmit`; the text stands in for no message, and differs on the two pages.
unfoldable pub settle_route : String → RoutePage → Reply → RoutePage
settle_route fallback p accepted = record p { submitting = false; location = "/routes" }
settle_route fallback p (rejected message) = record p {
  submitting = false;
  error = some (failed (or_text message fallback));
}

-- A route as the controller returns it.
pub record RouteItem : Type 0 where
  pub id : String
  pub name : String
  pub host : String
  pub path : String
  pub upstream_name : String
  pub enabled : Bool
  pub strip_path : Bool
  pub websocket : Bool
  pub priority : ℤ
  pub plugins_json : String
  pub description : String
  pub created_at : String
  pub updated_at : String

abbrev pub item_form : RouteItem → RouteFormState
item_form r = record {
  name = r.name;
  host = r.host;
  path = r.path;
  upstream_name = r.upstream_name;
  enabled = r.enabled;
  strip_path = r.strip_path;
  websocket = r.websocket;
  priority = some r.priority;
  plugins_json = or_text r.plugins_json "{}";
  description = r.description;
}

-- The request for the route, with its error as `none`; and the list that is asked for then.
unfoldable pub found_route : String → Option RouteItem → Option (List RouteItem) → Option RouteItem
found_route id (some r) items = some r
found_route id none none = none
found_route id none (some items) = find (λ r. str_eq r.id id) items

-- The effect of the page that edits a route, once the route and the names of the upstreams are there.
unfoldable pub load_route : RoutePage → RouteItem → List String → RoutePage
unfolding trim
load_route p r names = record p {
  form = item_form r;
  upstreams = names;
  loading = false;
  show_advanced =
      if not (is_empty (trim r.plugins_json)) && not (str_eq (trim r.plugins_json) "{}")
      then true
      else p.show_advanced;
}

-- The same where one of the requests fails.
unfoldable pub load_route_failed : RoutePage → String → RoutePage
load_route_failed p message = record p {
  error = some (failed (or_text message "Failed to load route details."));
  loading = false;
}
