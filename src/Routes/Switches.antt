-- ===== src/Routes/Switches.antt =====
-- The switches of the extensions on one route, in
-- ui/src/pages/routes/sections/RouteExtensionSwitches.tsx. They live in the route's `plugins_json`.
pub mod Selection
mod Tests
use text.Mathlib.Text.{◌==◌ as str_eq}
use aurora_api_gateway.Prelude.{
  ℕ, String, Bool, true, false, not, ◌&&◌, ◌||◌, Option, none, some, List, [], ◌∷◌, map,
  if◌then◌else◌, length, keep, find,
}
use aurora_api_gateway.Prelude.Text.{is_empty, trim, or_text}
use aurora_api_gateway.Prelude.Json.{
  Json, null, bool, num, str, arr, obj, Fields, end, field, get, put, remove, JsonText,
}
use aurora_api_gateway.Extensions.Catalog.{
  Category, ExtensionProfileOption, DataplaneExtensionMeta, dataplane_extension_catalog,
}
use aurora_api_gateway.Extensions.Item.{ExtensionItem}
use aurora_api_gateway.Extensions.Profiles.{
  ConfigArg, absent, config_text, normalize_extension_key, resolve_extension_profiles,
}

pub record RouteExtensionItem : Type 0 where
  pub key : String
  pub label : String
  pub short_label : String
  pub category : Category

abbrev pub route_extensions : List RouteExtensionItem
route_extensions =
    map
      (λ m. record {
        key = m.key;
        label = m.label;
        short_label = m.short_label;
        category = m.category;
      })
      dataplane_extension_catalog

-- What is no object, and no JSON, counts as the empty object.
unfoldable pub object_or_empty : Option Json → Fields
object_or_empty (some (obj o)) = o
object_or_empty _ = end

unfoldable pub parse_plugins_obj : JsonText → String → Fields
unfolding object_or_empty
parse_plugins_obj json raw = object_or_empty (json.parse (or_text raw "{}"))

-- The words that switch an extension off.
unfoldable pub is_off_word : String → Bool
is_off_word s = str_eq s "off" || str_eq s "disabled" || str_eq s "none"

selected_text : String → String
selected_text clean = if is_empty clean || is_off_word clean then "off" else clean

-- The profile that an entry names: a text that is not blank.
entry_profile : String → Option Json → String
entry_profile default (some (str s)) =
    if is_empty (trim s) then default else if is_off_word (trim s) then "off" else trim s
entry_profile default _ = default

selected_entry : String → Fields → Option Json → String
selected_entry default o (some (bool false)) = "off"
selected_entry default o _ = entry_profile default (get "profile" o)

selected_value : String → Option Json → String
unfolding selected_text selected_entry entry_profile is_off_word trim get
selected_value default (some (bool true)) = default
selected_value default (some (str s)) = selected_text (trim s)
selected_value default (some (obj o)) = selected_entry default o (get "enabled" o)
selected_value default _ = "off"

unfoldable pub get_route_extension_selected_profile : Fields → String → String → String
unfolding selected_value
get_route_extension_selected_profile o ext default = selected_value default (get ext o)

put_config : String → String → Fields → Fields
unfolding put
put_config key config configs =
    if is_empty key || is_empty config then configs else put key (str config) configs

-- The configurations by the keys of the extensions.
pub live_configs : Fields → List ExtensionItem → Fields
unfolding put_config normalize_extension_key
live_configs configs [] = configs
live_configs configs (ext ∷ exts) =
    live_configs
      (put_config (normalize_extension_key (or_text ext.id ext.name)) ext.config_json configs) exts

-- `liveConfigsByExt[extKey]`
live_config : Option Json → ConfigArg
live_config (some (str s)) = config_text s
live_config _ = absent

-- The parameters of the profile, but for its label and its summary, go into the entry.
pub copy_params : Fields → Fields → Fields
unfolding put
copy_params entry end = entry
copy_params entry (field k v more) =
    copy_params (if str_eq k "label" || str_eq k "summary" then entry else put k v entry) more

abbrev pub chosen_params : Option ExtensionProfileOption → Fields
chosen_params none = end
chosen_params (some p) = p.params

pub route_entry : String → Fields → Fields
unfolding copy_params
route_entry id params =
    copy_params (field "enabled" (bool true) (field "profile" (str id) end)) params

abbrev pub off_entry : Fields
off_entry = field "enabled" (bool false) (field "profile" (str "off") end)

-- The parameters of the profile of that id, among those of the extension.
unfoldable pub profile_params : JsonText → Fields → String → String → Fields
unfolding live_config resolve_extension_profiles get
profile_params json live ext id =
    chosen_params (
      find (λ p. str_eq p.id id) (resolve_extension_profiles json ext (live_config (get ext live))))

abbrev pub explicit : Fields → Fields
explicit o = remove "_profile" (put "_mode" (str "explicit") o)

-- The object that a choice makes of the route's.
unfoldable pub select_profile : JsonText → Fields → Fields → String → String → Fields
unfolding route_entry profile_params
select_profile json live o ext id =
    if str_eq id "off"
    then put ext (obj off_entry) (explicit o)
    else put ext (obj (route_entry id (profile_params json live ext id))) (explicit o)

-- `handleSelectProfile`: the text that is handed to `onChange`.
unfoldable pub handle_select_profile : JsonText → Fields → String → String → String → String
unfolding select_profile parse_plugins_obj
handle_select_profile json live raw ext id =
    json.stringify (obj (select_profile json live (parse_plugins_obj json raw) ext id))

abbrev pub all_off : Fields
all_off = field "_mode" (str "explicit") (field "_profile" (str "passthrough") end)

unfoldable pub handle_set_all_off : JsonText → String
handle_set_all_off json = json.stringify (obj all_off)

unfoldable pub handle_reset_inherit : String
handle_reset_inherit = "{}"

abbrev first_profile : List ExtensionProfileOption → String
first_profile [] = "default"
first_profile (p ∷ ps) = or_text p.id "default"

is_active : Fields → DataplaneExtensionMeta → Bool
unfolding get_route_extension_selected_profile
is_active o m =
    not (
      str_eq (get_route_extension_selected_profile o m.key (first_profile m.default_profiles))
        "off")

unfoldable pub active_count : Fields → ℕ
unfolding is_active
active_count o = length (keep (is_active o) dataplane_extension_catalog)
