-- ===== src/Extensions/Profiles.antt =====
-- The named profiles of an extension: the built-in ones of the catalog and those of its
-- configuration, in ui/src/pages/extensions/data/extensionProfiles.ts.
pub mod Keys
pub mod Merge
pub mod Order
mod Tests
use Prim.Native.Char.{code}
use Prim.Native.String
use text.Mathlib.Text.{◌==◌ as str_eq}
use aurora_api_gateway.Prelude.{
  ℕ, suc, ◌+◌, String, Bool, true, false, ◌&&◌, ◌||◌, Option, none, some, List, [], ◌∷◌, ◌++◌, ◌==◌,
  if◌then◌else◌, find,
}
use aurora_api_gateway.Prelude.Text.{is_empty, trim, concat, join, decimal}
use aurora_api_gateway.Prelude.Json.{
  Json, null, bool, num, str, arr, obj, Items, nil, cons, Fields, end, field, get, JsonText,
}
use aurora_api_gateway.Extensions.Catalog.{
  ExtensionProfileOption, DataplaneExtensionMeta, dataplane_extension_catalog,
}

-- What is left of a text behind a prefix that it has.
pub strip_prefix : String → String → Option String
strip_prefix String.[] s = some s
strip_prefix (String.◌∷◌ p ps) String.[] = none
strip_prefix (String.◌∷◌ p ps) (String.◌∷◌ c s) =
    if code p == code c then strip_prefix ps s else none

-- `s.replace(/^builtin\//, '')`
strip_builtin : String → Option String → String
strip_builtin s none = s
strip_builtin s (some rest) = rest

unfoldable pub normalize_extension_key : String → String
unfolding strip_prefix strip_builtin trim
normalize_extension_key raw =
    let clean = strip_builtin (trim raw) (strip_prefix "builtin/" (trim raw)) in
    if str_eq clean "engine-jwt-rs256" || str_eq clean "jwt"
    then "jwt-authentication"
    else if str_eq clean "compression-gzip"
    then "response-compression"
    else clean

unfoldable pub find_dataplane_extension_meta : String → Option DataplaneExtensionMeta
unfolding normalize_extension_key
find_dataplane_extension_meta raw =
    let clean = normalize_extension_key raw in
    find (λ m. str_eq m.key clean) dataplane_extension_catalog

-- The members of an array by their positions, as `Object.entries` lists them.
unfoldable pub indexed : ℕ → Items → Fields
unfolding decimal
indexed i nil = end
indexed i (cons v vs) = field (decimal i) v (indexed (i + 1) vs)

-- The members of a value that is an object or an array: `v && typeof v === 'object'`.
unfoldable pub members : Json → Option Fields
unfolding indexed
members (obj o) = some o
members (arr vs) = some (indexed 0 vs)
members _ = none

-- `String(v)`, as a template literal prints it; an array prints its elements, `null` as nothing.
mutual
  pub json_text : Json → String
  json_text null = "null"
  json_text (bool true) = "true"
  json_text (bool false) = "false"
  json_text (num t) = t
  json_text (str s) = s
  json_text (arr vs) = items_text vs
  json_text (obj o) = "[object Object]"

  pub items_text : Items → String
  items_text nil = ""
  items_text (cons null nil) = ""
  items_text (cons v nil) = json_text v
  items_text (cons null (cons w ws)) = String.◌++◌ "," (items_text (cons w ws))
  items_text (cons v (cons w ws)) =
      String.◌++◌ (json_text v) (String.◌++◌ "," (items_text (cons w ws)))

-- `${v ?? 1}`
or_one : Option Json → String
or_one none = "1"
or_one (some null) = "1"
or_one (some v) = json_text v

-- `if (v !== undefined) summaryParts.push(…)`
part : String → Option Json → String → List String
part before none after = []
part before (some v) after = concat (before ∷ json_text v ∷ after ∷ []) ∷ []

rate_part : Option Json → Option Json → List String
unfolding or_one
rate_part none period = []
rate_part (some v) period = concat (json_text v ∷ " req/" ∷ or_one period ∷ "s" ∷ []) ∷ []

given_summary : Option Json → List String
given_summary (some (str s)) = if is_empty s then [] else s ∷ []
given_summary _ = []

summary_parts : Fields → List String
unfolding part rate_part given_summary json_text
summary_parts o =
    given_summary (get "summary" o)
    ++ (part "TTL " (get "ttl_secs" o) "s"
        ++ (rate_part (get "rate" o) (get "period_secs" o)
            ++ (part "burst " (get "burst" o) ""
                ++ (part "min " (get "min_length" o) "B"
                    ++ part "max " (get "max_connections" o) " conn"))))

joined_summary : List String → String
unfolding join
joined_summary [] = "Custom Extension Profile"
joined_summary (s ∷ ss) = join " · " (s ∷ ss)

unfoldable pub custom_label : String → Option Json → String
custom_label id (some (str s)) =
    if is_empty (trim s) then concat (id ∷ " (Custom)" ∷ []) else trim s
custom_label id _ = concat (id ∷ " (Custom)" ∷ [])

-- The option that a member of `config.profiles` makes.
unfoldable pub custom_option : String → Fields → ExtensionProfileOption
unfolding custom_label joined_summary summary_parts trim get
custom_option id o = record {
  id = id;
  label = custom_label id (get "label" o);
  summary = joined_summary (summary_parts o);
  builtin = false;
  params = o;
}

-- A profile takes the place of one with its id, or comes last.
pub put_profile : ExtensionProfileOption → List ExtensionProfileOption → List ExtensionProfileOption
put_profile o [] = o ∷ []
put_profile o (p ∷ ps) = if str_eq p.id o.id then o ∷ ps else p ∷ put_profile o ps

-- One round of the loop: a blank id and a value that is no object are passed over.
put_member : String → Option Fields → List ExtensionProfileOption → List ExtensionProfileOption
unfolding put_profile
put_member id none merged = merged
put_member id (some o) merged =
    if is_empty (trim id) then merged else put_profile (custom_option id o) merged

pub merge_profiles : List ExtensionProfileOption → Fields → List ExtensionProfileOption
unfolding put_member members custom_option
merge_profiles merged end = merged
merge_profiles merged (field id v o) = merge_profiles (put_member id (members v) merged) o

abbrev pub fallback_profile : ExtensionProfileOption
fallback_profile = record {
  id = "default";
  label = "Default Profile";
  summary = "Sử dụng cấu hình mặc định của Extension";
  builtin = true;
  params = end;
}

pub builtins : Option DataplaneExtensionMeta → List ExtensionProfileOption
builtins none = fallback_profile ∷ []
builtins (some meta) = meta.default_profiles

-- `configJsonOrObj`: not given, a text, or an object.
pub data ConfigArg : Type 0 where
  absent : ConfigArg
  config_text : String → ConfigArg
  object : Fields → ConfigArg

pub parsed_config : JsonText → ConfigArg → Option Json
parsed_config json absent = none
parsed_config json (config_text s) = if is_empty (trim s) then none else json.parse s
parsed_config json (object o) = some (obj o)

unfoldable pub member_profiles : Option Json → Option Fields
unfolding members
member_profiles none = none
member_profiles (some v) = members v

-- `parsed.profiles`, where it is an object. Values that are no objects have no such member.
unfoldable pub config_profiles : Option Json → Option Fields
unfolding get member_profiles
config_profiles (some (obj o)) = member_profiles (get "profiles" o)
config_profiles _ = none

with_profiles : List ExtensionProfileOption → Option Fields → List ExtensionProfileOption
unfolding merge_profiles
with_profiles defaults none = defaults
with_profiles defaults (some o) = merge_profiles defaults o

unfoldable pub resolve_extension_profiles :
    JsonText → String → ConfigArg → List ExtensionProfileOption
unfolding with_profiles builtins find_dataplane_extension_meta config_profiles parsed_config
resolve_extension_profiles json raw config =
    with_profiles (builtins (find_dataplane_extension_meta raw))
      (config_profiles (parsed_config json config))
