-- ===== src/Extensions/Hub.antt =====
-- The list of the extensions: the state and the handlers of ui/src/pages/extensions/page.tsx. Its loads
-- are not numbered, so an answer counts whenever it comes.
mod Tests
use text.Mathlib.Text.{◌==◌ as str_eq}
use aurora_api_gateway.Prelude.{
  ℕ, suc, ◌-◌, ◌≡◌, refl, String, Bool, true, false, ◌&&◌, ◌||◌, not, Option, none, some, List, [],
  ◌∷◌, map, keep, any, length, if◌then◌else◌,
}
use aurora_api_gateway.Prelude.Text.{is_empty, trim, to_lower_case, includes}
use aurora_api_gateway.Pages.Switch.{Switchable, SwitchEvent, press, succeed, fail, switch_step}
use aurora_api_gateway.Extensions.Item.{ExtensionItem}

pub data StatusFilter : Type 0 where
  any_status only_enabled only_disabled : StatusFilter

pub data ViewMode : Type 0 where
  grid table : ViewMode

pub record ExtensionsPage : Type 0 where
  pub extensions : List ExtensionItem
  pub loading : Bool
  pub is_refreshing : Bool
  pub error : Option String
  pub search_query : String
  pub selected_category : String
  pub status_filter : StatusFilter
  pub view_mode : ViewMode
  pub toggling_ids : List String
  pub configuring_ext : Option ExtensionItem

abbrev pub init_extensions_page : ExtensionsPage
init_extensions_page = record {
  extensions = [];
  loading = true;
  is_refreshing = false;
  error = none;
  search_query = "";
  selected_category = "all";
  status_filter = any_status;
  view_mode = grid;
  toggling_ids = [];
  configuring_ext = none;
}

-- `fetchExtensions` up to its request, and from its answer on. The message of what is no `Error` is
-- `none`.
unfoldable pub fetch_extensions : Bool → ExtensionsPage → ExtensionsPage
fetch_extensions is_manual s = record s {
  is_refreshing = if is_manual then true else s.is_refreshing;
}

unfoldable pub extensions_answered : Bool → List ExtensionItem → ExtensionsPage → ExtensionsPage
extensions_answered is_manual extensions s = record s {
  extensions = extensions;
  error = none;
  loading = false;
  is_refreshing = if is_manual then false else s.is_refreshing;
}

message_or : Option String → String → String
message_or none fallback = fallback
message_or (some message) fallback = message

unfoldable pub extensions_failed : Bool → Option String → ExtensionsPage → ExtensionsPage
unfolding message_or
extensions_failed is_manual message s = record s {
  extensions = [];
  error = some (message_or message "Failed to fetch live extensions from API");
  loading = false;
  is_refreshing = if is_manual then false else s.is_refreshing;
}

-- The key of the group: older names stand for newer ones.
unfoldable pub category_key : String → String
category_key category =
    if str_eq category "security"
    then "security_engine"
    else if str_eq category "auth"
    then "authentication"
    else if str_eq category "traffic"
    then "traffic_control"
    else if str_eq category "runtime"
    then "integration_runtime"
    else category

abbrev pub groups : List String
groups =
    "security_engine" ∷ "authentication" ∷ "authorization_security" ∷ "traffic_control"
    ∷ "request_transformation" ∷ "response_transformation" ∷ "observability" ∷ "resilience_upstream"
    ∷ "cache_content" ∷ "integration_runtime" ∷ "ai_gateway" ∷ []

pub record ExtensionStatsData : Type 0 where
  pub total : ℕ
  pub enabled : ℕ
  pub disabled : ℕ
  pub by_category : List (String × ℕ)

-- `if (byCategory[key] !== undefined) byCategory[key]++`
count_in : String → List (String × ℕ) → List (String × ℕ)
count_in key [] = []
count_in key ((name, n) ∷ rest) =
    let others = count_in key rest in
    if str_eq name key then (name, suc n) ∷ rest else (name, n) ∷ others

-- One round of the loop over the extensions.
count_extension : ℕ × List (String × ℕ) → ExtensionItem → ℕ × List (String × ℕ)
unfolding category_key count_in
count_extension (enabled, by_category) ext =
    (if ext.enabled then suc enabled else enabled, count_in (category_key ext.category) by_category)

count_extensions : ℕ × List (String × ℕ) → List ExtensionItem → ℕ × List (String × ℕ)
unfolding count_extension
count_extensions counts [] = counts
count_extensions counts (ext ∷ rest) = count_extensions (count_extension counts ext) rest

unfoldable pub stats : List ExtensionItem → ExtensionStatsData
unfolding count_extensions
stats extensions =
    let (enabled, by_category) = count_extensions (0, map (λ g. (g, 0)) groups) extensions in
    record {
      total = length extensions;
      enabled = enabled;
      disabled = length extensions - enabled;
      by_category = by_category;
    }

abbrev passes_status : StatusFilter → ExtensionItem → Bool
passes_status any_status ext = true
passes_status only_enabled ext = ext.enabled
passes_status only_disabled ext = not ext.enabled

some_tag : Option (List String) → String → Bool
unfolding includes to_lower_case
some_tag none q = false
some_tag (some tags) q = any (λ t. includes (to_lower_case t) q) tags

matches_search : String → ExtensionItem → Bool
unfolding includes to_lower_case trim some_tag
matches_search query ext =
    let q = trim (to_lower_case query) in
    is_empty (trim query)
    || includes (to_lower_case ext.name) q
    || includes (to_lower_case ext.id) q
    || includes (to_lower_case ext.description) q
    || includes (to_lower_case ext.category) q
    || some_tag ext.tags q

unfoldable pub filtered_extensions : ExtensionsPage → List ExtensionItem
unfolding matches_search category_key
filtered_extensions s =
    keep
      (λ ext.
        (str_eq s.selected_category "all" || str_eq (category_key ext.category) s.selected_category)
        && passes_status s.status_filter ext
        && matches_search s.search_query ext)
      s.extensions

-- An extension as an element with a switch.
abbrev pub extension_switch : Switchable ExtensionItem
extension_switch = record {
  id = λ x. x.id;
  enabled = λ x. x.enabled;
  set_enabled = λ b x. record x { enabled = b };
  id_set = λ b x. refl;
  set_same = λ x. refl;
  set_set = λ b c x. refl;
  enabled_set = λ b x. refl;
}

-- The extension that is being configured follows its switch.
follow : String → Bool → Option ExtensionItem → Option ExtensionItem
follow id b none = none
follow id b (some x) = some (if str_eq x.id id then record x { enabled = b } else x)

switched : SwitchEvent → ExtensionsPage → ExtensionsPage
unfolding switch_step
switched e s =
    let t =
      switch_step extension_switch (record { items = s.extensions; toggling_ids = s.toggling_ids })
        e in
    record s { extensions = t.items; toggling_ids = t.toggling_ids }

-- `handleToggleStatus` up to its request, and the two ends of the request.
unfoldable pub handle_toggle_status : String → Bool → ExtensionsPage → ExtensionsPage
unfolding switched follow
handle_toggle_status id next s = record (switched (press id next) s) {
  configuring_ext = follow id next s.configuring_ext;
}

unfoldable pub toggle_succeeded : String → ExtensionsPage → ExtensionsPage
unfolding switched
toggle_succeeded id s = switched (succeed id) s

unfoldable pub toggle_failed : String → Bool → Option String → ExtensionsPage → ExtensionsPage
unfolding switched follow message_or
toggle_failed id next message s = record (switched (fail id next) s) {
  configuring_ext = follow id (not next) s.configuring_ext;
  error = some (message_or message "Failed to update extension status");
}

set_config_of : String → String → ExtensionItem → ExtensionItem
set_config_of id config x = if str_eq x.id id then record x { config_json = config } else x

-- `handleSaveConfig` from the answer on, with what it returns.
unfoldable pub config_saved : String → String → ExtensionsPage → ExtensionsPage × Bool
unfolding set_config_of
config_saved id config s =
    (record s { extensions = map (set_config_of id config) s.extensions }, true)

unfoldable pub config_refused : Option String → ExtensionsPage → ExtensionsPage × Bool
unfolding message_or
config_refused message s =
    (record s { error = some (message_or message "Failed to update extension config") }, false)
