-- ===== src/Routes/Table.antt =====
-- The list of the routes: the state and the handlers of ui/src/pages/routes/page.tsx, with the
-- numbers of ui/src/pages/routes/sections/RouteStats.tsx. What `localeCompare` answers is an argument.
mod Tests
use text.Mathlib.Text.{◌==◌ as str_eq}
use aurora_api_gateway.Prelude.{
  ℕ, String, Bool, true, false, ◌&&◌, ◌||◌, not, Option, none, some, List, [], ◌∷◌, map, keep,
  length, leb, ◌==◌, sort_by, if◌then◌else◌, ◌≡◌, refl,
}
use aurora_api_gateway.Prelude.Int.{ℤ, pos, int_leb}
use aurora_api_gateway.Prelude.Text.{is_empty, trim, or_text, to_lower_case, includes, char_count}
use aurora_api_gateway.Pages.Loader.{Loader}
use aurora_api_gateway.Pages.Switch.{Switchable, SwitchEvent, switch_step, set_flag, clear_flag}
use aurora_api_gateway.Routes.Form.{RouteItem}

pub data ViewMode : Type 0 where
  canvas table : ViewMode

-- `list` holds the routes, whether they load, and the error.
pub record RoutesPage : Type 0 where
  pub list : Loader (List RouteItem)
  pub search_query : String
  pub host_filter : String
  pub upstream_filter : String
  pub stat_filter : Option String
  pub view_mode : ViewMode
  pub deleting_route : Option RouteItem
  pub toggling_ids : List String
  pub saving_route_ids : List String

abbrev pub init_routes_page : RoutesPage
init_routes_page = record {
  list = record {
    items = [];
    loading = true;
    is_refreshing = false;
    error = none;
    request_sequence = 0;
  };
  search_query = "";
  host_filter = "ALL";
  upstream_filter = "ALL";
  stat_filter = none;
  view_mode = canvas;
  deleting_route = none;
  toggling_ids = [];
  saving_route_ids = [];
}

-- The search text is in lower case; it is the field that is searched in.
abbrev pub finds : String → String → Bool
finds field q = includes (to_lower_case field) q

matches_search : String → RouteItem → Bool
unfolding includes to_lower_case trim
matches_search query r =
    let q = to_lower_case query in
    is_empty (trim query)
    || finds r.name q
    || finds r.host q
    || finds r.path q
    || finds r.upstream_name q
    || finds r.id q
    || finds r.description q

abbrev passes_choice : String → String → Bool
passes_choice choice value = str_eq choice "ALL" || str_eq value choice

passes_stat : Option String → RouteItem → Bool
passes_stat none r = true
passes_stat (some stat) r =
    not (str_eq stat "active" && not r.enabled)
    && not (str_eq stat "websocket" && not r.websocket)
    && not (str_eq stat "strip_path" && not r.strip_path)

pub is_listed : RoutesPage → RouteItem → Bool
unfolding matches_search passes_stat
is_listed s r =
    matches_search s.search_query r
    && passes_choice s.host_filter r.host
    && passes_choice s.upstream_filter r.upstream_name
    && passes_stat s.stat_filter r

-- `compare(a, b) <= 0`: by host, then the longer path first, then the higher priority first.
pub stands_before : (String → String → ℤ) → RouteItem → RouteItem → Bool
unfolding char_count
stands_before locale_compare a b =
    if not (str_eq a.host b.host)
    then int_leb (locale_compare a.host b.host) (pos 0)
    else if not (char_count b.path == char_count a.path)
    then leb (char_count b.path) (char_count a.path)
    else int_leb b.priority a.priority

unfoldable pub filtered_routes : (String → String → ℤ) → RoutesPage → List RouteItem
unfolding is_listed stands_before
filtered_routes locale_compare s =
    sort_by (stands_before locale_compare) (keep (is_listed s) s.list.items)

-- The four numbers of the cards, and the filter after a press on a card.
pub record RouteCounts : Type 0 where
  pub total : ℕ
  pub active : ℕ
  pub ws_count : ℕ
  pub strip_count : ℕ

unfoldable pub route_counts : List RouteItem → RouteCounts
route_counts routes = record {
  total = length routes;
  active = length (keep (λ r. r.enabled) routes);
  ws_count = length (keep (λ r. r.websocket) routes);
  strip_count = length (keep (λ r. r.strip_path) routes);
}

same_filter : Option String → Option String → Bool
same_filter none none = true
same_filter (some a) (some b) = str_eq a b
same_filter none (some b) = false
same_filter (some a) none = false

unfoldable pub press_card : Option String → RoutesPage → RoutesPage
unfolding same_filter
press_card key s = record s { stat_filter = if same_filter s.stat_filter key then none else key }

-- A route as an element with a switch.
abbrev pub route_switch : Switchable RouteItem
route_switch = record {
  id = λ r. r.id;
  enabled = λ r. r.enabled;
  set_enabled = λ b r. record r { enabled = b };
  id_set = λ b r. refl;
  set_same = λ r. refl;
  set_set = λ b c r. refl;
  enabled_set = λ b r. refl;
}

abbrev with_routes : (List RouteItem → List RouteItem) → RoutesPage → RoutesPage
with_routes f s = record s { list = record (s.list) { items = f s.list.items } }

-- `handleToggle` up to its request (`press`), and the two ends of the request.
unfoldable pub handle_toggle : SwitchEvent → RoutesPage → RoutesPage
unfolding switch_step
handle_toggle e s =
    let t =
      switch_step route_switch (record { items = s.list.items; toggling_ids = s.toggling_ids }) e in
    record s { list = record (s.list) { items = t.items }; toggling_ids = t.toggling_ids }

set_plugins : String → String → RouteItem → RouteItem
set_plugins id plugins r = if str_eq r.id id then record r { plugins_json = plugins } else r

-- `handleUpdateRoutePlugins` up to the request, which sends the route with the new text.
unfoldable pub handle_update_route_plugins :
    RouteItem → String → RoutesPage → RoutesPage × RouteItem
unfolding set_plugins
handle_update_route_plugins route next s = (
  record (with_routes (map (set_plugins route.id next)) s) {
    saving_route_ids = set_flag route.id s.saving_route_ids;
  },
  record route { plugins_json = next },
)

unfoldable pub update_plugins_succeeded : RouteItem → RoutesPage → RoutesPage
update_plugins_succeeded route s = record s {
  saving_route_ids = clear_flag route.id s.saving_route_ids;
}

-- The old text is that of the route that was handed in.
unfoldable pub update_plugins_failed : RouteItem → String → RoutesPage → RoutesPage
unfolding set_plugins
update_plugins_failed route message s = record s {
  list = record (s.list) {
    items = map (set_plugins route.id route.plugins_json) s.list.items;
    error = some (or_text message "Failed to save extension profile assignment");
  };
  saving_route_ids = clear_flag route.id s.saving_route_ids;
}
