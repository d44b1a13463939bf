-- ===== src/Routes/Table/Tests.antt =====
-- The list of the routes on sample routes.
use aurora_api_gateway.Prelude.{◌≡◌, refl, String, true, false, [], ◌∷◌, map, sort_by}
use aurora_api_gateway.Prelude.Int.{pos}
use aurora_api_gateway.Prelude.Text.{includes, to_lower_case, trim, char_count}
use aurora_api_gateway.Pages.Switch.{press}
use aurora_api_gateway.Routes.Form.{RouteItem}
use aurora_api_gateway.Routes.Table.{RoutesPage, init_routes_page, filtered_routes, handle_toggle}

abbrev named : String → String → RouteItem
named id path = record {
  id = id;
  name = id;
  host = "api";
  path = path;
  upstream_name = "pool";
  enabled = true;
  strip_path = false;
  websocket = false;
  priority = pos 0;
  plugins_json = "{}";
  description = "";
  created_at = "";
  updated_at = "";
}

abbrev loaded : RoutesPage
loaded = record init_routes_page {
  list = record (init_routes_page.list) { items = named "a" "/" ∷ named "b" "/v1" ∷ [] };
}

switched_off :
    map (λ r. r.enabled) ((handle_toggle (press "b" false) loaded).list.items) ≡ true ∷ false ∷ []
unfolding handle_toggle
switched_off = refl

-- A route that is found, and the longer path first.
listed :
    map (λ r. r.id) (filtered_routes (λ a b. pos 0) (record loaded { search_query = "PI" }))
    ≡ "b" ∷ "a" ∷ []
unfolding filtered_routes sort_by includes to_lower_case trim char_count
listed = refl
