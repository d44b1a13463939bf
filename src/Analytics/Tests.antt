-- ===== src/Analytics/Tests.antt =====
-- The explorer run through its code.
use aurora_api_gateway.Prelude.{
  ℕ, ◌≡◌, refl, String, false, some, List, [], ◌∷◌, map, ◌==◌, if◌then◌else◌,
}
use aurora_api_gateway.Prelude.Json.{Json}
use aurora_api_gateway.Analytics.Preset.{waf, preset_queries, get_time_bounds}
use aurora_api_gateway.Analytics.{
  AnalyticsPage, init_analytics_page, no_queries, query, execute_query, add_query, remove_query,
  handle_select_preset, take_catalog, explorer, connections,
}
use aurora_api_gateway.Analytics.Asking.{
  AnalyticsEvent, selected, cataloged, opened, added, removed, analytics_step, analytics_run,
  execute_query-analytics_run,
}

-- The letters that the labels use here.
abbrev letter : ℕ → String
letter code = if code == 66 then "B" else "C"

abbrev show : Json → String
show v = "?"

abbrev events : List (AnalyticsEvent ℕ)
events =
    selected waf
    ∷ removed 0
    ∷ removed 0
    ∷ added
    ∷ opened connections
    ∷ cataloged ("prom-1" ∷ "prom-2" ∷ []) (("system.cpu_percent" ∷ []) ∷ [])
    ∷ opened explorer
    ∷ added
    ∷ []

abbrev page : AnalyticsPage ℕ
page = analytics_run show letter init_analytics_page events

-- Removing the first query and adding one gives a label twice.
same_label : map (λ q. q.id) page.queries ≡ "B" ∷ "B" ∷ "C" ∷ []
unfolding analytics_run analytics_step handle_select_preset remove_query add_query
    init_analytics_page preset_queries take_catalog
same_label = refl

-- The catalog's answer selects its first source, and its first metric goes into the next query.
first_source :
    (page.selected_source_id ≡ "prom-1")
    × (map (λ q. q.metric_key) page.queries
        ≡ "waf.rules_triggered" ∷ "traffic.requests_rate" ∷ "system.cpu_percent" ∷ [])
unfolding analytics_run analytics_step handle_select_preset remove_query add_query
    init_analytics_page preset_queries take_catalog
first_source = (refl, refl)

on_explorer : page.active_main_tab ≡ explorer
unfolding analytics_run analytics_step handle_select_preset remove_query add_query
    init_analytics_page preset_queries take_catalog
on_explorer = refl

visual : page.is_raw_mode ≡ false
unfolding analytics_run analytics_step handle_select_preset remove_query add_query
    init_analytics_page preset_queries take_catalog
visual = refl

execute_query-analytics_run_example :
    (no_queries page.queries ≡ false)
    × ((execute_query 1700000000 page).1
        ≡ some (
            query page.selected_source_id page.queries
              (get_time_bounds page.time_range 1700000000)))
execute_query-analytics_run_example =
    execute_query-analytics_run show letter events 1700000000 on_explorer visual
