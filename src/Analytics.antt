-- ===== src/Analytics.antt =====
-- The explorer of the analytics: the state and the handlers of ui/src/pages/analytics/page.tsx and
-- of its components/QueryBuilder.tsx. The time of `Date.now()`, in
-- seconds, comes with the press, and the label that `String.fromCharCode` makes is an argument.
pub mod Asking
pub mod Preset
mod Tests
use text.Mathlib.Text.{◌==◌ as str_eq}
use aurora_api_gateway.Prelude.{
  ℕ, zero, suc, ◌+◌, String, Bool, true, false, Option, none, some, List, [], ◌∷◌, ◌++◌, length,
  leb, if◌then◌else◌,
}
use aurora_api_gateway.Prelude.Json.{Json, truthy}
use aurora_api_gateway.Prelude.Text.{is_empty, trim, or_text}
use aurora_api_gateway.Http.{ApiError, text_of}
use aurora_api_gateway.Login.{field_of}
use aurora_api_gateway.Analytics.Preset.{
  AnalyticsQueryItem, TimeRangePreset, hour_1, PresetType, traffic, custom, preset_queries, Bounds,
  get_time_bounds,
}

pub data MainTab : Type 0 where
  explorer connections : MainTab

-- The series that are shown are of the type `Series`; a source is its id, and a category is the list
-- of its metrics' keys.
pub record AnalyticsPage (Series : Type 0) : Type 0 where
  pub active_main_tab : MainTab
  pub sources : List String
  pub selected_source_id : String
  pub categories : List (List String)
  pub time_range : TimeRangePreset
  pub auto_refresh_interval : ℕ
  pub active_preset : PresetType
  pub queries : List AnalyticsQueryItem
  pub is_raw_mode : Bool
  pub raw_prom_ql : String
  pub series : List Series
  pub is_loading : Bool
  pub error : Option String

unfoldable pub init_analytics_page : {Series : Type 0} → AnalyticsPage Series
unfolding preset_queries
init_analytics_page = record {
  active_main_tab = explorer;
  sources = [];
  selected_source_id = "prometheus";
  categories = [];
  time_range = hour_1;
  auto_refresh_interval = 30;
  active_preset = traffic;
  queries = preset_queries traffic;
  is_raw_mode = false;
  raw_prom_ql = "sum(rate(nginx_http_requests_total[1m]))";
  series = [];
  is_loading = false;
  error = none;
}

pub data AnalyticsRequest : Type 0 where
  query_raw : String → String → Bounds → AnalyticsRequest
  query : String → List AnalyticsQueryItem → Bounds → AnalyticsRequest

abbrev pub no_queries : List AnalyticsQueryItem → Bool
no_queries [] = true
no_queries (q ∷ qs) = false

is_asked : Option AnalyticsRequest → Bool
is_asked none = false
is_asked (some r) = true

text_or : (Json → String) → Option Json → String → String
text_or show none fallback = fallback
text_or show (some v) fallback = if truthy (some v) then text_of show v else fallback

failure_text : Bool → String
failure_text true = "Lỗi truy vấn PromQL từ máy chủ Prometheus"
failure_text false = "Không thể lấy số liệu từ máy chủ metrics"

-- `categories[0]?.metrics[0]?.key || 'traffic.requests_rate'`
first_metric : List (List String) → String
first_metric [] = "traffic.requests_rate"
first_metric ([] ∷ rest) = "traffic.requests_rate"
first_metric ((key ∷ keys) ∷ rest) = or_text key "traffic.requests_rate"

without : ℕ → List AnalyticsQueryItem → List AnalyticsQueryItem
without index [] = []
without zero (q ∷ qs) = qs
without (suc index) (q ∷ qs) = q ∷ without index qs

update_at :
    ℕ
    → (AnalyticsQueryItem → AnalyticsQueryItem)
    → List AnalyticsQueryItem
    → List AnalyticsQueryItem
update_at index f [] = []
update_at zero f (q ∷ qs) = f q ∷ qs
update_at (suc index) f (q ∷ qs) = q ∷ update_at index f qs

module _ {Series : Type 0} where
  -- `refreshCatalog` from its answer on; a list that is missing counts as empty. The first source is
  -- selected, if there is one.
  unfoldable pub take_catalog :
      List String → List (List String) → AnalyticsPage Series → AnalyticsPage Series
  take_catalog [] categories s = record s { sources = []; categories = categories }
  take_catalog (id ∷ ids) categories s = record s {
    sources = id ∷ ids;
    categories = categories;
    selected_source_id = id;
  }

  -- `executeQuery` on the explorer, in the mode of the page.
  ask : AnalyticsPage Series → Bounds → Option AnalyticsRequest
  unfolding trim
  ask s bounds =
      if s.is_raw_mode
      then (if is_empty (trim s.raw_prom_ql)
          then none
          else some (query_raw s.selected_source_id (trim s.raw_prom_ql) bounds))
      else (if no_queries s.queries
          then none
          else some (query s.selected_source_id s.queries bounds))

  -- `executeQuery` up to its request.
  unfoldable pub execute_query :
      ℕ → AnalyticsPage Series → AnalyticsPage Series × Option AnalyticsRequest
  unfolding ask is_asked get_time_bounds
  execute_query now s = elim (s.active_main_tab) [
    | connections ↦ (s, none)
    | explorer ↦
        let request = ask s (get_time_bounds s.time_range now) in
        (record s { is_loading = is_asked request; error = none }, request)
  ]

  -- `executeQuery` from its answer on.
  unfoldable pub query_answered : List Series → AnalyticsPage Series → AnalyticsPage Series
  query_answered series s = record s { series = series; is_loading = false }

  -- The mode is that of the request.
  unfoldable pub query_failed :
      (Json → String) → Bool → ApiError → AnalyticsPage Series → AnalyticsPage Series
  unfolding text_or failure_text
  query_failed show raw_mode e s = record s {
    error = some (
        text_or show (field_of "message" e.data_of)
          (text_or show (field_of "error" e.data_of) (or_text e.message (failure_text raw_mode))));
    series = [];
    is_loading = false;
  }

  change_queries : List AnalyticsQueryItem → AnalyticsPage Series → AnalyticsPage Series
  change_queries queries s = record s { active_preset = custom; queries = queries }

  unfoldable pub handle_select_preset : PresetType → AnalyticsPage Series → AnalyticsPage Series
  unfolding preset_queries
  handle_select_preset preset s = elim (preset_queries preset) [
    | [] ↦ record s { active_preset = preset }
    | q ∷ qs ↦ record s { active_preset = preset; queries = q ∷ qs; is_raw_mode = false }
  ]

  unfoldable pub add_query : (ℕ → String) → AnalyticsPage Series → AnalyticsPage Series
  unfolding change_queries first_metric
  add_query from_char_code s =
      change_queries
        (s.queries
          ++ record {
            id = from_char_code (65 + length s.queries);
            metric_key = first_metric s.categories;
            aggregation = some "sum";
            filters = none;
            group_by = some ("node_id" ∷ []);
          }
            ∷ [])
        s

  unfoldable pub remove_query : ℕ → AnalyticsPage Series → AnalyticsPage Series
  unfolding change_queries without
  remove_query index s =
      if leb (length s.queries) 1 then s else change_queries (without index s.queries) s

  -- `updateQueryField`, where `f` writes the field, at the index of a query that is shown.
  unfoldable pub update_query_field :
      ℕ → (AnalyticsQueryItem → AnalyticsQueryItem) → AnalyticsPage Series → AnalyticsPage Series
  unfolding change_queries update_at
  update_query_field index f s = change_queries (update_at index f s.queries) s

  unfoldable pub toggle_raw_mode : Bool → AnalyticsPage Series → AnalyticsPage Series
  toggle_raw_mode raw s = record s { active_preset = custom; is_raw_mode = raw }
