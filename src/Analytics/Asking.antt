-- ===== src/Analytics/Asking.antt =====
-- The page always has a query to send.
use aurora_api_gateway.Prelude.{
  ℕ, zero, suc, ◌≡◌, refl, String, Bool, false, some, List, [], ◌∷◌, ◌++◌, length, leb, inl, inr,
  Bool-cases, arith,
}
use aurora_api_gateway.Prelude.Json.{Json}
use aurora_api_gateway.Http.{ApiError}
use aurora_api_gateway.Analytics.Preset.{
  AnalyticsQueryItem, TimeRangePreset, PresetType, traffic, waf, rate_limit, system, custom,
  preset_queries, get_time_bounds,
}
use aurora_api_gateway.Analytics.{
  AnalyticsPage, MainTab, init_analytics_page, explorer, connections, query, take_catalog,
  execute_query, ask, no_queries, query_answered, query_failed, handle_select_preset, add_query,
  remove_query, without, update_query_field, update_at, toggle_raw_mode, change_queries,
}

added_some :
    (qs : List AnalyticsQueryItem) (q : AnalyticsQueryItem) → no_queries (qs ++ q ∷ []) ≡ false
added_some [] q = refl
added_some (p ∷ qs) q = refl

without_some :
    (index : ℕ) (qs : List AnalyticsQueryItem)
    → leb (length qs) 1 ≡ false
    → no_queries (without index qs) ≡ false
unfolding without
without_some index [] h = absurd (ground (arith, h))
without_some index (q ∷ []) h = absurd (ground (arith, h))
without_some zero (q ∷ p ∷ qs) h = refl
without_some (suc index) (q ∷ p ∷ qs) h = refl

updated_some :
    (index : ℕ) (f : AnalyticsQueryItem → AnalyticsQueryItem) (qs : List AnalyticsQueryItem)
    → no_queries qs ≡ false
    → no_queries (update_at index f qs) ≡ false
unfolding update_at
updated_some index f [] h = h
updated_some zero f (q ∷ qs) h = refl
updated_some (suc index) f (q ∷ qs) h = refl

-- What the user and the controller do on the page. A press that asks for the data, the timer of the
-- refresh and the effect that follows a change are all `run`.
pub data AnalyticsEvent (Series : Type 0) : Type 0 where
  cataloged : List String → List (List String) → AnalyticsEvent Series
  opened : MainTab → AnalyticsEvent Series
  sourced : String → AnalyticsEvent Series
  refreshed_every : ℕ → AnalyticsEvent Series
  run : ℕ → AnalyticsEvent Series
  answered : List Series → AnalyticsEvent Series
  failed : Bool → ApiError → AnalyticsEvent Series
  selected : PresetType → AnalyticsEvent Series
  added : AnalyticsEvent Series
  removed : ℕ → AnalyticsEvent Series
  updated : ℕ → (AnalyticsQueryItem → AnalyticsQueryItem) → AnalyticsEvent Series
  switched_raw : Bool → AnalyticsEvent Series
  ranged : TimeRangePreset → AnalyticsEvent Series
  written : String → AnalyticsEvent Series

module _ {Series : Type 0} (show : Json → String) (from_char_code : ℕ → String) where
  unfoldable pub analytics_step :
      AnalyticsPage Series → AnalyticsEvent Series → AnalyticsPage Series
  unfolding execute_query query_answered query_failed handle_select_preset add_query remove_query
      update_query_field toggle_raw_mode take_catalog
  analytics_step s (cataloged ids categories) = take_catalog ids categories s
  analytics_step s (opened tab) = record s { active_main_tab = tab }
  analytics_step s (sourced id) = record s { selected_source_id = id }
  analytics_step s (refreshed_every seconds) = record s { auto_refresh_interval = seconds }
  analytics_step s (run now) = (execute_query now s).0
  analytics_step s (answered series) = query_answered series s
  analytics_step s (failed raw e) = query_failed show raw e s
  analytics_step s (selected preset) = handle_select_preset preset s
  analytics_step s added = add_query from_char_code s
  analytics_step s (removed index) = remove_query index s
  analytics_step s (updated index f) = update_query_field index f s
  analytics_step s (switched_raw raw) = toggle_raw_mode raw s
  analytics_step s (ranged range) = record s { time_range = range }
  analytics_step s (written text) = record s { raw_prom_ql = text }

  unfoldable pub analytics_run :
      AnalyticsPage Series → List (AnalyticsEvent Series) → AnalyticsPage Series
  analytics_run s [] = s
  analytics_run s (e ∷ es) = analytics_run (analytics_step s e) es

  -- There is a query.
  abbrev IsAsking : AnalyticsPage Series → Type 0
  IsAsking s = no_queries s.queries ≡ false

  execute_query-IsAsking :
      (s : AnalyticsPage Series) (now : ℕ) (tab : MainTab)
      → s.active_main_tab ≡ tab
      → IsAsking s
      → IsAsking (execute_query now s).0
  unfolding execute_query
  execute_query-IsAsking s now explorer at_tab h = rw at_tab h
  execute_query-IsAsking s now connections at_tab h = rw at_tab h

  analytics_step-IsAsking :
      (s : AnalyticsPage Series) (e : AnalyticsEvent Series)
      → IsAsking s
      → IsAsking (analytics_step s e)
  unfolding analytics_step change_queries
  analytics_step-IsAsking s (cataloged [] categories) h = h
  analytics_step-IsAsking s (cataloged (id ∷ ids) categories) h = h
  analytics_step-IsAsking s (opened tab) h = h
  analytics_step-IsAsking s (sourced id) h = h
  analytics_step-IsAsking s (refreshed_every seconds) h = h
  analytics_step-IsAsking s (run now) h = execute_query-IsAsking s now s.active_main_tab refl h
  analytics_step-IsAsking s (answered series) h = h
  analytics_step-IsAsking s (failed raw e) h = h
  analytics_step-IsAsking s (selected traffic) h = refl
  analytics_step-IsAsking s (selected waf) h = refl
  analytics_step-IsAsking s (selected rate_limit) h = refl
  analytics_step-IsAsking s (selected system) h = refl
  analytics_step-IsAsking s (selected custom) h = h
  analytics_step-IsAsking s added h = added_some s.queries _
  analytics_step-IsAsking s (removed index) h = elim (Bool-cases (leb (length s.queries) 1)) [
    | inl one ↦ simp (one) h
    | inr more ↦ simp (more) (without_some index s.queries more)
  ]
  analytics_step-IsAsking s (updated index f) h = updated_some index f s.queries h
  analytics_step-IsAsking s (switched_raw raw) h = h
  analytics_step-IsAsking s (ranged range) h = h
  analytics_step-IsAsking s (written text) h = h

  analytics_run-IsAsking :
      (s : AnalyticsPage Series) (es : List (AnalyticsEvent Series))
      → IsAsking s
      → IsAsking (analytics_run s es)
  unfolding analytics_run
  analytics_run-IsAsking s [] h = h
  analytics_run-IsAsking s (e ∷ es) h =
      analytics_run-IsAsking (analytics_step s e) es (analytics_step-IsAsking s e h)

  asked :
      (s : AnalyticsPage Series) (now : ℕ)
      → IsAsking s
      → s.active_main_tab ≡ explorer
      → s.is_raw_mode ≡ false
      → (execute_query now s).1
        ≡ some (query s.selected_source_id s.queries (get_time_bounds s.time_range now))
  unfolding execute_query ask
  asked s now some_query tab visual = rw tab (rw (visual, some_query) refl)

-- From the page as it opens, after any chain of its events, the catalog's answers and the choices of
-- a tab and a source among them: where the explorer is open in the visual mode, asking for the data
-- sends all queries of the page for the selected source and the chosen range, and there is one query
-- at least.
pub execute_query-analytics_run :
    {Series : Type 0} (show : Json → String) (from_char_code : ℕ → String)
    (es : List (AnalyticsEvent Series)) (now : ℕ)
    → (analytics_run show from_char_code init_analytics_page es).active_main_tab ≡ explorer
    → (analytics_run show from_char_code init_analytics_page es).is_raw_mode ≡ false
    → (no_queries (analytics_run show from_char_code init_analytics_page es).queries ≡ false)
      × ((execute_query now (analytics_run show from_char_code init_analytics_page es)).1
          ≡ some (
              query
                (analytics_run show from_char_code init_analytics_page es).selected_source_id
                (analytics_run show from_char_code init_analytics_page es).queries
                (get_time_bounds
                  (analytics_run show from_char_code init_analytics_page es).time_range
                  now)))
execute_query-analytics_run show from_char_code es now tab visual =
    let s = analytics_run show from_char_code init_analytics_page es in
    let h =
      analytics_run-IsAsking show from_char_code init_analytics_page es
        (unfold init_analytics_page preset_queries in refl) in
    (h, asked show from_char_code s now h tab visual)
