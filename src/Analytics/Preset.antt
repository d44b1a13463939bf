-- ===== src/Analytics/Preset.antt =====
-- Queries, the presets of them (ui/src/pages/analytics/components/PresetSelector.tsx) and the ranges of
-- time (`getTimeBounds` of ui/src/pages/analytics/page.tsx).
use aurora_api_gateway.Prelude.{ℕ, String, Option, none, some, List, [], ◌∷◌}
use aurora_api_gateway.Prelude.Int.{ℤ, int_sub}

pub record AnalyticsQueryItem : Type 0 where
  pub id : String
  pub metric_key : String
  pub aggregation : Option String
  pub filters : Option (List (String × String))
  pub group_by : Option (List String)

pub data TimeRangePreset : Type 0 where
  minutes_15 hour_1 hours_6 hours_24 days_7 : TimeRangePreset

pub data PresetType : Type 0 where
  traffic waf rate_limit system custom : PresetType

summed : String → String → String → String → AnalyticsQueryItem
summed id metric_key aggregation group = record {
  id = id;
  metric_key = metric_key;
  aggregation = some aggregation;
  filters = none;
  group_by = some (group ∷ []);
}

-- The queries of a preset.
unfoldable pub preset_queries : PresetType → List AnalyticsQueryItem
unfolding summed
preset_queries traffic =
    summed "A" "traffic.requests_rate" "sum" "node_id"
    ∷ summed "B" "traffic.connections_active" "sum" "node_id"
    ∷ []
preset_queries waf =
    summed "A" "waf.blocks_rate" "sum" "action"
    ∷ summed "B" "waf.rules_triggered" "sum" "rule_id"
    ∷ []
preset_queries rate_limit =
    summed "A" "rate_limit.rejected" "sum" "zone"
    ∷ summed "B" "rate_limit.delayed" "sum" "zone"
    ∷ []
preset_queries system =
    summed "A" "system.cpu_percent" "avg" "node_id"
    ∷ summed "B" "system.memory_percent" "avg" "node_id"
    ∷ []
preset_queries custom = []

-- The seconds of a range, and of a step in it.
unfoldable pub time_bounds : TimeRangePreset → ℕ × ℕ
time_bounds minutes_15 = (900, 5)
time_bounds hour_1 = (3600, 15)
time_bounds hours_6 = (21600, 60)
time_bounds hours_24 = (86400, 300)
time_bounds days_7 = (604800, 1800)

pub record Bounds : Type 0 where
  pub start : ℤ
  pub end : ℕ
  pub step_seconds : ℕ

unfoldable pub get_time_bounds : TimeRangePreset → ℕ → Bounds
unfolding time_bounds
get_time_bounds range now =
    let (duration, step) = time_bounds range in
    record { start = int_sub now duration; end = now; step_seconds = step }
