-- ===== src/Extensions/Catalog/Traffic.antt =====
-- The extensions of the category "traffic" with their built-in profiles, in
-- ui/src/pages/extensions/data/extensionProfiles.ts.
use mathlib.Core.Option.{none, some}
use mathlib.Core.List.{[], ◌∷◌}
use aurora_api_gateway.Prelude.Json.{num, str, end, field}
use aurora_api_gateway.Extensions.Catalog.Schema.{
  DataplaneExtensionMeta, builtin_profile, number, select, traffic,
}

abbrev pub rate_limit : DataplaneExtensionMeta
rate_limit = record {
  key = "rate-limit";
  label = "Rate Limiting (Token / Sliding Window)";
  short_label = "RateLimit";
  category = traffic;
  description = "Giới hạn tần suất request chống DDoS / lạm dụng API";
  default_profiles =
      builtin_profile "standard" "Standard API (100 req/s, burst 200)"
        "100 req/s mỗi IP (Burst 200) — Mặc định cho REST API"
        (field "rate" (num "100") (
          field "period_secs" (num "1") (
            field "burst" (num "200") (
              field "limit_by" (str "client_ip")
                (field "action_on_exceeded" (str "throttle") end)))))
      ∷ builtin_profile "strict" "Strict Auth/Write (10 req/s, burst 20)"
          "10 req/s mỗi IP (Burst 20) — Bảo vệ Login / Checkout / Mutation"
          (field "rate" (num "10") (
            field "period_secs" (num "1") (
              field "burst" (num "20") (
                field "limit_by" (str "client_ip")
                  (field "action_on_exceeded" (str "throttle") end)))))
      ∷ builtin_profile "high_throughput" "High Throughput (1000 req/s, burst 2000)"
          "1000 req/s mỗi IP — Dành cho luồng dữ liệu tần suất cao"
          (field "rate" (num "1000") (
            field "period_secs" (num "1") (
              field "burst" (num "2000") (
                field "limit_by" (str "client_ip")
                  (field "action_on_exceeded" (str "throttle") end)))))
      ∷ builtin_profile "burst_tolerant" "Burst Tolerant (250 req/s, burst 1000)"
          "250 req/s (Burst 1000) — Cho phép tải trang SPA nhiều request song song"
          (field "rate" (num "250") (
            field "period_secs" (num "1") (
              field "burst" (num "1000") (
                field "limit_by" (str "client_ip")
                  (field "action_on_exceeded" (str "throttle") end)))))
      ∷ [];
  profile_fields =
      record {
        key = "rate";
        label = "Rate (Requests / Period)";
        kind = number;
        default_value = num "100";
        options = none;
      }
      ∷ record {
        key = "period_secs";
        label = "Period (Seconds)";
        kind = number;
        default_value = num "1";
        options = none;
      }
      ∷ record {
        key = "burst";
        label = "Burst Capacity";
        kind = number;
        default_value = num "200";
        options = none;
      }
      ∷ record {
        key = "action_on_exceeded";
        label = "Action on Exceeded";
        kind = select;
        default_value = str "throttle";
        options = some (
            ("Throttle (429)", "throttle")
            ∷ ("Block (403)", "block")
            ∷ ("Audit Only", "audit")
            ∷ []);
      }
      ∷ [];
}

abbrev pub connection_limit : DataplaneExtensionMeta
connection_limit = record {
  key = "connection-limit";
  label = "Connection Limit (Concurrent Guard)";
  short_label = "ConnLimit";
  category = traffic;
  description = "Giới hạn số kết nối đồng thời trên mỗi Client IP";
  default_profiles =
      builtin_profile "standard" "Standard (100 Max Connections / IP)"
        "Tối đa 100 kết nối đồng thời mỗi IP"
        (field "max_connections" (num "100")
          (field "limit_by" (str "client_ip") (field "action_on_exceeded" (str "throttle") end)))
      ∷ builtin_profile "strict" "Strict (20 Max Connections / IP)"
          "Tối đa 20 kết nối đồng thời mỗi IP — Chống giữ kết nối Slowloris"
          (field "max_connections" (num "20")
            (field "limit_by" (str "client_ip") (field "action_on_exceeded" (str "throttle") end)))
      ∷ builtin_profile "high_concurrency" "High Concurrency (500 Max Connections / IP)"
          "Tối đa 500 kết nối đồng thời mỗi IP — Dành cho B2B / NAT Gateway"
          (field "max_connections" (num "500")
            (field "limit_by" (str "client_ip") (field "action_on_exceeded" (str "throttle") end)))
      ∷ [];
  profile_fields =
      record {
        key = "max_connections";
        label = "Max Concurrent Connections";
        kind = number;
        default_value = num "100";
        options = none;
      }
      ∷ [];
}

abbrev pub traffic_shaper : DataplaneExtensionMeta
traffic_shaper = record {
  key = "traffic-shaper";
  label = "Traffic Shaper (QoS Bandwidth)";
  short_label = "Shaper";
  category = traffic;
  description = "Điều tiết băng thông và độ ưu tiên luồng dữ liệu";
  default_profiles =
      builtin_profile "standard" "Standard QoS Shaping"
        "Điều tiết luồng dữ liệu theo cấu hình QoS mặc định" end
      ∷ builtin_profile "priority" "High Priority Fast-Lane"
          "Ưu tiên băng thông cho luồng API quan trọng" (field "priority" (str "high") end)
      ∷ [];
  profile_fields = [];
}
