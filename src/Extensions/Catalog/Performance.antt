-- ===== src/Extensions/Catalog/Performance.antt =====
-- The extensions of the category "performance" with their built-in profiles, in
-- ui/src/pages/extensions/data/extensionProfiles.ts.
use mathlib.Core.Option.{none}
use mathlib.Core.List.{[], ◌∷◌}
use aurora_api_gateway.Prelude.Json.{num, str, arr, nil, cons, end, field}
use aurora_api_gateway.Extensions.Catalog.Schema.{
  DataplaneExtensionMeta, builtin_profile, number, performance,
}

abbrev pub response_cache : DataplaneExtensionMeta
response_cache = record {
  key = "response-cache";
  label = "Response Cache (Zero-Copy SHM)";
  short_label = "Cache";
  category = performance;
  description = "Lưu cache RAM đa biến thể (Identity, Zstd, Brotli, Gzip)";
  default_profiles =
      builtin_profile "standard" "Standard Cache (300s)"
        "TTL 300s — Cân bằng tốc độ và độ mới dữ liệu" (field "ttl_secs" (num "300") end)
      ∷ builtin_profile "short_ttl" "Micro-Cache (30s)"
          "TTL 30s — Chống đột biến tải cho API thay đổi thường xuyên"
          (field "ttl_secs" (num "30") end)
      ∷ builtin_profile "medium_ttl" "Medium Cache (120s)"
          "TTL 120s — Phù hợp danh mục sản phẩm / feed công khai" (field "ttl_secs" (num "120") end)
      ∷ builtin_profile "long_static" "Immutable / Static (3600s)"
          "TTL 3600s (1 giờ) — Tài nguyên tĩnh hoặc dữ liệu ít biến동"
          (field "ttl_secs" (num "3600") end)
      ∷ [];
  profile_fields =
      record {
        key = "ttl_secs";
        label = "TTL (Seconds)";
        kind = number;
        default_value = num "300";
        options = none;
      }
      ∷ [];
}

abbrev pub response_compression : DataplaneExtensionMeta
response_compression = record {
  key = "response-compression";
  label = "Response Compression (Zstd / Br / Gzip)";
  short_label = "Compress";
  category = performance;
  description = "Đàm phán Accept-Encoding và nén phản hồi tự động";
  default_profiles =
      builtin_profile "balanced" "Balanced (Zstd -> Br -> Gzip, >= 1KB)"
        "Min 1024B — Ưu tiên Zstd/Brotli cân bằng CPU & băng thông"
        (field "min_length" (num "1024") (
          field "prefer_algorithms"
            (arr (cons (str "zstd") (cons (str "br") (cons (str "gzip") nil)))) end))
      ∷ builtin_profile "fast_zstd" "Fast Zstd Priority (>= 256B)"
          "Min 256B — Nén siêu tốc độ trễ thấp với Zstd & Gzip"
          (field "min_length" (num "256")
            (field "prefer_algorithms" (arr (cons (str "zstd") (cons (str "gzip") nil))) end))
      ∷ builtin_profile "max_ratio" "Max Compression Ratio (>= 512B)"
          "Min 512B — Ưu tiên Brotli tiết kiệm tối đa băng thông"
          (field "min_length" (num "512") (
            field "prefer_algorithms"
              (arr (cons (str "br") (cons (str "zstd") (cons (str "gzip") nil)))) end))
      ∷ builtin_profile "large_payloads" "Large Payloads Only (>= 4KB)"
          "Min 4096B — Chỉ nén các phản hồi JSON/HTML lớn"
          (field "min_length" (num "4096") (
            field "prefer_algorithms"
              (arr (cons (str "zstd") (cons (str "br") (cons (str "gzip") nil)))) end))
      ∷ [];
  profile_fields =
      record {
        key = "min_length";
        label = "Min Payload Size (Bytes)";
        kind = number;
        default_value = num "1024";
        options = none;
      }
      ∷ [];
}
