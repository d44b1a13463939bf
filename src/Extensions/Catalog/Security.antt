-- ===== src/Extensions/Catalog/Security.antt =====
-- The extensions of the category "security" with their built-in profiles, in
-- ui/src/pages/extensions/data/extensionProfiles.ts.
use mathlib.Core.Bool.{true}
use mathlib.Core.Option.{none, some}
use mathlib.Core.List.{[], ◌∷◌}
use aurora_api_gateway.Prelude.Json.{bool, str, arr, nil, cons, end, field}
use aurora_api_gateway.Extensions.Catalog.Schema.{
  DataplaneExtensionMeta, builtin_profile, text, select, security,
}

abbrev pub jwt_authentication : DataplaneExtensionMeta
jwt_authentication = record {
  key = "jwt-authentication";
  label = "JWT Authentication (RS256 / JWKS)";
  short_label = "JWT";
  category = security;
  description = "Xác thực chữ ký Bearer Token tại biên FFI";
  default_profiles =
      builtin_profile "default" "Default JWT Policy"
        "Xác thực Bearer JWT theo cấu hình Origin/Public Key mặc định" end
      ∷ builtin_profile "strict" "Strict Token Verification"
          "Bắt buộc xác thực đầy đủ thời hạn và chữ ký RS256" (field "strict" (bool true) end)
      ∷ [];
  profile_fields =
      record {
        key = "header_name";
        label = "Token Header Name";
        kind = text;
        default_value = str "Authorization";
        options = none;
      }
      ∷ [];
}

abbrev pub ip_restriction : DataplaneExtensionMeta
ip_restriction = record {
  key = "ip-restriction";
  label = "IP Restriction (CIDR ACL)";
  short_label = "IP-ACL";
  category = security;
  description = "Kiểm soát danh sách IP Whitelist / Blacklist bằng Radix Trie";
  default_profiles =
      builtin_profile "default" "Default IP ACL Policy"
        "Áp dụng danh sách Whitelist / Blacklist chung của Extension" end
      ∷ builtin_profile "internal_only" "Internal / Private Networks Only"
          "Chỉ cho phép mạng nội bộ RFC1918 (10.0.0.0/8, 172.16.0.0/12, 192.168.0.0/16)"
          (field "action" (str "allow") (
            field "networks"
              (arr (
                cons (str "10.0.0.0/8") (
                  cons (str "172.16.0.0/12")
                    (cons (str "192.168.0.0/16") (cons (str "127.0.0.1/32") nil)))))
              end))
      ∷ [];
  profile_fields =
      record {
        key = "action";
        label = "Action";
        kind = select;
        default_value = str "allow";
        options = some (("Allow Networks", "allow") ∷ ("Deny Networks", "deny") ∷ []);
      }
      ∷ [];
}

abbrev pub resource_limit : DataplaneExtensionMeta
resource_limit = record {
  key = "resource-limit";
  label = "Resource Limit (Payload & Overload Guard)";
  short_label = "ResLimit";
  category = security;
  description = "Bảo vệ kích thước body, header và chống quá tải tài nguyên";
  default_profiles =
      builtin_profile "standard" "Standard Resource Protection"
        "Giới hạn kích thước Payload và Header tiêu chuẩn" end
      ∷ builtin_profile "strict" "Strict Small Payload Guard"
          "Giới hạn chặt kích thước Request cho các API JSON nhỏ" (field "strict" (bool true) end)
      ∷ [];
  profile_fields = [];
}
