-- ===== src/Extensions/Profiles/Tests.antt =====
-- The profiles of an extension at concrete inputs.
use Prim.Native.String
use aurora_api_gateway.Prelude.{none, [], ◌∷◌, ◌++◌, map, ◌≡◌, refl}
use aurora_api_gateway.Prelude.Text.{trim}
use aurora_api_gateway.Prelude.Json.{num, str, obj, Fields, end, field, get, JsonText}
use aurora_api_gateway.Extensions.Catalog.{resource_limit}
use aurora_api_gateway.Extensions.Profiles.{
  absent, object, resolve_extension_profiles, merge_profiles, normalize_extension_key, strip_prefix,
  members,
}
use aurora_api_gateway.Extensions.Profiles.Merge.{
  find_profile, HasDistinctIds, custom_profile, or_else,
}
use aurora_api_gateway.Extensions.Profiles.Order.{ids, new_ids, names_profile, ids-merge_profiles}
use aurora_api_gateway.Extensions.Profiles.Keys.{
  resolve_extension_profiles-HasDistinctIds, find-resolve_extension_profiles,
  normalize_extension_key-builtin,
}

abbrev json : JsonText
json = record { parse = λ s. none; stringify = λ v. "" }

abbrev custom : Fields
custom =
    field "strict" (obj (field "rate" (num "5") (field "label" (str " Tight ") end)))
      (field "vip" (obj (field "burst" (num "9") end)) end)

abbrev config : Fields
config = field "profiles" (obj custom) end

merged :
    map (λ p. p.summary) (resolve_extension_profiles json "resource-limit" (object config))
    ≡ "Giới hạn kích thước Payload và Header tiêu chuẩn" ∷ "5 req/1s" ∷ "burst 9" ∷ []
unfolding resolve_extension_profiles
merged = refl

resolve_extension_profiles-HasDistinctIds_example :
    HasDistinctIds (resolve_extension_profiles json "jwt" (object config))
resolve_extension_profiles-HasDistinctIds_example =
    resolve_extension_profiles-HasDistinctIds json "jwt" (object config)

find-resolve_extension_profiles_example :
    find_profile "strict" (resolve_extension_profiles json "resource-limit" (object config))
    ≡ or_else
        (custom_profile "strict" (get "strict" custom))
        (find_profile "strict" (resolve_extension_profiles json "resource-limit" absent))
unfolding get
find-resolve_extension_profiles_example =
    find-resolve_extension_profiles json "resource-limit" "strict" config custom refl
      (refl, (refl, tt))

ids-merge_profiles_example :
    ids (merge_profiles resource_limit.default_profiles custom)
    ≡ ids resource_limit.default_profiles ++ new_ids resource_limit.default_profiles custom
unfolding get
ids-merge_profiles_example =
    ids-merge_profiles resource_limit.default_profiles custom (refl, (refl, tt))

new_run : new_ids resource_limit.default_profiles custom ≡ "vip" ∷ []
unfolding new_ids names_profile members trim
new_run = refl

normalize_extension_key-builtin_example :
    normalize_extension_key (String.◌++◌ "builtin/" "jwt") ≡ normalize_extension_key "jwt"
unfolding trim strip_prefix
normalize_extension_key-builtin_example = normalize_extension_key-builtin "jwt" refl refl
