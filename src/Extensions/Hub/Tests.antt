-- ===== src/Extensions/Hub/Tests.antt =====
-- The list of the extensions on sample extensions.
use aurora_api_gateway.Prelude.{◌≡◌, refl, String, Bool, true, false, none, some, [], ◌∷◌, map}
use aurora_api_gateway.Prelude.Text.{includes, to_lower_case, trim}
use aurora_api_gateway.Extensions.Item.{ExtensionItem}
use aurora_api_gateway.Extensions.Hub.{
  ExtensionsPage, init_extensions_page, extensions_answered, filtered_extensions, stats,
  category_key, handle_toggle_status,
}

abbrev extension : String → String → Bool → ExtensionItem
extension id category on = record {
  id = id;
  name = id;
  category = category;
  description = "";
  manifest_key = none;
  manifest_version = none;
  manifest_digest = none;
  version = none;
  enabled = on;
  config_json = "{}";
  config_schema_json = none;
  ui_schema_json = none;
  supported = none;
  schema_json = none;
  is_builtin = true;
  tags = some ("Token" ∷ []);
  default_config = none;
  created_at = none;
  updated_at = none;
}

abbrev loaded : ExtensionsPage
loaded =
    extensions_answered false (extension "jwt" "auth" true ∷ extension "lua" "runtime" false ∷ [])
      init_extensions_page

by_tag :
    map
      (λ x. x.id)
      (filtered_extensions
        (record loaded { selected_category = "authentication"; search_query = " tok" }))
    ≡ "jwt" ∷ []
unfolding filtered_extensions extensions_answered includes to_lower_case trim category_key
by_tag = refl

switched_on : (stats (handle_toggle_status "lua" true loaded).extensions).disabled ≡ 0
unfolding stats handle_toggle_status extensions_answered category_key
switched_on = refl
