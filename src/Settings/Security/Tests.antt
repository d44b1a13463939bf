-- ===== src/Settings/Security/Tests.antt =====
-- Providers switched through the code of the security settings.
use aurora_api_gateway.Prelude.{◌≡◌, refl, String, Bool, true, false, none, some, [], ◌∷◌, arith}
use aurora_api_gateway.Pages.Switch.{set_enabled_of}
use aurora_api_gateway.Settings.Security.{
  AuthProviderItem, SecurityTab, init_security_tab, active_providers_count, handle_toggle_provider,
  settle_toggle, toggle_run, is_last_active,
}
use aurora_api_gateway.Settings.Security.Active.{IsOpen, toggle_run-IsOpen}

abbrev provider : String → Bool → AuthProviderItem
provider id on = record {
  id = id;
  name = id;
  description = "";
  enabled = on;
  config_json = "{}";
  updated_at = "";
}

abbrev tab : SecurityTab
tab = record init_security_tab { providers = provider "local" true ∷ provider "oidc" false ∷ [] }

tab-IsOpen : IsOpen tab.providers
tab-IsOpen = record {
  active = unfold active_providers_count in omega arith;
  distinct = ((refl, tt), (tt, tt));
}

toggle_run-IsOpen_example :
    IsOpen (toggle_run tab (("oidc", none) ∷ ("local", none) ∷ ("oidc", none) ∷ [])).providers
toggle_run-IsOpen_example =
    toggle_run-IsOpen tab (("oidc", none) ∷ ("local", none) ∷ ("oidc", none) ∷ []) tab-IsOpen

-- Where a second switch is pressed before the first is answered, all can be off in the end.
overlap_leaves_none :
    active_providers_count
      (settle_toggle (provider "oidc" false) (some "down") (
        handle_toggle_provider
          (provider "local" true)
          (handle_toggle_provider (provider "oidc" false) tab))).providers
    ≡ 0
unfolding active_providers_count settle_toggle handle_toggle_provider is_last_active set_enabled_of
overlap_leaves_none = refl
