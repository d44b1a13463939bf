-- ===== src/Settings/Security.antt =====
-- The providers that may sign a user in and the second factor: the state and the handlers
-- of ui/src/pages/settings/tabs/security/SecurityTab.tsx. A
-- handler runs up to its request; the answer, with the error's message if there is one, is a later
-- event.
pub mod Active
mod Tests
use text.Mathlib.Text.{◌==◌ as str_eq}
use Prim.Native.String.{◌++◌}
use aurora_api_gateway.Prelude.{
  ℕ, ◌≡◌, refl, String, Bool, true, false, not, ◌&&◌, Option, none, some, List, [], ◌∷◌, map, keep,
  find, length, leb, ltb, ◌==◌, if◌then◌else◌,
}
use aurora_api_gateway.Prelude.Text.{is_empty, or_text, char_count}
use aurora_api_gateway.Pages.Switch.{Switchable, set_enabled_of}

pub record AuthProviderItem : Type 0 where
  pub id : String
  pub name : String
  pub description : String
  pub enabled : Bool
  pub config_json : String
  pub updated_at : String

pub record SecurityOverview : Type 0 where
  pub auth_providers : List AuthProviderItem
  pub two_factor_enabled : Bool
  pub admin_username : String
  pub password_last_updated : String

pub record SecurityTab : Type 0 where
  pub loading : Bool
  pub error_banner : String
  pub success_banner : String
  pub providers : List AuthProviderItem
  pub saving_provider_id : Option String
  pub active_setup_provider : Option AuthProviderItem
  pub enable_2fa : Bool
  pub disabling_2fa : Bool
  pub password_last_updated : String
  pub admin_username : String

abbrev pub init_security_tab : SecurityTab
init_security_tab = record {
  loading = true;
  error_banner = "";
  success_banner = "";
  providers = [];
  saving_provider_id = none;
  active_setup_provider = none;
  enable_2fa = false;
  disabling_2fa = false;
  password_last_updated = "Recently";
  admin_username = "admin";
}

-- `loadOverview` up to its request, and from its answer on.
unfoldable pub load_overview : SecurityTab → SecurityTab
load_overview s = record s { loading = true; error_banner = "" }

unfoldable pub take_overview : SecurityOverview → SecurityTab → SecurityTab
take_overview d s = record s {
  providers = d.auth_providers;
  enable_2fa = d.two_factor_enabled;
  admin_username = or_text d.admin_username s.admin_username;
  password_last_updated = or_text d.password_last_updated s.password_last_updated;
  loading = false;
}

unfoldable pub overview_failed : String → SecurityTab → SecurityTab
overview_failed message s = record s {
  error_banner = or_text message "Không thể tải cấu hình bảo mật từ máy chủ";
  loading = false;
}

-- A provider as an element with a switch.
abbrev pub provider_switch : Switchable AuthProviderItem
provider_switch = record {
  id = λ p. p.id;
  enabled = λ p. p.enabled;
  set_enabled = λ b p. record p { enabled = b };
  id_set = λ b p. refl;
  set_same = λ p. refl;
  set_set = λ b c p. refl;
  enabled_set = λ b p. refl;
}

unfoldable pub active_providers_count : List AuthProviderItem → ℕ
active_providers_count providers = length (keep (λ p. p.enabled) providers)

-- The provider is the last one that is on.
unfoldable pub is_last_active : AuthProviderItem → SecurityTab → Bool
unfolding active_providers_count
is_last_active provider s = provider.enabled && leb (active_providers_count s.providers) 1

-- `handleToggleProvider` up to its request, which is not sent for the last active provider.
unfoldable pub handle_toggle_provider : AuthProviderItem → SecurityTab → SecurityTab
unfolding is_last_active set_enabled_of
handle_toggle_provider provider s =
    if is_last_active provider s
    then record s {
      error_banner =
          "Hệ thống yêu cầu ít nhất 1 phương thức xác thực luôn hoạt động. Không thể tắt tất cả phương thức.";
    }
    else record s {
      providers = set_enabled_of provider_switch provider.id (not provider.enabled) s.providers;
      saving_provider_id = some provider.id;
      error_banner = "";
    }

-- `handleToggleProvider` from the answer on.
unfoldable pub settle_toggle : AuthProviderItem → Option String → SecurityTab → SecurityTab
unfolding set_enabled_of
settle_toggle provider none s = record s {
  success_banner = "Đã " ++ ((if provider.enabled then "tắt" else "bật") ++ (" " ++ provider.name));
  saving_provider_id = none;
}
settle_toggle provider (some message) s = record s {
  providers = set_enabled_of provider_switch provider.id provider.enabled s.providers;
  error_banner = or_text message "Thao tác không thành công";
  saving_provider_id = none;
}

abbrev pub toggle_found : Option AuthProviderItem → Option String → SecurityTab → SecurityTab
toggle_found none answer s = s
toggle_found (some p) answer s =
    if is_last_active p s
    then handle_toggle_provider p s
    else settle_toggle p answer (handle_toggle_provider p s)

-- A press on the switch of the provider with that id, and the answer before anything else happens.
unfoldable pub toggle_provider : String → Option String → SecurityTab → SecurityTab
toggle_provider id answer s = toggle_found (find (λ p. str_eq p.id id) s.providers) answer s

unfoldable pub toggle_run : SecurityTab → List (String × Option String) → SecurityTab
toggle_run s [] = s
toggle_run s ((id, answer) ∷ rest) = toggle_run (toggle_provider id answer s) rest

-- `handleDisable2FA` once it is confirmed, and from its answer on.
unfoldable pub handle_disable_2fa : SecurityTab → SecurityTab
handle_disable_2fa s = record s { disabling_2fa = true; error_banner = "" }

unfoldable pub settle_disable_2fa : Option String → SecurityTab → SecurityTab
settle_disable_2fa none s = record s {
  enable_2fa = false;
  success_banner = "Đã tắt xác thực hai bước (2FA)";
  disabling_2fa = false;
}
settle_disable_2fa (some message) s = record s {
  error_banner = or_text message "Không thể tắt 2FA";
  disabling_2fa = false;
}

set_config : String → String → AuthProviderItem → AuthProviderItem
set_config id config p =
    if str_eq p.id id then record p { enabled = true; config_json = config } else p

-- `target?.name || providerId`
name_or_id : Option AuthProviderItem → String → String
name_or_id none id = id
name_or_id (some p) id = or_text p.name id

unfoldable pub handle_provider_setup_success : String → String → SecurityTab → SecurityTab
unfolding set_config name_or_id
handle_provider_setup_success id config s = record s {
  providers = map (set_config id config) s.providers;
  success_banner = "Đã lưu cấu hình cho " ++ name_or_id (find (λ p. str_eq p.id id) s.providers) id;
}
