-- ===== src/Settings/Windows.antt =====
-- The windows of the security settings: AuthProviderSetupModal.tsx, ChangePasswordModal.tsx and
-- TwoFactorSetupModal.tsx of ui/src/pages/settings/tabs/security/sections. A handler runs up to its
-- request; the answer, with the error's message if there is one, is a later event.
use text.Mathlib.Text.{◌==◌ as str_eq}
use aurora_api_gateway.Prelude.{
  String, Bool, true, false, not, Option, none, some, List, ltb, ◌==◌, if◌then◌else◌,
}
use aurora_api_gateway.Prelude.Json.{Json, obj, end, JsonText}
use aurora_api_gateway.Prelude.Text.{is_empty, or_text, char_count}
use aurora_api_gateway.Settings.Security.{AuthProviderItem}

-- The window that sets a provider up. What `JSON.parse` makes of the text is kept as it is.
pub record ProviderSetup : Type 0 where
  pub setup_config : Json
  pub saving_config : Bool
  pub error_msg : String

parsed_setup : Option Json → Json
parsed_setup none = obj end
parsed_setup (some v) = v

unfoldable pub open_setup : JsonText → AuthProviderItem → ProviderSetup
unfolding parsed_setup
open_setup json p = record {
  setup_config = parsed_setup (json.parse (or_text p.config_json "{}"));
  saving_config = false;
  error_msg = "";
}

-- `handleSaveSetup` up to its request, with the text that is sent.
unfoldable pub handle_save_setup : JsonText → ProviderSetup → ProviderSetup × String
handle_save_setup json w =
    (record w { saving_config = true; error_msg = "" }, json.stringify w.setup_config)

unfoldable pub settle_save_setup : Option String → ProviderSetup → ProviderSetup
settle_save_setup none w = record w { saving_config = false }
settle_save_setup (some message) w = record w {
  error_msg = or_text message "Lưu cấu hình thất bại";
  saving_config = false;
}

-- The window that changes the password.
pub record ChangePassword : Type 0 where
  pub current_password : String
  pub new_password : String
  pub confirm_password : String
  pub pass_change_success : Bool
  pub pass_change_error : String
  pub changing_pass : Bool

-- `handlePasswordSubmit` up to its request, with the two passwords that it sends.
unfoldable pub handle_password_submit : ChangePassword → ChangePassword × Option (String × String)
unfolding char_count
handle_password_submit w =
    if is_empty w.current_password
    then (record w { pass_change_error = "Vui lòng nhập mật khẩu hiện tại." }, none)
    else if ltb (char_count w.new_password) 8
    then (record w { pass_change_error = "Mật khẩu mới phải có ít nhất 8 ký tự." }, none)
    else if not (str_eq w.new_password w.confirm_password)
    then (record w { pass_change_error = "Mật khẩu xác nhận không khớp." }, none)
    else (
      record w { pass_change_error = ""; changing_pass = true },
      some (w.current_password, w.new_password),
    )

unfoldable pub settle_password : Option String → ChangePassword → ChangePassword
settle_password none w = record {
  current_password = "";
  new_password = "";
  confirm_password = "";
  pass_change_success = true;
  pass_change_error = w.pass_change_error;
  changing_pass = false;
}
settle_password (some message) w = record w {
  pass_change_error = or_text message "Đổi mật khẩu thất bại. Vui lòng kiểm tra lại mật khẩu cũ.";
  changing_pass = false;
}

pub data TwoFactorStep : Type 0 where
  scan recovery : TwoFactorStep

-- The window that sets up the second factor.
pub record TwoFactorSetup : Type 0 where
  pub loading : Bool
  pub two_fa_step : TwoFactorStep
  pub two_fa_code : String
  pub secret_key : String
  pub qr_data_url : String
  pub recovery_codes : List String
  pub two_fa_error : String
  pub verifying_2fa : Bool

-- The secret arrives first, the picture of it later; either may fail.
unfoldable pub take_secret : String → TwoFactorSetup → TwoFactorSetup
take_secret secret w = record w { secret_key = secret }

unfoldable pub take_picture : String → TwoFactorSetup → TwoFactorSetup
take_picture url w = record w { qr_data_url = url; loading = false }

unfoldable pub init_2fa_failed : String → TwoFactorSetup → TwoFactorSetup
init_2fa_failed message w = record w {
  two_fa_error = or_text message "Không thể khởi tạo 2FA";
  loading = false;
}

-- `handleVerify2FA` up to its request, with the secret and the code that it sends.
unfoldable pub handle_verify_2fa : TwoFactorSetup → TwoFactorSetup × Option (String × String)
unfolding char_count
handle_verify_2fa w =
    if not (char_count w.two_fa_code == 6)
    then (w, none)
    else (record w { verifying_2fa = true; two_fa_error = "" }, some (w.secret_key, w.two_fa_code))

unfoldable pub take_recovery_codes : List String → TwoFactorSetup → TwoFactorSetup
take_recovery_codes codes w = record w {
  recovery_codes = codes;
  two_fa_step = recovery;
  verifying_2fa = false;
}

unfoldable pub verify_2fa_failed : String → TwoFactorSetup → TwoFactorSetup
verify_2fa_failed message w = record w {
  two_fa_error = or_text message "Mã xác thực không hợp lệ. Vui lòng thử lại";
  verifying_2fa = false;
}
