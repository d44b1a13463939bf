-- ===== src/Login.antt =====
-- Signing in: the state and the handlers of ui/src/pages/login/sections/LoginForm.tsx, with the stored
-- token and user of ui/src/lib/fetcher.ts. A request that is sent waits in `requests` for its answer.
pub mod Reached
mod Tests
use aurora_api_gateway.Prelude.{
  String, Bool, true, false, not, Option, none, some, ◌⊎◌, inl, inr, List, [], ◌∷◌, if◌then◌else◌,
}
use aurora_api_gateway.Prelude.Json.{Json, obj, JsonText, get, truthy}
use aurora_api_gateway.Prelude.Text.{is_empty, trim, or_text}
use aurora_api_gateway.Http.{ApiError, ResponseData, json_data, text_data, text_of}

-- The two values in the browser's storage; `can_store` says whether it takes writes.
pub record Storage : Type 0 where
  pub token : Option String
  pub user : Option String
  pub can_store : Bool

unfoldable pub set_auth_token : String → Storage → Storage
set_auth_token token s = if s.can_store then record s { token = some token } else s

unfoldable pub set_auth_user : JsonText → Json → Storage → Storage
set_auth_user json user s =
    if s.can_store then record s { user = some (json.stringify user) } else s

-- `logout`, whatever its request comes to: the storage, and where the browser goes.
unfoldable pub logout : Storage → Storage × String
logout s =
    (if s.can_store then record { token = none; user = none; can_store = true } else s, "/login")

-- `api.post` with a name and a password, or with a second factor.
pub data LoginRequest : Type 0 where
  credentials : String → String → LoginRequest
  second_factor : Option Json → String → LoginRequest

pub record LoginForm : Type 0 where
  pub username : String
  pub password : String
  pub is_loading : Bool
  pub error_message : String
  pub is_success : Bool
  pub requires_2fa : Bool
  pub two_factor_token : Option Json
  pub two_factor_code : String
  pub storage : Storage
  pub requests : List LoginRequest

abbrev pub init_login_form : Storage → LoginForm
init_login_form storage = record {
  username = "";
  password = "";
  is_loading = false;
  error_message = "";
  is_success = false;
  requires_2fa = false;
  two_factor_token = some (Json.str "");
  two_factor_code = "";
  storage = storage;
  requests = [];
}

-- `data[k]`; a text and a value that is no object have no such field.
abbrev pub field_of : String → ResponseData → Option Json
field_of k (text_data s) = none
field_of k (json_data (obj o)) = get k o
field_of k (json_data other) = none

module _ (show : Json → String) (json : JsonText) where
  -- `a || b`, of a field and a text.
  abbrev text_or : Option Json → String → String
  text_or none fallback = fallback
  text_or (some v) fallback = if truthy (some v) then text_of show v else fallback

  abbrev failure_message : String → ApiError → String
  failure_message fallback e = text_or (field_of "error" e.data_of) (or_text e.message fallback)

  abbrev pub store_user : Option Json → Storage → Storage
  store_user none s = s
  store_user (some user) s = if truthy (some user) then set_auth_user json user s else s

  -- The token that an answer carries.
  abbrev pub carried : ResponseData → Option String
  carried d = elim (field_of "token" d) [
    | none ↦ none
    | some v ↦ if truthy (some v) then some (text_of show v) else none
  ]

  -- The part that both handlers share, from `if (data && data.token)` on.
  pub take_token : ResponseData → Option String → LoginForm → LoginForm
  unfolding set_auth_token set_auth_user
  take_token d none s = record s {
    error_message = "No token returned by server";
    is_loading = false;
  }
  take_token d (some token) s = record s {
    storage = store_user (field_of "user" d) (set_auth_token token s.storage);
    is_success = true;
    is_loading = false;
  }

  -- `handleSubmit` up to its request.
  unfoldable pub handle_submit : LoginForm → LoginForm
  unfolding trim
  handle_submit s = if s.is_loading then s else record s {
    is_loading = true;
    error_message = "";
    requests = credentials (trim s.username) s.password ∷ s.requests;
  }

  -- `handleSubmit` from the answer on.
  unfoldable pub login_answer : ApiError ⊎ ResponseData → LoginForm → LoginForm
  unfolding take_token get
  login_answer (inl e) s = record s {
    error_message = failure_message "Authentication failed. Please check your credentials." e;
    is_loading = false;
  }
  login_answer (inr d) s =
      if truthy (field_of "requires_2fa" d)
      then record s {
        requires_2fa = true;
        two_factor_token = field_of "two_factor_token" d;
        is_loading = false;
        error_message = "";
      }
      else take_token d (carried d) s

  -- `handleVerify2FA` up to its request.
  unfoldable pub handle_verify_2fa : LoginForm → LoginForm
  unfolding trim
  handle_verify_2fa s =
      if s.is_loading
      then s
      else if is_empty (trim s.two_factor_code)
      then record s { error_message = "Please enter the 2FA verification code." }
      else record s {
        is_loading = true;
        error_message = "";
        requests = second_factor s.two_factor_token (trim s.two_factor_code) ∷ s.requests;
      }

  -- `handleVerify2FA` from the answer on.
  unfoldable pub verify_answer : ApiError ⊎ ResponseData → LoginForm → LoginForm
  unfolding take_token get
  verify_answer (inl e) s = record s {
    error_message = failure_message "Invalid two-factor verification code." e;
    is_loading = false;
  }
  verify_answer (inr d) s = take_token d (carried d) s

unfoldable pub handle_back_to_credentials : LoginForm → LoginForm
handle_back_to_credentials s = record s {
  requires_2fa = false;
  two_factor_token = some (Json.str "");
  two_factor_code = "";
  error_message = "";
}
