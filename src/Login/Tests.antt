-- ===== src/Login/Tests.antt =====
-- A sign-in with a second factor, run through the code of the form.
use aurora_api_gateway.Prelude.{refl, String, true, none, some, inr, [], ◌∷◌}
use aurora_api_gateway.Prelude.Json.{Json, bool, str, obj, end, field, JsonText, get}
use aurora_api_gateway.Prelude.Text.{trim}
use aurora_api_gateway.Http.{ResponseData, json_data}
use aurora_api_gateway.Login.{
  Storage, LoginForm, init_login_form, handle_submit, login_answer, handle_verify_2fa,
  verify_answer,
}
use aurora_api_gateway.Login.Reached.{
  Reached, start, entered, submit_pressed, verify_pressed, login_answered, verify_answered, IsSafe,
  Reached-IsSafe,
}

abbrev json : JsonText
json = record { parse = λ s. none; stringify = λ v. "{}" }

abbrev show : Json → String
show v = "?"

abbrev empty_storage : Storage
empty_storage = record { token = none; user = none; can_store = true }

-- The answer that asks for a second factor, and the one that grants a token.
abbrev asks : ResponseData
asks =
    json_data (obj (field "requires_2fa" (bool true) (field "two_factor_token" (str "half") end)))

abbrev grants : ResponseData
grants = json_data (obj (field "token" (str "full") end))

abbrev waiting : LoginForm
waiting = handle_submit show json (record (init_login_form empty_storage) {
  username = "admin";
  password = "pass";
  two_factor_code = "123456";
})

abbrev asked : LoginForm
asked = login_answer show json (inr asks) (record waiting { requests = [] })

abbrev verifying : LoginForm
verifying = handle_verify_2fa show json asked

abbrev signed_in : LoginForm
signed_in = verify_answer show json (inr grants) (record verifying { requests = [] })

signed_in-Reached : Reached show json ("full" ∷ []) signed_in
unfolding handle_submit login_answer handle_verify_2fa verify_answer get trim
signed_in-Reached = verify_answered (some (str "half")) "123456" [] (inr grants) refl (
    verify_pressed (
      login_answered "admin" "pass" [] (inr asks) refl
        (submit_pressed (entered "admin" "pass" "123456" (start empty_storage refl)))))

Reached-IsSafe_example : IsSafe ("full" ∷ []) signed_in
Reached-IsSafe_example = Reached-IsSafe show json ("full" ∷ []) signed_in signed_in-Reached
