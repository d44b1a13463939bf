-- ===== src/Login/Reached.antt =====
-- The states that the sign-in form can come to.
use aurora_api_gateway.Prelude.{
  ◌≡◌, refl, sym, subst, String, Bool, true, false, Option, none, some, ◌⊎◌, inl, inr, List, [],
  ◌∷◌, Mem, if◌then◌else◌, Bool-cases,
}
use mathlib.Core.Bool.{true≢false}
use mathlib.Core.List.{mem-cons_self, mem-cons_of_mem}
use aurora_api_gateway.Prelude.Json.{Json, JsonText, truthy}
use aurora_api_gateway.Prelude.Text.{is_empty, trim}
use aurora_api_gateway.Http.{ApiError, ResponseData}
use aurora_api_gateway.Login.{
  Storage, set_auth_token, set_auth_user, LoginRequest, credentials, second_factor, LoginForm,
  init_login_form, field_of, store_user, carried, take_token, handle_submit, login_answer,
  handle_verify_2fa, verify_answer, handle_back_to_credentials,
}

abbrev pub with_token : Option String → List String → List String
with_token none ts = ts
with_token (some t) ts = t ∷ ts

module _ (show : Json → String) (json : JsonText) where
  -- The token that an answer to a name and a password grants: none where it asks for a second factor.
  abbrev pub granted : ApiError ⊎ ResponseData → Option String
  granted (inl e) = none
  granted (inr d) = if truthy (field_of "requires_2fa" d) then none else carried show json d

  abbrev pub verified : ApiError ⊎ ResponseData → Option String
  verified (inl e) = none
  verified (inr d) = carried show json d

  -- `Reached ts s`: from a form without a stored token, typing, presses and answers lead to `s`, and the
  -- answers granted the tokens `ts`. An answer takes its request out of those that wait.
  pub data Reached : List String → LoginForm → Type 0 where
    start : (st : Storage) → st.token ≡ none → Reached [] (init_login_form st)
    entered :
        {ts : List String} {s : LoginForm} (name word code : String)
        → Reached ts s
        → Reached ts (record s { username = name; password = word; two_factor_code = code })
    submit_pressed :
        {ts : List String} {s : LoginForm} → Reached ts s → Reached ts (handle_submit show json s)
    verify_pressed :
        {ts : List String} {s : LoginForm}
        → Reached ts s
        → Reached ts (handle_verify_2fa show json s)
    back_pressed :
        {ts : List String} {s : LoginForm}
        → Reached ts s
        → Reached ts (handle_back_to_credentials s)
    login_answered :
        {ts : List String} {s : LoginForm} (name word : String) (rest : List LoginRequest)
        (out : ApiError ⊎ ResponseData)
        → s.requests ≡ credentials name word ∷ rest
        → Reached ts s
        → Reached
            (with_token (granted out) ts)
            (login_answer show json out (record s { requests = rest }))
    verify_answered :
        {ts : List String} {s : LoginForm} (token : Option Json) (code : String)
        (rest : List LoginRequest) (out : ApiError ⊎ ResponseData)
        → s.requests ≡ second_factor token code ∷ rest
        → Reached ts s
        → Reached
            (with_token (verified out) ts)
            (verify_answer show json out (record s { requests = rest }))

-- A request waits exactly while the form is loading, and then one alone.
abbrev pub IsAlone : Bool → List LoginRequest → Type 0
IsAlone true (r ∷ []) = Unit
IsAlone false [] = Unit
IsAlone true [] = ⊥
IsAlone true (r ∷ q ∷ rs) = ⊥
IsAlone false (r ∷ rs) = ⊥

abbrev pub IsGranted : List String → Option String → Type 0
IsGranted ts none = Unit
IsGranted ts (some t) = Mem t ts

-- Success has a granted token behind it.
abbrev pub IsEarned : List String → Bool → Type 0
IsEarned ts false = Unit
IsEarned [] true = ⊥
IsEarned (t ∷ ts) true = Unit

pub record IsSafe (ts : List String) (s : LoginForm) : Type 0 where
  pub alone : IsAlone s.is_loading s.requests
  pub granted_token : IsGranted ts s.storage.token
  pub earned : IsEarned ts s.is_success

pushed-IsAlone :
    (b : Bool) (rs : List LoginRequest) (r : LoginRequest)
    → IsAlone b rs
    → b ≡ false
    → IsAlone true (r ∷ rs)
pushed-IsAlone true rs r h e = absurd (true≢false e)
pushed-IsAlone false [] r h e = tt
pushed-IsAlone false (q ∷ rs) r h e = elim h [ ]

popped-IsAlone :
    (b : Bool) (r : LoginRequest) (rs : List LoginRequest) → IsAlone b (r ∷ rs) → IsAlone false rs
popped-IsAlone true r [] h = tt
popped-IsAlone true r (q ∷ rs) h = elim h [ ]
popped-IsAlone false r rs h = elim h [ ]

weakened-IsGranted :
    (t : String) (ts : List String) (o : Option String) → IsGranted ts o → IsGranted (t ∷ ts) o
weakened-IsGranted t ts none h = tt
weakened-IsGranted t ts (some u) h = mem-cons_of_mem t h

success-IsEarned : (t : String) (ts : List String) (b : Bool) → IsEarned (t ∷ ts) b
success-IsEarned t ts true = tt
success-IsEarned t ts false = tt

module _ (show : Json → String) (json : JsonText) where
  token-store_user :
      (user : Option Json) (st : Storage) → (store_user show json user st).token ≡ st.token
  unfolding set_auth_user
  token-store_user none st = refl
  token-store_user (some u) st = elim (Bool-cases (truthy (some u))) [
    | inr absent ↦ rw absent refl
    | inl given ↦ elim (Bool-cases (st.can_store)) [
      | inl open_storage ↦ rw (given, open_storage) refl
      | inr closed ↦ rw (given, closed) refl
    ]
  ]

  set_auth_token-IsGranted :
      (t : String) (ts : List String) (st : Storage)
      → IsGranted ts st.token
      → IsGranted (t ∷ ts) (set_auth_token t st).token
  unfolding set_auth_token
  set_auth_token-IsGranted t ts st h = elim (Bool-cases (st.can_store)) [
    | inl open_storage ↦ rw open_storage mem-cons_self
    | inr closed ↦ rw closed (weakened-IsGranted t ts st.token h)
  ]

  take_token-IsSafe :
      (ts : List String) (s : LoginForm) (d : ResponseData) (o : Option String)
      → IsAlone false s.requests
      → IsGranted ts s.storage.token
      → IsEarned ts s.is_success
      → IsSafe (with_token o ts) (take_token show json d o s)
  unfolding take_token
  take_token-IsSafe ts s d none alone stored earned = record {
    alone = alone;
    granted_token = stored;
    earned = earned;
  }
  take_token-IsSafe ts s d (some t) alone stored earned = record {
    alone = alone;
    granted_token =
        subst (IsGranted (t ∷ ts))
          (sym (token-store_user (field_of "user" d) (set_auth_token t s.storage)))
          (set_auth_token-IsGranted t ts s.storage stored);
    earned = success-IsEarned t ts true;
  }

  handle_submit-IsSafe :
      (ts : List String) (s : LoginForm) → IsSafe ts s → IsSafe ts (handle_submit show json s)
  unfolding handle_submit
  handle_submit-IsSafe ts s v = elim (Bool-cases (s.is_loading)) [
    | inl busy ↦ simp (busy) v
    | inr idle ↦ simp (idle) (record {
      alone =
          pushed-IsAlone s.is_loading s.requests (credentials (trim s.username) s.password) v.alone
            idle;
      granted_token = v.granted_token;
      earned = v.earned;
    })
  ]

  handle_verify_2fa-IsSafe :
      (ts : List String) (s : LoginForm) → IsSafe ts s → IsSafe ts (handle_verify_2fa show json s)
  unfolding handle_verify_2fa
  handle_verify_2fa-IsSafe ts s v = elim (Bool-cases (s.is_loading)) [
    | inl busy ↦ simp (busy) v
    | inr idle ↦ elim (Bool-cases (is_empty (trim s.two_factor_code))) [
      | inl blank ↦
          simp (idle, blank)
            (record {
              alone = subst (λ b. IsAlone b s.requests) idle v.alone;
              granted_token = v.granted_token;
              earned = v.earned;
            })
      | inr given ↦
          simp (idle, given)
            (record {
              alone =
                  pushed-IsAlone s.is_loading s.requests
                    (second_factor s.two_factor_token (trim s.two_factor_code)) v.alone idle;
              granted_token = v.granted_token;
              earned = v.earned;
            })
    ]
  ]

  -- The form is left by its request.
  answered-IsAlone :
      (ts : List String) (s : LoginForm) (r : LoginRequest) (rest : List LoginRequest)
      → s.requests ≡ r ∷ rest
      → IsSafe ts s
      → IsAlone false rest
  answered-IsAlone ts s r rest e v =
      popped-IsAlone s.is_loading r rest (subst (IsAlone s.is_loading) e v.alone)

  login_answer-IsSafe :
      (ts : List String) (s : LoginForm) (out : ApiError ⊎ ResponseData)
      → IsAlone false s.requests
      → IsGranted ts s.storage.token
      → IsEarned ts s.is_success
      → IsSafe (with_token (granted show json out) ts) (login_answer show json out s)
  unfolding login_answer
  login_answer-IsSafe ts s (inl e) alone stored earned = record {
    alone = alone;
    granted_token = stored;
    earned = earned;
  }
  login_answer-IsSafe ts s (inr d) alone stored earned =
      elim (Bool-cases (truthy (field_of "requires_2fa" d))) [
        | inl asked ↦ rw asked (record { alone = alone; granted_token = stored; earned = earned })
        | inr plain ↦ rw plain (take_token-IsSafe ts s d (carried show json d) alone stored earned)
      ]

  verify_answer-IsSafe :
      (ts : List String) (s : LoginForm) (out : ApiError ⊎ ResponseData)
      → IsAlone false s.requests
      → IsGranted ts s.storage.token
      → IsEarned ts s.is_success
      → IsSafe (with_token (verified show json out) ts) (verify_answer show json out s)
  unfolding verify_answer
  verify_answer-IsSafe ts s (inl e) alone stored earned = record {
    alone = alone;
    granted_token = stored;
    earned = earned;
  }
  verify_answer-IsSafe ts s (inr d) alone stored earned =
      take_token-IsSafe ts s d (carried show json d) alone stored earned

handle_back_to_credentials-IsSafe :
    (ts : List String) (s : LoginForm) → IsSafe ts s → IsSafe ts (handle_back_to_credentials s)
unfolding handle_back_to_credentials
handle_back_to_credentials-IsSafe ts s v = record {
  alone = v.alone;
  granted_token = v.granted_token;
  earned = v.earned;
}

-- Whatever is typed, pressed and answered, from a form without a stored token: a request waits exactly
-- while the form is loading, and then one alone; a stored token is one that an answer granted, to a
-- second factor or to a name and a password where the answer asked for no second factor; and the form
-- reports success only after a token was granted.
pub Reached-IsSafe :
    (show : Json → String) (json : JsonText) (ts : List String) (s : LoginForm)
    → Reached show json ts s
    → IsSafe ts s
Reached-IsSafe show json ts s (start st empty) = record {
  alone = tt;
  granted_token = subst (IsGranted []) (sym empty) tt;
  earned = tt;
}
Reached-IsSafe show json ts s (entered name word code r) =
    let v = Reached-IsSafe show json _ _ r in
    record { alone = v.alone; granted_token = v.granted_token; earned = v.earned }
Reached-IsSafe show json ts s (submit_pressed r) =
    handle_submit-IsSafe show json _ _ (Reached-IsSafe show json _ _ r)
Reached-IsSafe show json ts s (verify_pressed r) =
    handle_verify_2fa-IsSafe show json _ _ (Reached-IsSafe show json _ _ r)
Reached-IsSafe show json ts s (back_pressed r) =
    handle_back_to_credentials-IsSafe _ _ (Reached-IsSafe show json _ _ r)
Reached-IsSafe show json ts s (login_answered name word rest out e r) =
    let v = Reached-IsSafe show json _ _ r in
    login_answer-IsSafe show json _ _ out (answered-IsAlone show json _ _ _ rest e v)
      v.granted_token v.earned
Reached-IsSafe show json ts s (verify_answered token code rest out e r) =
    let v = Reached-IsSafe show json _ _ r in
    verify_answer-IsSafe show json _ _ out (answered-IsAlone show json _ _ _ rest e v)
      v.granted_token v.earned
