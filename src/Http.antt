-- ===== src/Http.antt =====
-- The HTTP client of the console: `buildUrl`, `fetcher`, `ApiError` and the verbs of
-- ui/src/lib/fetcher.ts. The browser's `fetch`, its encoding of a query and its printing of a value are
-- arguments; what `fetch` comes to is a `Network`.
pub mod Outcome
mod Tests
use text.Mathlib.Text.{◌==◌ as str_eq}
use Prim.Native.String.{◌++◌}
use aurora_api_gateway.Prelude.{
  ℕ, String, Bool, true, false, ◌&&◌, ◌||◌, not, Option, none, some, ◌⊎◌, inl, inr, List, [], ◌∷◌,
  ltb, leb, ◌==◌, if◌then◌else◌,
}
use aurora_api_gateway.Prelude.Json.{Json, null, str, obj, JsonText, get, truthy}
use aurora_api_gateway.Prelude.Text.{
  is_empty, or_text, decimal, includes, starts_with_slash, concat,
}

-- A value of `params`.
pub data ParamValue : Type 0 where
  undefined null_param : ParamValue
  text_param : String → ParamValue
  number_param : ℕ → ParamValue
  bool_param : Bool → ParamValue

-- The text of a value that is sent.
param_text : ParamValue → Option String
unfolding decimal
param_text undefined = none
param_text null_param = none
param_text (text_param s) = if is_empty s then none else some s
param_text (number_param n) = some (decimal n)
param_text (bool_param true) = some "true"
param_text (bool_param false) = some "false"

appended : String → Option String → List (String × String) → List (String × String)
appended key none rest = rest
appended key (some value) rest = (key, value) ∷ rest

-- The pairs that `searchParams` holds.
unfoldable pub search_params : List (String × ParamValue) → List (String × String)
unfolding param_text appended
search_params [] = []
search_params ((key, value) ∷ rest) = appended key (param_text value) (search_params rest)

abbrev with_query : String → String → String
with_query url query =
    if is_empty query
    then url
    else concat (url ∷ (if includes url "?" then "&" else "?") ∷ query ∷ [])

-- `encode` is `URLSearchParams.toString`, `base` is `API_BASE_URL`.
unfoldable pub build_url :
    (List (String × String) → String)
    → String
    → String
    → Option (List (String × ParamValue))
    → String
unfolding starts_with_slash search_params includes
build_url encode base endpoint none =
    base ++ (if starts_with_slash endpoint then endpoint else "/" ++ endpoint)
build_url encode base endpoint (some params) =
    with_query (base ++ (if starts_with_slash endpoint then endpoint else "/" ++ endpoint))
      (encode (search_params params))

-- A text, a form, a file or a query is sent as it is; any other value as JSON.
pub data Body (Raw : Type 0) : Type 0 where
  raw : Raw → Body Raw
  json_body : Json → Body Raw

pub record FetchOptions (Raw : Type 0) : Type 0 where
  pub method : String
  pub params : Option (List (String × ParamValue))
  pub body : Option (Body Raw)
  pub token : Option String
  pub idempotency_key : String
  pub timeout_ms : ℕ
  pub headers : List (String × String)

-- What `fetch` is called with. The body is as it was given, or the text of the JSON.
pub record Request (Raw : Type 0) : Type 0 where
  pub url : String
  pub method : String
  pub headers : List (String × String)
  pub body : Option (Raw ⊎ String)

-- `headers[name] = value`
unfoldable pub set_header : String → String → List (String × String) → List (String × String)
set_header name value [] = (name, value) ∷ []
set_header name value ((n, v) ∷ rest) =
    let others = set_header name value rest in
    if str_eq n name then (n, value) ∷ rest else (n, v) ∷ others

-- `{ ...a, ...b }`
unfoldable pub spread_headers :
    List (String × String) → List (String × String) → List (String × String)
unfolding set_header
spread_headers a [] = a
spread_headers a ((n, v) ∷ b) = spread_headers (set_header n v a) b

abbrev set_unless_empty : String → String → String → List (String × String) → List (String × String)
set_unless_empty name value shown headers =
    if is_empty value then headers else set_header name shown headers

abbrev typed : {Raw : Type 0} → Option (Body Raw) → List (String × String) → List (String × String)
typed none headers = headers
typed (some (raw r)) headers = headers
typed (some (json_body v)) headers = set_header "Content-Type" "application/json" headers

abbrev body_text : {Raw : Type 0} → JsonText → Option (Body Raw) → Option (Raw ⊎ String)
body_text json none = none
body_text json (some (raw r)) = some (inl r)
body_text json (some (json_body v)) = some (inr (json.stringify v))

-- The token of the options, or else the stored one; `""` is none.
abbrev auth_token : Option String → Option String → String
auth_token (some token) stored = token
auth_token none (some stored) = stored
auth_token none none = ""

-- `fetcher` up to its call of `fetch`.
unfoldable pub request_of :
    {Raw : Type 0}
    → (List (String × String) → String)
    → JsonText
    → String
    → Option String
    → String
    → FetchOptions Raw
    → Request Raw
unfolding build_url set_header spread_headers
request_of encode json base stored endpoint o =
    let token = auth_token o.token stored in
    record {
      url = build_url encode base endpoint o.params;
      method = o.method;
      headers = typed o.body (
          set_unless_empty "Idempotency-Key" o.idempotency_key o.idempotency_key (
            set_unless_empty "Authorization" token ("Bearer " ++ token)
              (spread_headers (("Accept", "application/json") ∷ []) o.headers)));
      body = body_text json o.body;
    }

-- An answer: `json` is `none` where its body is no JSON, `text` where it cannot be read.
pub record Response : Type 0 where
  pub status : ℕ
  pub status_text : String
  pub content_type : Option String
  pub json : Option Json
  pub text : Option String

-- What a call of `fetch` comes to; `broken` has the message of the error.
pub data Network : Type 0 where
  answered : Response → Network
  aborted : Network
  broken : String → Network

pub data ResponseData : Type 0 where
  json_data : Json → ResponseData
  text_data : String → ResponseData

pub record ApiError : Type 0 where
  pub status : ℕ
  pub status_text : String
  pub data_of : ResponseData
  pub message : String

abbrev json_or_null : Option Json → Json
json_or_null none = null
json_or_null (some v) = v

abbrev text_or_empty : Option String → String
text_or_empty none = ""
text_or_empty (some s) = s

-- `data?.message`
abbrev message_field : Json → Option Json
message_field (obj o) = get "message" o
message_field other = none

-- `String(v)`, where what it makes of a value that is no text is an argument.
abbrev pub text_of : (Json → String) → Json → String
text_of show (str s) = s
text_of show other = show other

abbrev http_message : ℕ → String → String
http_message status status_text = concat ("HTTP " ∷ decimal status ∷ ": " ∷ status_text ∷ [])

-- The first value that is not falsy, as a text.
abbrev first_of : (Json → String) → Option Json → String → String
first_of show none fallback = fallback
first_of show (some v) fallback = if truthy (some v) then text_of show v else fallback

-- The message of the error of an answer: `message || (typeof data === 'string' ? ... : ...)`.
unfoldable pub answer_message : (Json → String) → ℕ → String → ResponseData → String
unfolding get decimal
answer_message show status status_text (text_data s) = s
answer_message show status status_text (json_data (str s)) = s
answer_message show status status_text (json_data v) =
    first_of show (message_field v) (http_message status status_text)

-- The body, by its content type.
unfoldable pub response_data : Response → ResponseData
unfolding includes
response_data r =
    if includes (text_or_empty r.content_type) "application/json"
    then json_data (json_or_null r.json)
    else text_data (text_or_empty r.text)

-- `response.ok`
abbrev pub is_ok : Response → Bool
is_ok r = leb 200 r.status && leb r.status 299

-- `fetcher` from the outcome of `fetch` on: the error that it throws, or its value.
unfoldable pub settle_fetch : (Json → String) → ℕ → Network → ApiError ⊎ ResponseData
unfolding response_data answer_message decimal
settle_fetch show timeout_ms (answered r) =
    if r.status == 204
    then inr (json_data null)
    else if not (is_ok r)
    then inl (record {
      status = r.status;
      status_text = r.status_text;
      data_of = response_data r;
      message = answer_message show r.status r.status_text (response_data r);
    })
    else inr (response_data r)
settle_fetch show timeout_ms aborted = inl (record {
  status = 408;
  status_text = "Request Timeout";
  data_of = json_data null;
  message = concat ("Request timed out after " ∷ decimal timeout_ms ∷ "ms" ∷ []);
})
settle_fetch show timeout_ms (broken message) = inl (record {
  status = 0;
  status_text = "Network Error";
  data_of = json_data null;
  message = or_text message "Failed to fetch";
})
