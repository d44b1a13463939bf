-- ===== src/Routes/Form/Sent.antt =====
-- What the pages of a route send, and a route that is opened in the editor and saved again.
use aurora_api_gateway.Prelude.{
  zero, suc, ◌≡◌, refl, subst, ap, ◌∙◌, inl, inr, String, true, false, Option, none, some,
  Bool-cases, arith,
}
use aurora_api_gateway.Prelude.Int.{ℤ, pos, negsuc}
use aurora_api_gateway.Prelude.Json.{JsonText}
use aurora_api_gateway.Prelude.Text.{is_empty, trim, or_text, to_lower_case, starts_with_slash}
use aurora_api_gateway.Prelude.Text.Laws.{
  trim_idem, is_empty-or_text, trim-or_text, or_text_of_full, trim-to_lower_case,
  to_lower_case-IsLower, to_lower_case_of_IsLower,
}
use aurora_api_gateway.Routes.Form.{
  RouteFormState, RouteItem, RoutePayload, sent, check_route, route_payload, plugins_broken,
  is_none, item_form, priority_or_ten,
}

-- `JSON.parse` reads `{}`, and reads a text without the spaces round it where it reads the text.
pub record ReadsTrimmed (json : JsonText) : Type 0 where
  pub braces : is_none (json.parse "{}") ≡ false
  pub trimmed :
      (s : String) → is_none (json.parse s) ≡ false → is_none (json.parse (trim s)) ≡ false

-- A payload that the controller can route by.
pub record IsRoutePayload (json : JsonText) (p : RoutePayload) : Type 0 where
  pub named : is_empty p.name ≡ false
  pub hosted : is_empty p.host ≡ false
  pub lower : to_lower_case p.host ≡ p.host
  pub clean : trim p.host ≡ p.host
  pub rooted : starts_with_slash p.path ≡ true
  pub targeted : is_empty p.upstream_name ≡ false
  pub parses : is_none (json.parse p.plugins_json) ≡ false

-- A form that passes every check.
record IsChecked (json : JsonText) (f : RouteFormState) : Type 0 where
  named : is_empty (trim f.name) ≡ false
  hosted : is_empty (to_lower_case (trim f.host)) ≡ false
  rooted : starts_with_slash (trim f.path) ≡ true
  targeted : is_empty (trim f.upstream_name) ≡ false
  plugins : plugins_broken json f.plugins_json ≡ false

check_route-IsChecked :
    (json : JsonText) (f : RouteFormState) (p : RoutePayload)
    → check_route json f ≡ sent p
    → IsChecked json f × (route_payload f ≡ p)
unfolding check_route
check_route-IsChecked json f p h = (
  record {
    named = ground arith;
    hosted = ground arith;
    rooted = ground arith;
    targeted = ground arith;
    plugins = ground arith;
  },
  ground arith,
)

check_route_of_IsChecked :
    (json : JsonText) (f : RouteFormState)
    → IsChecked json f
    → check_route json f ≡ sent (route_payload f)
unfolding check_route
check_route_of_IsChecked json f v = rw (v.named, v.hosted, v.rooted, v.targeted, v.plugins) refl

lower_again : (s : String) → to_lower_case (to_lower_case s) ≡ to_lower_case s
lower_again s = to_lower_case_of_IsLower (to_lower_case s) (to_lower_case-IsLower s)

host_clean : (s : String) → trim (to_lower_case (trim s)) ≡ to_lower_case (trim s)
host_clean s = trim-to_lower_case (trim s) ∙ ap to_lower_case (trim_idem s)

host_again : (s : String) → to_lower_case (trim (to_lower_case (trim s))) ≡ to_lower_case (trim s)
host_again s = ap to_lower_case (host_clean s) ∙ lower_again (trim s)

-- The text for the extensions in the payload.
sent_text : String → String
sent_text s = or_text (trim s) "{}"

sent_text_full : (s : String) → is_empty (sent_text s) ≡ false
unfolding sent_text
sent_text_full s = is_empty-or_text (trim s) "{}" refl

sent_text_clean : (s : String) → trim (sent_text s) ≡ sent_text s
unfolding sent_text
sent_text_clean s = trim-or_text (trim s) "{}" (trim_idem s) (unfold trim in refl)

sent_text_again : (s : String) → sent_text (or_text (sent_text s) "{}") ≡ sent_text s
sent_text_again s =
    ap sent_text (or_text_of_full (sent_text s) "{}" (sent_text_full s))
    ∙ (unfold sent_text in
        ap (λ t. or_text t "{}") (sent_text_clean s)
        ∙ or_text_of_full (sent_text s) "{}" (sent_text_full s))

sent_text_parses :
    (json : JsonText) (s : String)
    → ReadsTrimmed json
    → plugins_broken json s ≡ false
    → is_none (json.parse (sent_text s)) ≡ false
unfolding plugins_broken sent_text
sent_text_parses json s r h = elim (Bool-cases (is_empty (trim s))) [
  | inl blank ↦ rw blank (r.braces)
  | inr given ↦
      let read : is_none (json.parse s) ≡ false = ground arith in rw given (r.trimmed s read)
]

route_payload-IsRoutePayload :
    (json : JsonText) (f : RouteFormState)
    → ReadsTrimmed json
    → IsChecked json f
    → IsRoutePayload json (route_payload f)
unfolding route_payload sent_text
route_payload-IsRoutePayload json f r v = record {
  named = v.named;
  hosted = v.hosted;
  lower = lower_again (trim f.host);
  clean = host_clean f.host;
  rooted = v.rooted;
  targeted = v.targeted;
  parses = sent_text_parses json f.plugins_json r v.plugins;
}

-- A payload that is sent has a name, a host in lower case with no spaces round it, a path that starts
-- with a slash, an upstream, and extensions that are JSON, where `JSON.parse` reads `{}` and does not
-- need the spaces round a text.
pub check_route-IsRoutePayload :
    (json : JsonText) (f : RouteFormState) (p : RoutePayload)
    → ReadsTrimmed json
    → check_route json f ≡ sent p
    → IsRoutePayload json p
check_route-IsRoutePayload json f p r h =
    let (v, same) = check_route-IsChecked json f p h in
    subst (IsRoutePayload json) same (route_payload-IsRoutePayload json f r v)

-- A route that was stored as it was sent.
abbrev pub stored_route : String → RoutePayload → RouteItem
stored_route id p = record {
  id = id;
  name = p.name;
  host = p.host;
  path = p.path;
  upstream_name = p.upstream_name;
  enabled = p.enabled;
  strip_path = p.strip_path;
  websocket = p.websocket;
  priority = p.priority;
  plugins_json = p.plugins_json;
  description = p.description;
  created_at = "";
  updated_at = "";
}

abbrev reopened_route : String → RouteFormState → RouteFormState
reopened_route id f = item_form (stored_route id (route_payload f))

priority_again : (n : Option ℤ) → priority_or_ten (some (priority_or_ten n)) ≡ priority_or_ten n
priority_again none = refl
priority_again (some (pos zero)) = refl
priority_again (some (pos (suc n))) = refl
priority_again (some (negsuc n)) = refl

payload_again :
    (id : String) (f : RouteFormState) → route_payload (reopened_route id f) ≡ route_payload f
unfolding route_payload sent_text
payload_again id f i = record {
  name = trim_idem f.name i;
  host = host_again f.host i;
  path = trim_idem f.path i;
  upstream_name = trim_idem f.upstream_name i;
  enabled = f.enabled;
  strip_path = f.strip_path;
  websocket = f.websocket;
  priority = priority_again f.priority i;
  plugins_json = sent_text_again f.plugins_json i;
  description = trim_idem f.description i;
}

unbroken :
    (json : JsonText) (s : String) → is_none (json.parse s) ≡ false → plugins_broken json s ≡ false
unfolding plugins_broken
unbroken json s h = ground arith

reopened-IsChecked :
    (json : JsonText) (id : String) (f : RouteFormState)
    → ReadsTrimmed json
    → IsChecked json f
    → IsChecked json (reopened_route id f)
unfolding route_payload sent_text
reopened-IsChecked json id f r v = record {
  named = ap is_empty (trim_idem f.name) ∙ v.named;
  hosted = ap is_empty (host_again f.host) ∙ v.hosted;
  rooted = ap starts_with_slash (trim_idem f.path) ∙ v.rooted;
  targeted = ap is_empty (trim_idem f.upstream_name) ∙ v.targeted;
  plugins =
      ap (plugins_broken json)
        (or_text_of_full (sent_text f.plugins_json) "{}" (sent_text_full f.plugins_json))
      ∙ unbroken json (sent_text f.plugins_json) (sent_text_parses json f.plugins_json r v.plugins);
}

-- A route that was sent, stored as it was sent and opened in the editor is sent again unchanged, where
-- `JSON.parse` reads `{}` and does not need the spaces round a text.
pub check_route-item_form :
    (json : JsonText) (id : String) (f : RouteFormState) (p : RoutePayload)
    → ReadsTrimmed json
    → check_route json f ≡ sent p
    → check_route json (item_form (stored_route id p)) ≡ sent p
check_route-item_form json id f p r h =
    let (v, same) = check_route-IsChecked json f p h in
    subst (λ q. check_route json (item_form (stored_route id q)) ≡ sent q) same
      (check_route_of_IsChecked json (reopened_route id f) (reopened-IsChecked json id f r v)
        ∙ ap sent (payload_again id f))
