-- ===== src/L4/Service/Resubmit.antt =====
-- Creating a service, opening it in the editor and submitting it again unchanged.
use text.Mathlib.Text.{◌==◌ as str_eq}
use aurora_api_gateway.Prelude.{
  ℕ, ◌≡◌, inl, inr, refl, sym, ap, subst, ◌∙◌, String, true, false, some, List, arith,
  if◌then◌else◌,
}
use aurora_api_gateway.Prelude.Text.{is_empty, trim, or_text, to_lower_case}
use aurora_api_gateway.Prelude.Text.Laws.{
  is_empty-or_text, trim_idem, or_text_of_full, trim-or_text,
}
use aurora_api_gateway.L4.Acl.{AclRule, sort_rules, set_rules}
use aurora_api_gateway.L4.Acl.Sort.{sort_rules_of_IsWeaklyDesc, sort_rules-IsWeaklyDesc}
use aurora_api_gateway.L4.Service.{
  L4Form, L4Payload, L4ServiceItem, Protocol, tcp, udp, AclText, sent, TargetType, upstream,
  endpoint, checked_port, l4_payload, check_target, check_form, parsed_acl, targets_endpoint,
  load_service,
}
use aurora_api_gateway.L4.Service.Submit.{
  IsPayloadOf, check_form-IsPayloadOf, checked_port_of_range,
}

abbrev pub protocol_text : Protocol → String
protocol_text tcp = "tcp"
protocol_text udp = "udp"

abbrev pub target_text : TargetType → String
target_text upstream = "upstream"
target_text endpoint = "endpoint"

-- What the controller returns for a payload: the text of the rules is its own, since it rewrites
-- them, and the rest is as it was sent.
abbrev pub stored : String → L4Payload → L4ServiceItem
stored text p = record {
  id = "";
  name = p.name;
  protocol = protocol_text p.protocol;
  listen_port = p.listen_port;
  forward_target_type = target_text p.forward_target_type;
  upstream_name = p.upstream_name;
  direct_endpoint = p.direct_endpoint;
  acl_rules_json = text;
  proxy_timeout = p.proxy_timeout;
  proxy_connect_timeout = p.proxy_connect_timeout;
  enabled = p.enabled;
  description = p.description;
  created_at = "";
  updated_at = "";
}

protocol_of_text :
    (t : Protocol) → (if str_eq (to_lower_case (protocol_text t)) "udp" then udp else tcp) ≡ t
unfolding to_lower_case
protocol_of_text tcp = refl
protocol_of_text udp = refl

trim_of_trimmed : (s t : String) → s ≡ trim t → trim s ≡ s
trim_of_trimmed s t e = ap trim e ∙ trim_idem t ∙ sym e

-- A timeout of a payload passes the form unchanged.
timeout_again :
    (t s d : String)
    → t ≡ or_text (trim s) d
    → is_empty d ≡ false
    → trim d ≡ d
    → or_text (trim (or_text t d)) d ≡ t
timeout_again t s d e full clean =
    let kept : or_text t d ≡ t =
      or_text_of_full t d
        (subst (λ x. is_empty x ≡ false) (sym e) (is_empty-or_text (trim s) d full)) in
    let trimmed : trim t ≡ t = ap trim e ∙ trim-or_text (trim s) d (trim_idem s) clean ∙ sym e in
    rw (kept, trimmed) kept

parsed_acl_again :
    (json : AclText) (text : String) (rules : List AclRule)
    → is_empty text ≡ false
    → json.parse text ≡ some rules
    → sort_rules (parsed_acl (json.parse (or_text text "[]"))) ≡ sort_rules rules
unfolding parsed_acl
parsed_acl_again json text rules full back =
    let sorted : sort_rules (sort_rules rules) ≡ sort_rules rules =
      sort_rules_of_IsWeaklyDesc (sort_rules rules) (sort_rules-IsWeaklyDesc rules) in
    rw (or_text_of_full text "[]" full) (rw back sorted)

trim_hour : trim "1h" ≡ "1h"
unfolding trim
trim_hour = refl

trim_seconds : trim "5s" ≡ "5s"
unfolding trim
trim_seconds = refl

check_target_upstream :
    (json : AclText) (f : L4Form) (n : ℕ) (u : String)
    → trim f.upstream_name ≡ u
    → is_empty u ≡ false
    → check_target json f n upstream ≡ sent (l4_payload json f n u "")
unfolding check_target
check_target_upstream json f n u e given = rw (e, given)

check_target_endpoint :
    (json : AclText) (f : L4Form) (n : ℕ) (d : String)
    → trim f.endpoint_address ≡ d
    → is_empty d ≡ false
    → check_target json f n endpoint ≡ sent (l4_payload json f n "" d)
unfolding check_target
check_target_endpoint json f n d e given = rw (e, given)

module _ (json : AclText) (f g : L4Form) (p : L4Payload) (v : IsPayloadOf json f p) (text : String)
    (rules : List AclRule) (full : is_empty text ≡ false)
    (back : json.parse text ≡ some rules) where
  abbrev resent : L4Payload
  resent = record p { acl_rules_json = json.stringify (sort_rules rules) }

  payload_again :
      (u e : String)
      → (if targets_endpoint (stored text p) then endpoint else upstream) ≡ p.forward_target_type
      → u ≡ p.upstream_name
      → e ≡ p.direct_endpoint
      → l4_payload json (load_service json g (stored text p)) p.listen_port u e ≡ resent
  unfolding l4_payload load_service set_rules
  payload_again u e t hu he = λ i. record {
    name = trim_of_trimmed p.name f.name v.name.0 i;
    protocol = protocol_of_text p.protocol i;
    listen_port = p.listen_port;
    forward_target_type = t i;
    upstream_name = hu i;
    direct_endpoint = he i;
    acl_rules_json = ap json.stringify (parsed_acl_again json text rules full back) i;
    proxy_timeout =
        timeout_again p.proxy_timeout f.proxy_timeout "1h" v.timeouts.0 refl trim_hour i;
    proxy_connect_timeout =
        timeout_again p.proxy_connect_timeout f.connect_timeout "5s" v.timeouts.1 refl trim_seconds
          i;
    enabled = p.enabled;
    description = trim_of_trimmed p.description f.description v.others.2 i;
  }

  loaded_name : is_empty (trim (load_service json g (stored text p)).name) ≡ false
  unfolding load_service
  loaded_name = rw (trim_of_trimmed p.name f.name v.name.0) (v.name.1)

  targets_upstream :
      p.forward_target_type ≡ upstream
      → is_empty p.upstream_name ≡ false
      → targets_endpoint (stored text p) ≡ false
  unfolding targets_endpoint
  targets_upstream kind given = rw (kind, given)

  targets_direct : p.forward_target_type ≡ endpoint → targets_endpoint (stored text p) ≡ true
  unfolding targets_endpoint
  targets_direct kind = rw kind

  loaded : L4Form
  loaded = load_service json g (stored text p)

  upstream_again :
      f.target_type ≡ upstream
      → p.upstream_name ≡ trim f.upstream_name
      → p.direct_endpoint ≡ ""
      → is_empty p.upstream_name ≡ false
      → check_target json loaded p.listen_port loaded.target_type ≡ sent resent
  unfolding loaded
  upstream_again kind named other given =
      let same : p.forward_target_type ≡ upstream = v.target.kind ∙ kind in
      let target : targets_endpoint (stored text p) ≡ false = targets_upstream same given in
      let trimmed : trim (load_service json g (stored text p)).upstream_name ≡ p.upstream_name =
        unfold load_service in rw target (trim_of_trimmed p.upstream_name f.upstream_name named) in
      let chosen : (load_service json g (stored text p)).target_type ≡ upstream =
        unfold load_service in rw target refl in
      ap (check_target json (load_service json g (stored text p)) p.listen_port) chosen
      ∙ (check_target_upstream json (load_service json g (stored text p)) p.listen_port
            p.upstream_name trimmed given
          ∙ ap sent (payload_again p.upstream_name "" (rw (target, same)) refl (sym other)))

  endpoint_again :
      f.target_type ≡ endpoint
      → p.direct_endpoint ≡ trim f.endpoint_address
      → p.upstream_name ≡ ""
      → is_empty p.direct_endpoint ≡ false
      → check_target json loaded p.listen_port loaded.target_type ≡ sent resent
  unfolding loaded
  endpoint_again kind named other given =
      let same : p.forward_target_type ≡ endpoint = v.target.kind ∙ kind in
      let target : targets_endpoint (stored text p) ≡ true = targets_direct same in
      let trimmed : trim (load_service json g (stored text p)).endpoint_address
          ≡ p.direct_endpoint =
        unfold load_service in
        rw target (trim_of_trimmed p.direct_endpoint f.endpoint_address named) in
      let chosen : (load_service json g (stored text p)).target_type ≡ endpoint =
        unfold load_service in rw target refl in
      ap (check_target json (load_service json g (stored text p)) p.listen_port) chosen
      ∙ (check_target_endpoint json (load_service json g (stored text p)) p.listen_port
            p.direct_endpoint trimmed given
          ∙ ap sent (payload_again "" p.direct_endpoint (rw (target, same)) (sym other) refl))

  check_again : check_form json loaded ≡ sent resent
  unfolding check_form loaded
  check_again =
      let named : is_empty (trim (load_service json g (stored text p)).name) ≡ false =
        loaded_name in
      let port : checked_port (load_service json g (stored text p)).port ≡ some p.listen_port =
        unfold load_service in checked_port_of_range p.listen_port v.port.1 v.port.2 in
      let target : check_target json loaded p.listen_port loaded.target_type ≡ sent resent =
        elim v.target.one [
          | inl (kind, name, other, given) ↦ upstream_again kind name other given
          | inr (kind, name, other, given) ↦ endpoint_again kind name other given
        ] in
      ground arith

-- A service that was created from a form and opened in any editor is sent again as it was, with the
-- rules that the controller returned, sorted: where the controller kept all but the rules as they were
-- sent, the text of its rules is not empty, and `JSON.parse` reads rules in it. The controller may have
-- rewritten the rules.
pub check_form-load_service :
    (json : AclText) (f g : L4Form) (p : L4Payload) (text : String) (rules : List AclRule)
    → check_form json f ≡ sent p
    → is_empty text ≡ false
    → json.parse text ≡ some rules
    → check_form json (load_service json g (stored text p))
      ≡ sent (record p { acl_rules_json = json.stringify (sort_rules rules) })
unfolding loaded
check_form-load_service json f g p text rules h full back =
    check_again json f g p (check_form-IsPayloadOf json f p h) text rules full back
