-- ===== src/Upstreams/Edit/Resubmit.antt =====
-- An upstream that is created, opened in the editor and saved again without a change.
use aurora_api_gateway.Prelude.{
  ℕ, ◌≡◌, refl, sym, subst, ap, ap₂, ◌∙◌, inl, inr, String, Bool, true, none, some, List, [], ◌∷◌,
  map, Bool-cases,
}
use aurora_api_gateway.Prelude.Text.{is_empty, trim, or_text}
use aurora_api_gateway.Prelude.Text.Laws.{trim_idem, trim-or_text}
use aurora_api_gateway.Upstreams.Name.{saved_name}
use aurora_api_gateway.Upstreams.Name.Laws.{saved_name_lem}
use aurora_api_gateway.Upstreams.Pool.{UpstreamNode}
use aurora_api_gateway.Upstreams.Form.{
  CreatePage, UpstreamForm, UpstreamType, single_server, load_balancer, external_fqdn,
  UpstreamPayload, TransportConfig, ssl_payload, upstream_payload, final_servers, filled_node,
  create_payload, of_external,
}
use aurora_api_gateway.Upstreams.Answer.{
  TransportAnswer, UpstreamAnswer, UpstreamItem, normalize_upstream, or_else, or_some_text,
}
use aurora_api_gateway.Upstreams.Edit.{
  init_edit_page, init_edit_form, load_single, load_servers, load_target, load_ssl, load_form,
  load_transport, load_upstream, found, updated_servers, update_payload, trimmed_node, text_or,
  first_address, EditPage,
}
use aurora_api_gateway.Upstreams.Edit.Tls.{stored_ssl, IsSameSsl, ssl_again}

abbrev stored_transport : TransportConfig → TransportAnswer
stored_transport t = record {
  http_version = some t.http_version;
  enable_web_socket = t.enable_web_socket;
  enable_sse = t.enable_sse;
  enable_grpc = t.enable_grpc;
  request_compression = some t.request_compression;
  compression_min_bytes = some t.compression_min_bytes;
  compression_level = some t.compression_level;
  keep_alive_connections = some t.keep_alive_connections;
}

-- An upstream that was stored as it was sent.
abbrev pub stored : ℕ → UpstreamPayload → UpstreamAnswer
stored id p = record {
  id = id;
  name = p.name;
  description = some p.description;
  architecture_type = some p.architecture_type;
  algorithm = some p.algorithm;
  servers = some p.servers;
  external_fqdn = p.external_fqdn;
  sni_override = p.sni_override;
  dynamic_dns = some p.dynamic_dns;
  internal_ssl = some (stored_ssl p.internal_ssl);
  probes = some p.probes;
  transport = some (stored_transport p.transport);
  bound_domains_count = some 0;
  created_at = none;
  updated_at = none;
  type_alias = none;
  external_fqdn_alias = none;
  sni_override_alias = none;
  dynamic_dns_alias = none;
  internal_ssl_alias = none;
  bound_domains_count_alias = none;
  created_at_alias = none;
  updated_at_alias = none;
}

-- The fields that do not depend on the type.
record IsKept (f g : UpstreamForm) : Type 0 where
  name : g.name ≡ f.name
  description : g.description ≡ f.description
  architecture_type : g.architecture_type ≡ f.architecture_type
  algorithm : g.algorithm ≡ f.algorithm
  ssl : g.ssl ≡ f.ssl

load_single-IsKept : (ss : List UpstreamNode) (f : UpstreamForm) → IsKept f (load_single ss f)
load_single-IsKept [] f = record {
  name = refl;
  description = refl;
  architecture_type = refl;
  algorithm = refl;
  ssl = refl;
}
load_single-IsKept (s ∷ ss) f = record {
  name = refl;
  description = refl;
  architecture_type = refl;
  algorithm = refl;
  ssl = refl;
}

load_servers-IsKept : (ss : List UpstreamNode) (f : UpstreamForm) → IsKept f (load_servers ss f)
load_servers-IsKept [] f = record {
  name = refl;
  description = refl;
  architecture_type = refl;
  algorithm = refl;
  ssl = refl;
}
load_servers-IsKept (s ∷ ss) f = record {
  name = refl;
  description = refl;
  architecture_type = refl;
  algorithm = refl;
  ssl = refl;
}

load_target-IsKept :
    (item : UpstreamItem) (t : UpstreamType) (f : UpstreamForm) → IsKept f (load_target item t f)
load_target-IsKept item single_server f = load_single-IsKept item.servers f
load_target-IsKept item load_balancer f = load_servers-IsKept item.servers f
load_target-IsKept item external_fqdn f = record {
  name = refl;
  description = refl;
  architecture_type = refl;
  algorithm = refl;
  ssl = refl;
}

abbrev pub addresses : List UpstreamNode → List String
addresses = map (λ s. s.address)

addresses-trimmed :
    (ns : List UpstreamNode)
    → addresses (map trimmed_node (map filled_node ns)) ≡ addresses (map filled_node ns)
addresses-trimmed [] = refl
addresses-trimmed (n ∷ ns) =
    ap₂ ◌∷◌
      (trim-or_text (trim n.address) "127.0.0.1:8080" (trim_idem n.address) (unfold trim in refl))
      (addresses-trimmed ns)

addresses_of_pool :
    (ns : List UpstreamNode) (g : UpstreamForm)
    → g.lb_servers ≡ []
    → addresses (map trimmed_node (load_servers (map filled_node ns) g).lb_servers)
      ≡ addresses (map filled_node ns)
addresses_of_pool [] g none_held = ap (λ ms. addresses (map trimmed_node ms)) none_held
addresses_of_pool (n ∷ ns) g none_held = addresses-trimmed (n ∷ ns)

fqdn_again :
    (s : String)
    → trim
        (text_or (or_some_text (some (trim s)) none) (or_text (trim s) "origin.internal") (λ t. t))
      ≡ or_text (trim s) "origin.internal"
fqdn_again s = elim (Bool-cases (is_empty (trim s))) [
  | inl blank ↦ rw blank (unfold trim in refl)
  | inr given ↦ rw given (rw given (trim_idem s))
]

addresses_again :
    (f g : UpstreamForm) (t : UpstreamType) (item : UpstreamItem)
    → item.servers ≡ final_servers f t
    → item.external_fqdn ≡ or_some_text (of_external t (trim f.external_fqdn)) none
    → g.lb_servers ≡ []
    → addresses (updated_servers (load_target item t g) t) ≡ addresses (final_servers f t)
unfolding updated_servers final_servers
addresses_again f g single_server item servers fqdn held =
    ap (λ ss. trim (load_single ss g).single_address ∷ []) servers
    ∙ ap (λ s. s ∷ [])
        (trim-or_text (trim f.single_address) "127.0.0.1:8080" (trim_idem f.single_address)
          (unfold trim in refl))
addresses_again f g load_balancer item servers fqdn held =
    ap (λ ss. addresses (map trimmed_node (load_servers ss g).lb_servers)) servers
    ∙ addresses_of_pool f.lb_servers g held
addresses_again f g external_fqdn item servers fqdn held =
    ap₂ (λ e ss. trim (text_or e (first_address ss) (λ s. s)) ∷ []) fqdn servers
    ∙ ap (λ s. s ∷ []) (fqdn_again f.external_fqdn)

-- `dynamic_dns` after the round: only an external upstream keeps its choice.
abbrev pub dynamic_dns_again : UpstreamType → Bool → Bool
dynamic_dns_again external_fqdn b = b
dynamic_dns_again _ b = true

loaded_dynamic_dns :
    (item : UpstreamItem) (t : UpstreamType) (g : UpstreamForm) (b : Bool)
    → item.dynamic_dns ≡ some b
    → g.dynamic_dns ≡ true
    → (load_target item t g).dynamic_dns ≡ dynamic_dns_again t b
loaded_dynamic_dns item single_server g b h held = loaded_single item.servers
  where
    loaded_single : (ss : List UpstreamNode) → (load_single ss g).dynamic_dns ≡ true
    loaded_single [] = held
    loaded_single (s ∷ ss) = held
loaded_dynamic_dns item load_balancer g b h held = loaded_pool item.servers
  where
    loaded_pool : (ss : List UpstreamNode) → (load_servers ss g).dynamic_dns ≡ true
    loaded_pool [] = held
    loaded_pool (s ∷ ss) = held
loaded_dynamic_dns item external_fqdn g b h held = ap (λ o. or_else o true) h

-- A payload that a page without changes sends again, next to the first one.
pub record IsResent (first again : UpstreamPayload) : Type 0 where
  pub name : again.name ≡ first.name
  pub description : again.description ≡ first.description
  pub architecture_type : again.architecture_type ≡ first.architecture_type
  pub algorithm : again.algorithm ≡ first.algorithm
  pub addressed : addresses again.servers ≡ addresses first.servers
  pub internal_ssl : IsSameSsl first.internal_ssl again.internal_ssl
  pub dynamic_dns : again.dynamic_dns ≡ dynamic_dns_again first.architecture_type first.dynamic_dns

abbrev pub reopened : ℕ → UpstreamPayload → EditPage
reopened id req = load_upstream init_edit_page (found (normalize_upstream (stored id req)))

-- An upstream that was created, stored as it was sent, opened in the editor and saved unchanged is
-- sent with its name, its description, its type, its algorithm, the addresses of its servers and its
-- TLS settings, but for the name of the client certificate, which may change, and the client key,
-- which is not sent. An external upstream keeps its choice for DNS; any other is sent with the
-- refreshing of DNS switched on, whatever it had.
pub update_payload-IsResent :
    (id : ℕ) (p : CreatePage)
    → IsResent (create_payload p) (update_payload (reopened id (create_payload p)))
unfolding create_payload update_payload upstream_payload load_upstream normalize_upstream
update_payload-IsResent id p =
    let item = normalize_upstream (stored id (create_payload p)) in
    let kept = load_target-IsKept item p.form.architecture_type (record init_edit_form {
      name = item.name;
      description = or_else item.description "";
      architecture_type = item.architecture_type;
      algorithm = item.algorithm;
      ssl = load_ssl item.internal_ssl init_edit_form.ssl;
      transport = load_transport item.transport;
    }) in
    record {
      name = ap saved_name kept.name ∙ (saved_name_lem p.form.name).1.1;
      description = ap trim kept.description ∙ trim_idem p.form.description;
      architecture_type = kept.architecture_type;
      algorithm = kept.algorithm;
      addressed =
          ap (λ t. addresses (updated_servers (load_form item init_edit_form) t))
            kept.architecture_type
          ∙ addresses_again p.form _ p.form.architecture_type item refl refl refl;
      internal_ssl =
          subst (λ s. IsSameSsl (ssl_payload p.form.ssl) (ssl_payload s)) (sym kept.ssl)
            (ssl_again p.form.ssl);
      dynamic_dns = loaded_dynamic_dns item p.form.architecture_type _ p.form.dynamic_dns refl refl;
    }
