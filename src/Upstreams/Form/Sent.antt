-- ===== src/Upstreams/Form/Sent.antt =====
-- What the page that creates an upstream sends.
use aurora_api_gateway.Prelude.{
  ◌≤◌, ◌≡◌, refl, ◌∙◌, inl, inr, String, true, false, none, some, List, [], ◌∷◌, map, All,
  Bool-cases, arith, length, length-map, ◌⊎◌,
}
use aurora_api_gateway.Prelude.Text.{is_empty, trim, or_text}
use aurora_api_gateway.Prelude.Text.Laws.{trim_idem, is_empty-or_text, trim-or_text}
use aurora_api_gateway.Upstreams.Name.Laws.{saved_name_lem}
use aurora_api_gateway.Upstreams.Pool.{UpstreamNode}
use aurora_api_gateway.Upstreams.Form.{
  CreatePage, UpstreamForm, SslForm, SslPayload, UpstreamPayload, UpstreamType, single_server,
  load_balancer, external_fqdn, ssl_payload, upstream_payload, final_servers, filled_node,
  create_payload, submit_form, handle_create,
}

abbrev pub no_ssl : SslPayload
no_ssl = record {
  enabled = false;
  verify_cert = false;
  sni_host = none;
  ca_cert = none;
  mtls = false;
  client_cert_name = none;
  client_cert = none;
  client_key = none;
}

-- TLS settings that agree: nothing is sent with TLS off, no client certificate and no key without
-- mutual TLS, and no authority where certificates are not verified.
pub record IsConsistent (s : SslPayload) : Type 0 where
  pub off : s.enabled ≡ false → s ≡ no_ssl
  pub one_way :
      s.mtls ≡ false
      → (s.client_cert_name ≡ none) × ((s.client_cert ≡ none) × (s.client_key ≡ none))
  pub unverified : s.verify_cert ≡ false → s.ca_cert ≡ none

ssl_payload-IsConsistent : (f : SslForm) → IsConsistent (ssl_payload f)
unfolding ssl_payload
ssl_payload-IsConsistent f = record {
  off = λ h. rw h refl;
  one_way = λ h. rw h (refl, (refl, refl));
  unverified = λ h. elim (Bool-cases f.enabled) [
    | inl e ↦ let verify : f.verify_cert ≡ false = ground arith in rw (e, verify) refl
    | inr e ↦ rw e refl
  ];
}

-- An address with no spaces round it.
pub record IsAddress (s : String) : Type 0 where
  pub given : is_empty s ≡ false
  pub trimmed : trim s ≡ s

or_text-IsAddress :
    (s fallback : String)
    → is_empty fallback ≡ false
    → trim fallback ≡ fallback
    → IsAddress (or_text (trim s) fallback)
or_text-IsAddress s fallback full clean = record {
  given = is_empty-or_text (trim s) fallback full;
  trimmed = trim-or_text (trim s) fallback (trim_idem s) clean;
}

abbrev Addressed : List UpstreamNode → Type 0
Addressed = All (λ s. IsAddress s.address)

filled-Addressed : (ns : List UpstreamNode) → Addressed (map filled_node ns)
filled-Addressed [] = tt
filled-Addressed (n ∷ ns) =
    (or_text-IsAddress n.address "127.0.0.1:8080" refl (unfold trim in refl), filled-Addressed ns)

final_servers-Addressed : (f : UpstreamForm) (t : UpstreamType) → Addressed (final_servers f t)
unfolding final_servers
final_servers-Addressed f single_server =
    (or_text-IsAddress f.single_address "127.0.0.1:8080" refl (unfold trim in refl), tt)
final_servers-Addressed f load_balancer = filled-Addressed f.lb_servers
final_servers-Addressed f external_fqdn =
    (or_text-IsAddress f.external_fqdn "origin.internal" refl (unfold trim in refl), tt)

final_servers-length :
    (f : UpstreamForm) (t : UpstreamType) → 1 ≤ length f.lb_servers → 1 ≤ length (final_servers f t)
unfolding final_servers
final_servers-length f single_server h = omega arith
final_servers-length f load_balancer h = rw (length-map filled_node f.lb_servers) h
final_servers-length f external_fqdn h = omega arith

-- A payload that names a pool of reachable servers.
pub record IsSendable (req : UpstreamPayload) : Type 0 where
  pub named : is_empty req.name ≡ false
  pub occupied : 1 ≤ length req.servers
  pub addressed : All (λ s. IsAddress s.address) req.servers
  pub ssl : IsConsistent req.internal_ssl

create_payload-IsSendable :
    (p : CreatePage)
    → 1 ≤ length p.form.lb_servers
    → is_empty (trim p.form.name) ≡ false
    → IsSendable (create_payload p)
unfolding create_payload upstream_payload
create_payload-IsSendable p occupied named = record {
  named = (saved_name_lem p.form.name).1.0 ∙ named;
  occupied = final_servers-length p.form p.form.architecture_type occupied;
  addressed = final_servers-Addressed p.form p.form.architecture_type;
  ssl = ssl_payload-IsConsistent p.form.ssl;
}

-- With a blank name nothing happens. Otherwise the page is marked as submitting, the old message is
-- cleared, and the payload has a name, a server, an address for each server, and TLS settings that
-- agree. The pool of the form has a server.
pub handle_create_cases :
    (p : CreatePage)
    → 1 ≤ length p.form.lb_servers
    → ((is_empty (trim p.form.name) ≡ true) × (handle_create p ≡ (p, none)))
      ⊎ ((req : UpstreamPayload) × ((handle_create p
              ≡ (record p { form = submit_form p.form }, some req))
            × IsSendable req))
unfolding handle_create
handle_create_cases p occupied = elim (Bool-cases (is_empty (trim p.form.name))) [
  | inl blank ↦ inl (blank, rw blank refl)
  | inr named ↦ inr (create_payload p, (rw named refl, create_payload-IsSendable p occupied named))
]
