-- ===== src/Upstreams/Edit/Tls.antt =====
-- The TLS settings of an upstream that is opened in the editor and saved again without a change.
use aurora_api_gateway.Prelude.{
  ◌≡◌, refl, inl, inr, String, Bool, true, false, ◌&&◌, Option, none, some, if◌then◌else◌,
  Bool-cases, arith,
}
use aurora_api_gateway.Prelude.Text.{is_empty, trim}
use aurora_api_gateway.Prelude.Text.Laws.{trim_idem}
use aurora_api_gateway.Upstreams.Form.{SslForm, SslPayload, ssl_payload, trimmed_option}
use aurora_api_gateway.Upstreams.Answer.{SslAnswer, or_else}
use aurora_api_gateway.Upstreams.Edit.{init_edit_form, load_ssl, text_or}

abbrev is_some {ℓ} : {A : Type ℓ} → Option A → Bool
is_some none = false
is_some (some x) = true

-- TLS settings that were stored as they were sent; the key is not returned.
abbrev pub stored_ssl : SslPayload → SslAnswer
stored_ssl s = record {
  enabled = s.enabled;
  verify_cert = s.verify_cert;
  sni_host = s.sni_host;
  ca_cert = s.ca_cert;
  mtls = s.mtls;
  client_cert_name = s.client_cert_name;
  client_cert = s.client_cert;
  client_key_configured = is_some s.client_key;
}

trimmed_option_again :
    (s : String) → trimmed_option (or_else (trimmed_option s) "") ≡ trimmed_option s
trimmed_option_again s = elim (Bool-cases (is_empty (trim s))) [
  | inl blank ↦ rw blank (unfold trim in refl)
  | inr given ↦ rw given (rw (trim_idem s, given) refl)
]

certificate_again :
    (s : String) → trimmed_option (text_or (trimmed_option s) "" (λ t. t)) ≡ trimmed_option s
certificate_again s = elim (Bool-cases (is_empty (trim s))) [
  | inl blank ↦ rw blank (unfold trim in refl)
  | inr given ↦ rw given (rw (given, trim_idem s) (rw given refl))
]

-- TLS settings that are sent again: the same but for the name of the client certificate, which may
-- change, and with no key.
pub record IsSameSsl (s t : SslPayload) : Type 0 where
  pub enabled : t.enabled ≡ s.enabled
  pub verify_cert : t.verify_cert ≡ s.verify_cert
  pub sni_host : t.sni_host ≡ s.sni_host
  pub ca_cert : t.ca_cert ≡ s.ca_cert
  pub mtls : t.mtls ≡ s.mtls
  pub client_cert : t.client_cert ≡ s.client_cert
  pub client_key : t.client_key ≡ none

abbrev pub loaded_ssl : SslForm → SslForm
loaded_ssl f = load_ssl (stored_ssl (ssl_payload f)) init_edit_form.ssl

if_none : (b : Bool) (x : Option String) → x ≡ none → (if b then x else none) ≡ none
if_none true x h = h
if_none false x h = refl

ca_again : (f : SslForm) → (ssl_payload (loaded_ssl f)).ca_cert ≡ (ssl_payload f).ca_cert
unfolding ssl_payload
ca_again f = elim (Bool-cases (f.enabled && f.verify_cert && f.custom_ca_enabled)) [
  | inl e ↦
      let on : f.enabled ≡ true = ground arith in
      let verified : f.verify_cert ≡ true = ground arith in
      let custom : f.custom_ca_enabled ≡ true = ground arith in
      elim (Bool-cases (is_empty (trim f.ca_cert))) [
        | inl blank ↦ rw (on, verified, custom) (rw blank refl)
        | inr given ↦
            rw (on, verified, custom) (rw given (rw (given, trim_idem f.ca_cert) (rw given refl)))
      ]
  | inr e ↦ rw e (if_none _ _ (unfold trim in refl))
]

pub ssl_again : (f : SslForm) → IsSameSsl (ssl_payload f) (ssl_payload (loaded_ssl f))
unfolding ssl_payload
ssl_again f = record {
  enabled = refl;
  verify_cert = ground arith;
  sni_host = elim (Bool-cases f.enabled) [
    | inl e ↦ rw e (trimmed_option_again f.sni_host)
    | inr e ↦ rw e refl
  ];
  ca_cert = ca_again f;
  mtls = ground arith;
  client_cert = elim (Bool-cases f.enabled) [
    | inl e ↦ elim (Bool-cases f.mtls) [
      | inl m ↦ rw (e, m) (certificate_again f.client_cert)
      | inr m ↦ rw (e, m) refl
    ]
    | inr e ↦ rw e refl
  ];
  client_key = if_none _ none refl;
}
