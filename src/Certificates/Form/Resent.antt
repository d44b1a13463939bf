-- ===== src/Certificates/Form/Resent.antt =====
-- A certificate that is opened in the editor and saved again.
use mathlib.Core.Option
use aurora_api_gateway.Prelude.{
  ℕ, ◌≡◌, refl, subst, ap, ◌∙◌, String, true, false, not, ◌&&◌, ◌||◌, some, List, [], ◌∷◌, map,
  arith,
}
use aurora_api_gateway.Prelude.Json.{Json, str, arr, JsonText, items_of}
use aurora_api_gateway.Prelude.Json.Laws.{elements-items_of}
use aurora_api_gateway.Prelude.Text.{is_empty, trim, join, includes}
use aurora_api_gateway.Prelude.Text.Laws.{trim_idem, or_text_of_full}
use aurora_api_gateway.Certificates.Form.{
  CertificateItem, CertificateFormState, CertificatePayload, sent, read_snis, check_certificate,
  certificate_payload, load_certificate, loaded_form, element_text, or_one, is_nil, joined, form_of,
}
use aurora_api_gateway.Certificates.Form.Snis.{read_snis-AreSnis, read_snis-join}

-- A form that passes every check.
record IsChecked (f : CertificateFormState) : Type 0 where
  named : is_empty (trim f.name) ≡ false
  hosted : is_nil (read_snis f.snis_input) ≡ false
  certified : includes (trim f.cert_pem) "BEGIN CERTIFICATE" ≡ true
  keyed : (not (includes (trim f.key_pem) "BEGIN") || not (includes (trim f.key_pem) "KEY")) ≡ false
  client_ca : (f.mtls_enabled && not (includes (trim f.client_ca_pem) "BEGIN CERTIFICATE")) ≡ false

check_certificate-IsChecked :
    (f : CertificateFormState) (p : CertificatePayload)
    → check_certificate f ≡ sent p
    → IsChecked f × (certificate_payload f ≡ p)
unfolding check_certificate
check_certificate-IsChecked f p h = (
  record {
    named = ground arith;
    hosted = ground arith;
    certified = ground arith;
    keyed = ground arith;
    client_ca = ground arith;
  },
  ground arith,
)

check_certificate_of_IsChecked :
    (f : CertificateFormState) → IsChecked f → check_certificate f ≡ sent (certificate_payload f)
unfolding check_certificate
check_certificate_of_IsChecked f v = rw (v.named, v.hosted, v.certified, v.keyed, v.client_ca) refl

-- A certificate that was stored as it was sent, its host names as JSON.
abbrev pub stored_certificate : JsonText → String → CertificatePayload → CertificateItem
stored_certificate json id p = record {
  id = id;
  name = p.name;
  snis_json = json.stringify (arr (items_of (map str p.snis)));
  cert_pem = p.cert_pem;
  key_configured = true;
  mtls_enabled = p.mtls_enabled;
  client_ca_pem = p.client_ca_pem;
  verify_depth = p.verify_depth;
  enabled = p.enabled;
  description = p.description;
  created_at = "";
  updated_at = "";
}

-- The form as it is opened, with the key typed again.
abbrev reopened : JsonText → String → CertificatePayload → CertificateFormState
reopened json id p = record (loaded_form (stored_certificate json id p) (join ", " p.snis)) {
  key_pem = p.key_pem;
}

or_one_idem : (n : ℕ) → or_one (or_one (or_one n)) ≡ or_one n
or_one_idem n = ground arith

reopened-IsChecked :
    (json : JsonText) (id : String) (f : CertificateFormState)
    → IsChecked f
    → IsChecked (reopened json id (certificate_payload f))
reopened-IsChecked json id f v = record {
  named = ap is_empty (trim_idem f.name) ∙ v.named;
  hosted =
      ap is_nil (read_snis-join (read_snis f.snis_input) (read_snis-AreSnis f.snis_input))
      ∙ v.hosted;
  certified = ap (λ t. includes t "BEGIN CERTIFICATE") (trim_idem f.cert_pem) ∙ v.certified;
  keyed =
      ap (λ t. not (includes t "BEGIN") || not (includes t "KEY")) (trim_idem f.key_pem) ∙ v.keyed;
  client_ca =
      ap (λ t. f.mtls_enabled && not (includes t "BEGIN CERTIFICATE")) (trim_idem f.client_ca_pem)
      ∙ v.client_ca;
}

payload_again :
    (json : JsonText) (id : String) (f : CertificateFormState)
    → certificate_payload (reopened json id (certificate_payload f)) ≡ certificate_payload f
payload_again json id f i = record {
  name = trim_idem f.name i;
  snis = read_snis-join (read_snis f.snis_input) (read_snis-AreSnis f.snis_input) i;
  cert_pem = trim_idem f.cert_pem i;
  key_pem = trim_idem f.key_pem i;
  mtls_enabled = f.mtls_enabled;
  client_ca_pem = trim_idem f.client_ca_pem i;
  verify_depth = or_one_idem f.verify_depth i;
  enabled = f.enabled;
  description = f.description;
}

map-element_text :
    (compound : Json → String) (ss : List String) → map (element_text compound) (map str ss) ≡ ss
map-element_text compound [] = refl
map-element_text compound (s ∷ ss) = ap (λ t. s ∷ t) (map-element_text compound ss)

-- What the effect makes of the stored certificate.
load_certificate_stored :
    (json : JsonText) (compound : Json → String) (id : String) (p : CertificatePayload)
    → is_empty (json.stringify (arr (items_of (map str p.snis)))) ≡ false
    → json.parse (json.stringify (arr (items_of (map str p.snis))))
      ≡ some (arr (items_of (map str p.snis)))
    → load_certificate json compound (stored_certificate json id p)
      ≡ some (loaded_form (stored_certificate json id p) (join ", " p.snis))
unfolding load_certificate
load_certificate_stored json compound id p full back =
    let c = stored_certificate json id p in
    ap (λ t. form_of c (joined compound (json.parse t))) (or_text_of_full c.snis_json "[]" full)
    ∙ ap (λ v. form_of c (joined compound v)) back
    ∙ ap (λ ss. some (loaded_form c (join ", " ss)))
        (ap (map (element_text compound)) (elements-items_of (map str p.snis))
          ∙ map-element_text compound p.snis)

-- A certificate that was sent, stored as it was sent with its host names as JSON, and opened in the
-- editor is sent again unchanged once its key has been typed again, where JSON.parse reads the stored
-- text back and that text is not empty.
pub check_certificate-load_certificate :
    (json : JsonText) (compound : Json → String) (id : String) (f : CertificateFormState)
    (p : CertificatePayload)
    → is_empty (json.stringify (arr (items_of (map str p.snis)))) ≡ false
    → json.parse (json.stringify (arr (items_of (map str p.snis))))
      ≡ some (arr (items_of (map str p.snis)))
    → check_certificate f ≡ sent p
    → Option.map
        (λ g. check_certificate (record g { key_pem = p.key_pem }))
        (load_certificate json compound (stored_certificate json id p))
      ≡ some (sent p)
check_certificate-load_certificate json compound id f p full back h =
    let (v, same) = check_certificate-IsChecked f p h in
    let g = reopened json id p in
    let ok : IsChecked g =
      subst (λ q. IsChecked (reopened json id q)) same (reopened-IsChecked json id f v) in
    let again : certificate_payload g ≡ p =
      subst (λ q. certificate_payload (reopened json id q) ≡ q) same (payload_again json id f) in
    ap (Option.map (λ g. check_certificate (record g { key_pem = p.key_pem })))
      (load_certificate_stored json compound id p full back)
    ∙ ap some (check_certificate_of_IsChecked g ok ∙ ap sent again)
