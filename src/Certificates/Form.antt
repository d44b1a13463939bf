-- ===== src/Certificates/Form.antt =====
-- Installing and editing a certificate: the state, the effect and the submission of
-- ui/src/pages/certificates/sections/CertificateModal.tsx, with the fields of
-- ui/src/pages/certificates/types.ts and ui/src/lib/api/certificates.ts. A submission runs up to the
-- request; the answer is a later event.
pub mod Resent
pub mod Snis
mod Tests
use aurora_api_gateway.Prelude.{
  ℕ, String, Bool, true, false, ◌&&◌, ◌||◌, not, Option, none, some, List, [], ◌∷◌, map, keep, ◌==◌,
  if◌then◌else◌,
}
use aurora_api_gateway.Prelude.Json.{Json, null, bool, num, str, arr, obj, JsonText, elements}
use aurora_api_gateway.Prelude.Text.{is_empty, trim, or_text, to_lower_case, includes, join}
use aurora_api_gateway.Prelude.Text.Split.{split_on}

pub record CertificateItem : Type 0 where
  pub id : String
  pub name : String
  pub snis_json : String
  pub cert_pem : String
  pub key_configured : Bool
  pub mtls_enabled : Bool
  pub client_ca_pem : String
  pub verify_depth : ℕ
  pub enabled : Bool
  pub description : String
  pub created_at : String
  pub updated_at : String

pub record CertificateFormState : Type 0 where
  pub name : String
  pub snis_input : String
  pub cert_pem : String
  pub key_pem : String
  pub mtls_enabled : Bool
  pub client_ca_pem : String
  pub verify_depth : ℕ
  pub enabled : Bool
  pub description : String

abbrev pub default_certificate_form : CertificateFormState
default_certificate_form = record {
  name = "";
  snis_input = "";
  cert_pem = "";
  key_pem = "";
  mtls_enabled = false;
  client_ca_pem = "";
  verify_depth = 1;
  enabled = true;
  description = "";
}

-- What is sent, for a new certificate and for one that is edited.
pub record CertificatePayload : Type 0 where
  pub name : String
  pub snis : List String
  pub cert_pem : String
  pub key_pem : String
  pub mtls_enabled : Bool
  pub client_ca_pem : String
  pub verify_depth : ℕ
  pub enabled : Bool
  pub description : String

pub data CertificateError : Type 0 where
  name_required sni_required cert_pem_invalid key_pem_invalid client_ca_invalid : CertificateError
  failed : String → CertificateError

-- A failed check, or the payload of the request.
pub data Submission : Type 0 where
  refused : CertificateError → Submission
  sent : CertificatePayload → Submission

pub record CertificateModal : Type 0 where
  pub form_data : CertificateFormState
  pub submitting : Bool
  pub error : Option CertificateError

-- The characters of `/[\n,]/`.
abbrev pub is_mark : ℕ → Bool
is_mark c = c == 10 || c == 44

abbrev pub clean_snis : List String → List String
clean_snis parts = keep (λ s. not (is_empty s)) (map (λ s. to_lower_case (trim s)) parts)

-- The host names of the input.
unfoldable pub read_snis : String → List String
unfolding split_on trim to_lower_case
read_snis input = clean_snis (split_on is_mark input)

-- `n || 1`
abbrev pub or_one : ℕ → ℕ
or_one n = if n == 0 then 1 else n

abbrev pub certificate_payload : CertificateFormState → CertificatePayload
certificate_payload f = record {
  name = trim f.name;
  snis = read_snis f.snis_input;
  cert_pem = trim f.cert_pem;
  key_pem = trim f.key_pem;
  mtls_enabled = f.mtls_enabled;
  client_ca_pem = trim f.client_ca_pem;
  verify_depth = or_one f.verify_depth;
  enabled = f.enabled;
  description = f.description;
}

abbrev is_nil : List String → Bool
is_nil [] = true
is_nil (s ∷ ss) = false

-- The checks of `handleSubmit`, in their order.
unfoldable pub check_certificate : CertificateFormState → Submission
unfolding includes trim
check_certificate f =
    if is_empty (trim f.name)
    then refused name_required
    else if is_nil (read_snis f.snis_input)
    then refused sni_required
    else if not (includes (trim f.cert_pem) "BEGIN CERTIFICATE")
    then refused cert_pem_invalid
    else if not (includes (trim f.key_pem) "BEGIN") || not (includes (trim f.key_pem) "KEY")
    then refused key_pem_invalid
    else if f.mtls_enabled && not (includes (trim f.client_ca_pem) "BEGIN CERTIFICATE")
    then refused client_ca_invalid
    else sent (certificate_payload f)

abbrev submitted : Submission → CertificateModal → CertificateModal
submitted (refused e) s = record s { error = some e }
submitted (sent p) s = record s { submitting = true; error = none }

-- `handleSubmit` up to the request.
unfoldable pub handle_submit : CertificateModal → CertificateModal × Submission
unfolding check_certificate
handle_submit s = let checked = check_certificate s.form_data in (submitted checked s, checked)

-- The answer: `none` is success, which closes the window.
unfoldable pub settle_submit : Option String → CertificateModal → CertificateModal
settle_submit none s = record s { submitting = false }
settle_submit (some message) s = record s {
  submitting = false;
  error = some (
      failed (
        or_text message
          "Failed to save certificate. Please verify certificate & private key pair."));
}

-- An element as `join` writes it; what it writes for an array or an object is an argument.
abbrev pub element_text : (Json → String) → Json → String
element_text compound null = ""
element_text compound (bool true) = "true"
element_text compound (bool false) = "false"
element_text compound (num n) = n
element_text compound (str s) = s
element_text compound (arr items) = compound (arr items)
element_text compound (obj fields) = compound (obj fields)

-- The parsed text joined; only an array has `join`, and else the effect throws.
abbrev joined : (Json → String) → Option Json → Option String
joined compound none = some ""
joined compound (some (arr items)) = some (join ", " (map (element_text compound) (elements items)))
joined compound (some other) = none

abbrev pub loaded_form : CertificateItem → String → CertificateFormState
loaded_form c snis_input = record {
  name = c.name;
  snis_input = snis_input;
  cert_pem = c.cert_pem;
  key_pem = "";
  mtls_enabled = c.mtls_enabled;
  client_ca_pem = c.client_ca_pem;
  verify_depth = or_one c.verify_depth;
  enabled = c.enabled;
  description = c.description;
}

abbrev opened_with : Option CertificateFormState → CertificateModal → Option CertificateModal
opened_with none s = none
opened_with (some form) s = some (record s { form_data = form; error = none })

abbrev form_of : CertificateItem → Option String → Option CertificateFormState
form_of c none = none
form_of c (some snis_input) = some (loaded_form c snis_input)

-- The form for a certificate; `none` is an effect that throws.
unfoldable pub load_certificate :
    JsonText → (Json → String) → CertificateItem → Option CertificateFormState
unfolding join elements
load_certificate json compound c =
    form_of c (joined compound (json.parse (or_text c.snis_json "[]")))

-- The effect that runs when the window opens, for a certificate or for a new one.
unfoldable pub open_modal :
    JsonText → (Json → String) → Option CertificateItem → CertificateModal → Option CertificateModal
unfolding load_certificate
open_modal json compound none s = opened_with (some default_certificate_form) s
open_modal json compound (some c) s = opened_with (load_certificate json compound c) s
