-- ===== src/Certificates/Listing.antt =====
-- The list of the certificates: the state and the handlers of ui/src/pages/certificates/page.tsx, with
-- the numbers of ui/src/pages/certificates/sections/CertificateStats.tsx.
use text.Mathlib.Text.{◌==◌ as str_eq}
use aurora_api_gateway.Prelude.{
  ℕ, refl, String, Bool, true, false, ◌&&◌, ◌||◌, not, Option, none, some, List, [], ◌∷◌, keep,
  length, any,
}
use aurora_api_gateway.Prelude.Json.{Json, null, bool, num, str, arr, obj, JsonText, elements}
use aurora_api_gateway.Prelude.Text.{is_empty, trim, or_text, to_lower_case, includes}
use aurora_api_gateway.Pages.Loader.{Loader}
use aurora_api_gateway.Pages.Switch.{Switchable, SwitchEvent, switch_step}
use aurora_api_gateway.Certificates.Form.{CertificateItem}

-- `list` holds the certificates, whether they load, and the error.
pub record CertificatesPage : Type 0 where
  pub list : Loader (List CertificateItem)
  pub search_query : String
  pub stat_filter : Option String
  pub is_modal_open : Bool
  pub editing_cert : Option CertificateItem
  pub deleting_cert : Option CertificateItem
  pub toggling_ids : List String

abbrev is_star : Json → Bool
is_star (str s) = str_eq s "*"
is_star other = false

-- `snis.some((s) => s.includes('*'))`: an element without `includes` throws, which counts as no.
some_starred : List Json → Bool
some_starred [] = false
some_starred (str s ∷ rest) = let others = some_starred rest in includes s "*" || others
some_starred (arr items ∷ rest) =
    let others = some_starred rest in any is_star (elements items) || others
some_starred (null ∷ rest) = false
some_starred (bool b ∷ rest) = false
some_starred (num n ∷ rest) = false
some_starred (obj fields ∷ rest) = false

abbrev starred : Option Json → Bool
starred (some (arr items)) = some_starred (elements items)
starred other = false

unfoldable pub has_wildcard : JsonText → CertificateItem → Bool
unfolding some_starred includes elements
has_wildcard json c = starred (json.parse (or_text c.snis_json "[]"))

matches_search : String → CertificateItem → Bool
unfolding includes to_lower_case trim
matches_search query c =
    let q = to_lower_case query in
    is_empty (trim query)
    || includes (to_lower_case c.name) q
    || includes (to_lower_case c.id) q
    || includes (to_lower_case c.snis_json) q
    || includes (to_lower_case c.description) q

passes_stat : JsonText → Option String → CertificateItem → Bool
unfolding has_wildcard
passes_stat json none c = true
passes_stat json (some stat) c =
    not (str_eq stat "active" && not c.enabled)
    && not (str_eq stat "mtls" && not c.mtls_enabled)
    && not (str_eq stat "wildcard" && not (has_wildcard json c))

unfoldable pub filtered_certificates : JsonText → CertificatesPage → List CertificateItem
unfolding matches_search passes_stat
filtered_certificates json s =
    keep (λ c. matches_search s.search_query c && passes_stat json s.stat_filter c) s.list.items

pub record CertificateCounts : Type 0 where
  pub total : ℕ
  pub active : ℕ
  pub mtls_count : ℕ
  pub wildcard_count : ℕ

unfoldable pub certificate_counts : JsonText → List CertificateItem → CertificateCounts
unfolding has_wildcard
certificate_counts json certificates = record {
  total = length certificates;
  active = length (keep (λ c. c.enabled) certificates);
  mtls_count = length (keep (λ c. c.mtls_enabled) certificates);
  wildcard_count = length (keep (has_wildcard json) certificates);
}

-- A certificate as an element with a switch.
abbrev pub certificate_switch : Switchable CertificateItem
certificate_switch = record {
  id = λ c. c.id;
  enabled = λ c. c.enabled;
  set_enabled = λ b c. record c { enabled = b };
  id_set = λ b c. refl;
  set_same = λ c. refl;
  set_set = λ b d c. refl;
  enabled_set = λ b c. refl;
}

-- `handleToggle` up to its request (`press`), and the two ends of the request.
unfoldable pub handle_toggle : SwitchEvent → CertificatesPage → CertificatesPage
unfolding switch_step
handle_toggle e s =
    let t =
      switch_step certificate_switch
        (record { items = s.list.items; toggling_ids = s.toggling_ids }) e in
    record s { list = record (s.list) { items = t.items }; toggling_ids = t.toggling_ids }

-- The buttons that open the window, for a new certificate and for one of the list, and that close it.
unfoldable pub press_install : CertificatesPage → CertificatesPage
press_install s = record s { editing_cert = none; is_modal_open = true }

unfoldable pub press_edit : CertificateItem → CertificatesPage → CertificatesPage
press_edit c s = record s { editing_cert = some c; is_modal_open = true }

unfoldable pub close_modal : CertificatesPage → CertificatesPage
close_modal s = record s { is_modal_open = false }

-- Asking to delete a certificate, and closing the question.
unfoldable pub ask_delete : Option CertificateItem → CertificatesPage → CertificatesPage
ask_delete deleting s = record s { deleting_cert = deleting }
