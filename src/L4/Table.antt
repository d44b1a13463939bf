-- ===== src/L4/Table.antt =====
-- The list of the L4 services: the state and the handlers of ui/src/pages/l4/page.tsx, with the numbers
-- of ui/src/pages/l4/sections/L4Stats.tsx.
mod Tests
use text.Mathlib.Text.{◌==◌ as str_eq}
use aurora_api_gateway.Prelude.{
  ℕ, String, Bool, true, false, ◌&&◌, ◌||◌, not, Option, none, some, List, [], ◌∷◌, keep, length,
  ◌==◌, ltb, if◌then◌else◌,
}
use aurora_api_gateway.Prelude.Json.{Json, arr, JsonText, elements}
use aurora_api_gateway.Prelude.Text.{is_empty, trim, or_text, to_lower_case, includes, decimal}
use aurora_api_gateway.Pages.Loader.{Loader, start_fetch, take_answer, take_failure}
use aurora_api_gateway.Upstreams.Answer.{UpstreamItem}
use aurora_api_gateway.L4.Service.{L4ServiceItem}

-- What a load fills: the services, and the upstreams that they may name.
pub record L4Data : Type 0 where
  pub services : List L4ServiceItem
  pub available_upstreams : List UpstreamItem

-- `delete_load` is the number of the load that a deletion waits for.
pub record L4GatewayPage : Type 0 where
  pub list : Loader L4Data
  pub search_query : String
  pub proto_filter : String
  pub stat_filter : Option String
  pub deleting_service : Option L4ServiceItem
  pub is_deleting : Bool
  pub delete_load : Option ℕ
  pub alerts : List String

abbrev pub init_l4_gateway_page : L4GatewayPage
init_l4_gateway_page = record {
  list = record {
    items = record { services = []; available_upstreams = [] };
    loading = true;
    is_refreshing = false;
    error = none;
    request_sequence = 0;
  };
  search_query = "";
  proto_filter = "all";
  stat_filter = none;
  deleting_service = none;
  is_deleting = false;
  delete_load = none;
  alerts = [];
}

-- The upstreams that the second request answers: none where it fails.
upstreams_or_none : Option (List UpstreamItem) → List UpstreamItem
upstreams_or_none none = []
upstreams_or_none (some items) = items

-- `finally` of `handleConfirmDelete`, which waits for the end of the load that it started.
after_load : ℕ → L4GatewayPage → L4GatewayPage
after_load seq s = elim (s.delete_load) [
  | none ↦ s
  | some n ↦ if n == seq then record s { is_deleting = false; delete_load = none } else s
]

abbrev load_message : String
load_message = "Failed to load L4 Gateway configurations"

-- `fetchData` up to its requests, and from its answers on.
unfoldable pub fetch_data : Bool → L4GatewayPage → L4GatewayPage
unfolding start_fetch
fetch_data show_spin s = record s { list = start_fetch load_message show_spin s.list }

unfoldable pub fetch_answered :
    ℕ → List L4ServiceItem → Option (List UpstreamItem) → L4GatewayPage → L4GatewayPage
unfolding take_answer after_load upstreams_or_none
fetch_answered seq services upstreams s = after_load seq (record s {
  list =
      take_answer load_message seq
        (record { services = services; available_upstreams = upstreams_or_none upstreams }) s.list;
})

unfoldable pub fetch_failed : ℕ → String → L4GatewayPage → L4GatewayPage
unfolding take_failure after_load
fetch_failed seq why s =
    after_load seq (record s { list = take_failure load_message seq why s.list })

-- The request of `handleToggleStatus`, and its two ends.
unfoldable pub handle_toggle_status : L4ServiceItem → String × Bool
handle_toggle_status item = (item.id, not item.enabled)

unfoldable pub settle_toggle_status : Option String → L4GatewayPage → L4GatewayPage
unfolding fetch_data
settle_toggle_status none s = fetch_data false s
settle_toggle_status (some why) s = record s {
  alerts = or_text why "Error updating service status" ∷ s.alerts;
}

-- `handleConfirmDelete` up to its request, which deletes the service with that id.
unfoldable pub handle_confirm_delete : L4GatewayPage → L4GatewayPage × Option String
handle_confirm_delete s = elim (s.deleting_service) [
  | none ↦ (s, none)
  | some svc ↦ (record s { is_deleting = true }, some svc.id)
]

unfoldable pub settle_delete : Option String → L4GatewayPage → L4GatewayPage
unfolding fetch_data
settle_delete none s =
    let next = fetch_data false (record s { deleting_service = none }) in
    record next { delete_load = some next.list.request_sequence }
settle_delete (some why) s = record s {
  alerts = or_text why "Error deleting service" ∷ s.alerts;
  is_deleting = false;
}

matches_search : String → L4ServiceItem → Bool
unfolding includes to_lower_case trim decimal
matches_search query svc =
    let q = to_lower_case query in
    is_empty (trim query)
    || includes (to_lower_case svc.name) q
    || includes (to_lower_case svc.upstream_name) q
    || (not (is_empty svc.direct_endpoint) && includes (to_lower_case svc.direct_endpoint) q)
    || includes (decimal svc.listen_port) query

abbrev is_full : Option Json → Bool
is_full (some (arr items)) = ltb 0 (length (elements items))
is_full other = false

-- The rules are a list that is not empty.
unfoldable pub has_acl : JsonText → L4ServiceItem → Bool
unfolding elements
has_acl json svc = is_full (json.parse (or_text svc.acl_rules_json "[]"))

abbrev pub speaks : String → L4ServiceItem → Bool
speaks protocol svc = str_eq (to_lower_case svc.protocol) protocol

passes_stat : JsonText → Option String → L4ServiceItem → Bool
unfolding has_acl to_lower_case
passes_stat json none svc = true
passes_stat json (some stat) svc =
    if str_eq stat "acl"
    then has_acl json svc
    else if str_eq stat "udp"
    then speaks "udp" svc
    else if str_eq stat "tcp"
    then speaks "tcp" svc
    else true

unfoldable pub filtered_services : JsonText → L4GatewayPage → List L4ServiceItem
unfolding matches_search passes_stat to_lower_case
filtered_services json s =
    keep
      (λ svc.
        matches_search s.search_query svc
        && (str_eq s.proto_filter "all" || speaks s.proto_filter svc)
        && passes_stat json s.stat_filter svc)
      s.list.items.services

unfoldable pub handle_clear_filters : L4GatewayPage → L4GatewayPage
handle_clear_filters s = record s { search_query = ""; proto_filter = "all"; stat_filter = none }

pub record L4Counts : Type 0 where
  pub total : ℕ
  pub tcp_count : ℕ
  pub udp_count : ℕ
  pub acl_count : ℕ

unfoldable pub l4_counts : JsonText → List L4ServiceItem → L4Counts
unfolding has_acl to_lower_case
l4_counts json services = record {
  total = length services;
  tcp_count = length (keep (speaks "tcp") services);
  udp_count = length (keep (speaks "udp") services);
  acl_count = length (keep (has_acl json) services);
}
