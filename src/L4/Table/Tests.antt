-- ===== src/L4/Table/Tests.antt =====
-- The list of the L4 services on sample services.
use aurora_api_gateway.Prelude.{◌≡◌, refl, String, true, false, none, some, [], ◌∷◌, map}
use aurora_api_gateway.Prelude.Json.{arr, cons, nil, num, elements, JsonText}
use aurora_api_gateway.Prelude.Text.{includes, to_lower_case, trim, decimal}
use aurora_api_gateway.Pages.Loader.{start_fetch, take_answer}
use aurora_api_gateway.L4.Service.{L4ServiceItem}
use aurora_api_gateway.L4.Table.{
  L4GatewayPage, init_l4_gateway_page, fetch_data, fetch_answered, filtered_services,
  handle_confirm_delete, settle_delete, has_acl,
}

abbrev service : String → String → L4ServiceItem
service id protocol = record {
  id = id;
  name = id;
  protocol = protocol;
  listen_port = 5432;
  forward_target_type = "upstream";
  upstream_name = "pool";
  direct_endpoint = "";
  acl_rules_json = "[]";
  proxy_timeout = "1h";
  proxy_connect_timeout = "5s";
  enabled = true;
  description = "";
  created_at = "";
  updated_at = "";
}

abbrev loaded : L4GatewayPage
loaded =
    fetch_answered 1 (service "db" "TCP" ∷ service "dns" "udp" ∷ []) none
      (fetch_data false init_l4_gateway_page)

abbrev one_rule : JsonText
one_rule = record { parse = λ s. some (arr (cons (num "1") nil)); stringify = λ v. "" }

by_port :
    map
      (λ svc. svc.id)
      (filtered_services one_rule
        (record loaded { search_query = "543"; proto_filter = "tcp"; stat_filter = some "acl" }))
    ≡ "db" ∷ []
unfolding filtered_services fetch_answered fetch_data start_fetch take_answer includes to_lower_case
    trim decimal has_acl elements
by_port = refl

-- A deletion is over when the load that it started has its answer.
deleted :
    (fetch_answered 2 [] none (
      settle_delete none
        (handle_confirm_delete
          (record loaded { deleting_service = some (service "db" "TCP") })).0)).is_deleting
    ≡ false
unfolding fetch_answered fetch_data start_fetch take_answer handle_confirm_delete settle_delete
deleted = refl
