-- ===== src/Upstreams/Listing/Tests.antt =====
-- Loads run through the code.
use aurora_api_gateway.Prelude.{String, none, List, [], ◌∷◌}
use aurora_api_gateway.Upstreams.Form.{single_server, round_robin}
use aurora_api_gateway.Upstreams.Answer.{UpstreamItem, no_ssl_answer, default_transport}
use aurora_api_gateway.Upstreams.Listing.{
  ListPage, ListEvent, tick, answer, failure, init_list_page, list_step,
}
use aurora_api_gateway.Upstreams.Listing.Paging.{page_answer}

abbrev named : String → UpstreamItem
named name = record {
  id = name;
  name = name;
  description = none;
  architecture_type = single_server;
  algorithm = round_robin;
  servers = [];
  external_fqdn = none;
  sni_override = none;
  dynamic_dns = none;
  internal_ssl = no_ssl_answer;
  probes = [];
  transport = default_transport;
  bound_domains_count = 0;
  created_at = "";
  updated_at = "";
}

-- The page when the first load, which started before, is still waiting.
abbrev waiting : ListPage
waiting = list_step init_list_page tick

-- The second load has two pages; the answer and the failure of other loads come between.
abbrev late_events : List ListEvent
late_events =
    answer 2 (page_answer 2 (named "a" ∷ []))
    ∷ answer 1 (page_answer 1 (named "old" ∷ []))
    ∷ answer 2 (page_answer 2 (named "b" ∷ []))
    ∷ failure 1 "too late"
    ∷ []
