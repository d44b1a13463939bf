-- ===== src/Upstreams/Filter.antt =====
-- What the list of the upstreams shows: the filters of ui/src/pages/upstreams/page.tsx.
use aurora_api_gateway.Prelude.{
  String, Bool, true, false, ◌&&◌, ◌||◌, Option, none, some, List, keep, any,
}
use aurora_api_gateway.Prelude.Text.{is_empty, trim, to_lower_case, includes}
use aurora_api_gateway.Upstreams.Form.{UpstreamType, single_server, load_balancer, external_fqdn}
use aurora_api_gateway.Upstreams.Answer.{UpstreamItem}

abbrev is_type : UpstreamType → UpstreamType → Bool
is_type single_server single_server = true
is_type load_balancer load_balancer = true
is_type external_fqdn external_fqdn = true
is_type _ _ = false

-- `none` is the filter `ALL`.
abbrev passes_type : Option UpstreamType → UpstreamItem → Bool
passes_type none u = true
passes_type (some t) u = is_type u.architecture_type t

-- `s?.toLowerCase().includes(q)`
abbrev optional_includes : Option String → String → Bool
optional_includes none q = false
optional_includes (some s) q = includes (to_lower_case s) q

matches_search : String → UpstreamItem → Bool
unfolding includes to_lower_case trim
matches_search query u =
    let q = to_lower_case query in
    is_empty (trim query)
    || includes (to_lower_case u.name) q
    || optional_includes u.description q
    || any (λ s. includes (to_lower_case s.address) q) u.servers
    || optional_includes u.external_fqdn q

unfoldable pub filtered : Option UpstreamType → String → List UpstreamItem → List UpstreamItem
unfolding matches_search
filtered type_filter query upstreams =
    keep (λ u. passes_type type_filter u && matches_search query u) upstreams
