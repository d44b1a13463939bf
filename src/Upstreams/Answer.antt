-- ===== src/Upstreams/Answer.antt =====
-- The upstream that `normalizeUpstream` of ui/src/lib/api/upstreams.ts makes of the controller's
-- answer. A type or an algorithm that is missing or empty is `none`.
use aurora_api_gateway.Prelude.{ℕ, String, Bool, false, Option, none, some, List, [], if◌then◌else◌}
use aurora_api_gateway.Prelude.Int.{ℤ}
use aurora_api_gateway.Prelude.Text.{is_empty, decimal}
use aurora_api_gateway.Upstreams.Pool.{UpstreamNode, ProbeCheckItem}
use aurora_api_gateway.Upstreams.Form.{
  UpstreamType, single_server, BalancingAlgorithm, round_robin, HttpVersion, http1_1,
  RequestCompression,
}

-- TLS settings and transport settings, as the controller returns them.
pub record SslAnswer : Type 0 where
  pub enabled : Bool
  pub verify_cert : Bool
  pub sni_host : Option String
  pub ca_cert : Option String
  pub mtls : Bool
  pub client_cert_name : Option String
  pub client_cert : Option String
  pub client_key_configured : Bool

pub record TransportAnswer : Type 0 where
  pub http_version : Option HttpVersion
  pub enable_web_socket : Bool
  pub enable_sse : Bool
  pub enable_grpc : Bool
  pub request_compression : Option RequestCompression
  pub compression_min_bytes : Option ℤ
  pub compression_level : Option ℤ
  pub keep_alive_connections : Option ℤ

-- The controller's answer: a field that may come under two names has the second one marked `alias`.
pub record UpstreamAnswer : Type 0 where
  pub id : ℕ
  pub name : String
  pub description : Option String
  pub architecture_type : Option UpstreamType
  pub algorithm : Option BalancingAlgorithm
  pub servers : Option (List UpstreamNode)
  pub external_fqdn : Option String
  pub sni_override : Option Bool
  pub dynamic_dns : Option Bool
  pub internal_ssl : Option SslAnswer
  pub probes : Option (List ProbeCheckItem)
  pub transport : Option TransportAnswer
  pub bound_domains_count : Option ℕ
  pub created_at : Option String
  pub updated_at : Option String
  pub type_alias : Option UpstreamType
  pub external_fqdn_alias : Option String
  pub sni_override_alias : Option Bool
  pub dynamic_dns_alias : Option Bool
  pub internal_ssl_alias : Option SslAnswer
  pub bound_domains_count_alias : Option ℕ
  pub created_at_alias : Option String
  pub updated_at_alias : Option String

pub record UpstreamItem : Type 0 where
  pub id : String
  pub name : String
  pub description : Option String
  pub architecture_type : UpstreamType
  pub algorithm : BalancingAlgorithm
  pub servers : List UpstreamNode
  pub external_fqdn : Option String
  pub sni_override : Option Bool
  pub dynamic_dns : Option Bool
  pub internal_ssl : SslAnswer
  pub probes : List ProbeCheckItem
  pub transport : TransportAnswer
  pub bound_domains_count : ℕ
  pub created_at : String
  pub updated_at : String

-- `x ?? fallback`
abbrev pub or_else {ℓ} : {A : Type ℓ} → Option A → A → A
or_else none fallback = fallback
or_else (some x) fallback = x

-- `x ?? y`, with nothing in the end if both are missing.
abbrev pub or_option {ℓ} : {A : Type ℓ} → Option A → Option A → Option A
or_option none y = y
or_option (some x) y = some x

-- `s || t`, for texts that may be missing.
abbrev pub or_some_text : Option String → Option String → Option String
or_some_text none t = t
or_some_text (some s) t = if is_empty s then t else some s

abbrev pub no_ssl_answer : SslAnswer
no_ssl_answer = record {
  enabled = false;
  verify_cert = false;
  sni_host = none;
  ca_cert = none;
  mtls = false;
  client_cert_name = none;
  client_cert = none;
  client_key_configured = false;
}

abbrev pub default_transport : TransportAnswer
default_transport = record {
  http_version = some http1_1;
  enable_web_socket = false;
  enable_sse = false;
  enable_grpc = false;
  request_compression = none;
  compression_min_bytes = none;
  compression_level = none;
  keep_alive_connections = none;
}

unfoldable pub normalize_upstream : UpstreamAnswer → UpstreamItem
unfolding decimal
normalize_upstream item = record {
  id = decimal item.id;
  name = item.name;
  description = item.description;
  architecture_type = or_else (or_option item.architecture_type item.type_alias) single_server;
  algorithm = or_else item.algorithm round_robin;
  servers = or_else item.servers [];
  external_fqdn = or_some_text item.external_fqdn item.external_fqdn_alias;
  sni_override = or_option item.sni_override item.sni_override_alias;
  dynamic_dns = or_option item.dynamic_dns item.dynamic_dns_alias;
  internal_ssl = or_else (or_option item.internal_ssl item.internal_ssl_alias) no_ssl_answer;
  probes = or_else item.probes [];
  transport = or_else item.transport default_transport;
  bound_domains_count =
      or_else (or_option item.bound_domains_count item.bound_domains_count_alias) 0;
  created_at = or_else (or_some_text item.created_at item.created_at_alias) "";
  updated_at = or_else (or_some_text item.updated_at item.updated_at_alias) "";
}
