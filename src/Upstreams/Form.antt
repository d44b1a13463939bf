-- ===== src/Upstreams/Form.antt =====
-- Creating an upstream: the state and the submission of ui/src/pages/upstreams/create/page.tsx, with
-- the payload of ui/src/lib/api/upstreams.ts. A submission runs up to the request.
pub mod Sent
mod Tests
use aurora_api_gateway.Prelude.{
  String, Bool, true, false, ◌&&◌, Option, none, some, List, [], ◌∷◌, map, if◌then◌else◌,
}
use aurora_api_gateway.Prelude.Int.{ℤ, pos}
use aurora_api_gateway.Prelude.Text.{is_empty, trim, or_text}
use aurora_api_gateway.Upstreams.Name.{saved_name}
use aurora_api_gateway.Upstreams.Pool.{
  UpstreamNode, ProbeEditor, ProbeCheckItem, init_probes, blank_node,
}

pub data UpstreamType : Type 0 where
  single_server load_balancer external_fqdn : UpstreamType

pub data BalancingAlgorithm : Type 0 where
  round_robin least_conn ip_hash : BalancingAlgorithm

pub data HttpVersion : Type 0 where
  http1_1 http2 http3 http1_0 : HttpVersion

pub data RequestCompression : Type 0 where
  uncompressed gzip deflate : RequestCompression

-- The transport part of the state, as it is sent.
pub record TransportConfig : Type 0 where
  pub http_version : HttpVersion
  pub enable_web_socket : Bool
  pub enable_sse : Bool
  pub enable_grpc : Bool
  pub request_compression : RequestCompression
  pub compression_min_bytes : ℤ
  pub compression_level : ℤ
  pub keep_alive_connections : ℤ

-- The fields for TLS between the gateway and the servers.
pub record SslForm : Type 0 where
  pub enabled : Bool
  pub verify_cert : Bool
  pub sni_host : String
  pub custom_ca_enabled : Bool
  pub ca_cert : String
  pub ca_cert_file_name : String
  pub mtls : Bool
  pub client_cert : String
  pub client_cert_file_name : String
  pub client_key : String
  pub client_key_file_name : String

-- The fields that the two pages share.
pub record UpstreamForm : Type 0 where
  pub name : String
  pub description : String
  pub architecture_type : UpstreamType
  pub single_address : String
  pub algorithm : BalancingAlgorithm
  pub lb_servers : List UpstreamNode
  pub external_fqdn : String
  pub sni_override : Bool
  pub dynamic_dns : Bool
  pub ssl : SslForm
  pub transport : TransportConfig
  pub submitting : Bool
  pub error_msg : String
  pub location : String

pub record CreatePage : Type 0 where
  pub form : UpstreamForm
  pub probe_editor : ProbeEditor

abbrev pub init_ssl : SslForm
init_ssl = record {
  enabled = false;
  verify_cert = true;
  sni_host = "";
  custom_ca_enabled = false;
  ca_cert = "";
  ca_cert_file_name = "";
  mtls = false;
  client_cert = "";
  client_cert_file_name = "";
  client_key = "";
  client_key_file_name = "";
}

abbrev pub init_transport : TransportConfig
init_transport = record {
  http_version = http1_1;
  enable_web_socket = false;
  enable_sse = false;
  enable_grpc = false;
  request_compression = uncompressed;
  compression_min_bytes = pos 1024;
  compression_level = pos 6;
  keep_alive_connections = pos 32;
}

abbrev pub init_create_form : UpstreamForm
init_create_form = record {
  name = "";
  description = "";
  architecture_type = load_balancer;
  single_address = "";
  algorithm = round_robin;
  lb_servers = blank_node "node-1" ∷ [];
  external_fqdn = "";
  sni_override = true;
  dynamic_dns = true;
  ssl = init_ssl;
  transport = init_transport;
  submitting = false;
  error_msg = "";
  location = "/upstreams/create";
}

abbrev pub init_create_page : CreatePage
init_create_page = record { form = init_create_form; probe_editor = init_probes }

pub record SslPayload : Type 0 where
  pub enabled : Bool
  pub verify_cert : Bool
  pub sni_host : Option String
  pub ca_cert : Option String
  pub mtls : Bool
  pub client_cert_name : Option String
  pub client_cert : Option String
  pub client_key : Option String

pub record UpstreamPayload : Type 0 where
  pub name : String
  pub description : String
  pub architecture_type : UpstreamType
  pub algorithm : BalancingAlgorithm
  pub servers : List UpstreamNode
  pub external_fqdn : Option String
  pub sni_override : Option Bool
  pub dynamic_dns : Bool
  pub internal_ssl : SslPayload
  pub probes : List ProbeCheckItem
  pub transport : TransportConfig

-- `s.trim() || undefined`
abbrev pub trimmed_option : String → Option String
trimmed_option s = if is_empty (trim s) then none else some (trim s)

unfoldable pub ssl_payload : SslForm → SslPayload
unfolding trim
ssl_payload f = record {
  enabled = f.enabled;
  verify_cert = f.enabled && f.verify_cert;
  sni_host = if f.enabled then trimmed_option f.sni_host else none;
  ca_cert =
      if f.enabled && f.verify_cert && f.custom_ca_enabled then trimmed_option f.ca_cert else none;
  mtls = f.enabled && f.mtls;
  client_cert_name =
      if f.enabled && f.mtls
      then some (or_text f.client_cert_file_name "aurora-internal-client.crt")
      else none;
  client_cert = if f.enabled && f.mtls then trimmed_option f.client_cert else none;
  client_key = if f.enabled && f.mtls then trimmed_option f.client_key else none;
}

-- A value that is sent for an external upstream only.
abbrev pub of_external {ℓ} : {A : Type ℓ} → UpstreamType → A → Option A
of_external external_fqdn x = some x
of_external _ x = none

unfoldable pub upstream_payload :
    UpstreamForm → List UpstreamNode → List ProbeCheckItem → UpstreamPayload
unfolding saved_name ssl_payload trim
upstream_payload f servers probes = record {
  name = saved_name f.name;
  description = trim f.description;
  architecture_type = f.architecture_type;
  algorithm = f.algorithm;
  servers = servers;
  external_fqdn = of_external f.architecture_type (trim f.external_fqdn);
  sni_override = of_external f.architecture_type f.sni_override;
  dynamic_dns = f.dynamic_dns;
  internal_ssl = ssl_payload f.ssl;
  probes = probes;
  transport = f.transport;
}

-- A server that is not of a pool.
abbrev pub lone_node : String → String → UpstreamNode
lone_node id address = record {
  id = id;
  address = address;
  weight = pos 1;
  max_fails = none;
  fail_timeout = none;
  backup = none;
  healthy = false;
}

abbrev pub filled_node : UpstreamNode → UpstreamNode
filled_node s = record s { address = or_text (trim s.address) "127.0.0.1:8080" }

unfoldable pub final_servers : UpstreamForm → UpstreamType → List UpstreamNode
unfolding trim
final_servers f single_server =
    lone_node "node-single" (or_text (trim f.single_address) "127.0.0.1:8080") ∷ []
final_servers f load_balancer = map filled_node f.lb_servers
final_servers f external_fqdn =
    lone_node "node-ext" (or_text (trim f.external_fqdn) "origin.internal") ∷ []

unfoldable pub create_payload : CreatePage → UpstreamPayload
unfolding final_servers upstream_payload
create_payload p =
    upstream_payload p.form (final_servers p.form p.form.architecture_type) p.probe_editor.probes

abbrev pub submit_form : UpstreamForm → UpstreamForm
submit_form f = record f { submitting = true; error_msg = "" }

-- `handleCreate` up to the request: the state, and the payload if a request is made.
unfoldable pub handle_create : CreatePage → CreatePage × Option UpstreamPayload
unfolding create_payload
handle_create p =
    if is_empty (trim p.form.name)
    then (p, none)
    else (record p { form = submit_form p.form }, some (create_payload p))

-- The controller's answer: accepted, or an error with its message.
pub data Reply : Type 0 where
  accepted : Reply
  rejected : String → Reply

-- What the answer does to the fields that the two pages share; the text stands in for no message.
unfoldable pub settle_form : String → UpstreamForm → Reply → UpstreamForm
settle_form fallback f accepted = record f { submitting = false; location = "/upstreams" }
settle_form fallback f (rejected message) = record f {
  submitting = false;
  error_msg = or_text message fallback;
}

-- The rest of `handleCreate`.
unfoldable pub settle_create : CreatePage → Reply → CreatePage
unfolding settle_form
settle_create p r = record p {
  form = settle_form "Không thể kết nối hoặc lưu Upstream tới máy chủ Control-Plane" p.form r;
}
