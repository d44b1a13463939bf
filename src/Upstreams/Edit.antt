-- ===== src/Upstreams/Edit.antt =====
-- Editing an upstream: the loading and the submission of ui/src/pages/upstreams/edit/page.tsx, and
-- its handlers for probes.
pub mod Tls
pub mod Resubmit
mod Tests
use aurora_api_gateway.Prelude.{
  ℕ, zero, suc, String, Bool, true, false, ◌&&◌, Option, none, some, List, [], ◌∷◌, ◌++◌, keep, not,
  map, if◌then◌else◌,
}
use aurora_api_gateway.Prelude.Int.{ℤ, pos}
use aurora_api_gateway.Prelude.Text.{is_empty, trim, or_text, decimal}
use text.Mathlib.Text.{◌==◌ as str_eq}
use aurora_api_gateway.Upstreams.Pool.{
  UpstreamNode, ProbeCheckItem, ProbeType, health, or_number, parsed_or,
}
use aurora_api_gateway.Upstreams.Form.{
  UpstreamType, single_server, load_balancer, external_fqdn, BalancingAlgorithm, round_robin,
  least_conn, HttpVersion, http1_1, RequestCompression, uncompressed, TransportConfig, SslForm,
  UpstreamForm, UpstreamPayload, upstream_payload, lone_node, submit_form, Reply, settle_form,
  accepted, rejected, init_ssl,
}
use aurora_api_gateway.Upstreams.Answer.{SslAnswer, TransportAnswer, UpstreamItem, or_else}

pub record EditPage : Type 0 where
  pub form : UpstreamForm
  pub probes : List ProbeCheckItem
  pub client_key_configured : Bool
  pub loading : Bool
  pub load_error : String
  pub initial_name : String
  pub bound_domains_count : ℕ

abbrev pub init_edit_form : UpstreamForm
init_edit_form = record {
  name = "";
  description = "";
  architecture_type = load_balancer;
  single_address = "";
  algorithm = least_conn;
  lb_servers = [];
  external_fqdn = "";
  sni_override = true;
  dynamic_dns = true;
  ssl = record init_ssl { verify_cert = false };
  transport = record {
    http_version = http1_1;
    enable_web_socket = true;
    enable_sse = true;
    enable_grpc = false;
    request_compression = uncompressed;
    compression_min_bytes = pos 1024;
    compression_level = pos 6;
    keep_alive_connections = pos 32;
  };
  submitting = false;
  error_msg = "";
  location = "/upstreams/edit";
}

abbrev pub init_edit_page : EditPage
init_edit_page = record {
  form = init_edit_form;
  probes = [];
  client_key_configured = false;
  loading = true;
  load_error = "";
  initial_name = "";
  bound_domains_count = 0;
}

abbrev pub text_or {ℓ} : {A : Type ℓ} → Option String → A → (String → A) → A
text_or none x f = x
text_or (some s) x f = if is_empty s then x else f s

-- `items[0]?.address || ''`
abbrev pub first_address : List UpstreamNode → String
first_address [] = ""
first_address (s ∷ ss) = s.address

-- The fields of the type that the upstream has; those of the other types keep what they held.
abbrev pub load_single : List UpstreamNode → UpstreamForm → UpstreamForm
load_single [] f = f
load_single (s ∷ ss) f = record f { single_address = s.address }

abbrev pub load_servers : List UpstreamNode → UpstreamForm → UpstreamForm
load_servers [] f = f
load_servers (s ∷ ss) f = record f { lb_servers = s ∷ ss }

abbrev pub load_target : UpstreamItem → UpstreamType → UpstreamForm → UpstreamForm
load_target item single_server f = load_single item.servers f
load_target item load_balancer f = load_servers item.servers f
load_target item external_fqdn f = record f {
  external_fqdn = text_or item.external_fqdn (first_address item.servers) (λ s. s);
  sni_override = or_else item.sni_override true;
  dynamic_dns = or_else item.dynamic_dns true;
}

-- What was held for a certificate stays where the upstream has none.
abbrev pub load_ssl : SslAnswer → SslForm → SslForm
load_ssl a f = record f {
  enabled = a.enabled;
  verify_cert = a.verify_cert;
  sni_host = or_else a.sni_host "";
  custom_ca_enabled = text_or a.ca_cert f.custom_ca_enabled (λ s. true);
  ca_cert = text_or a.ca_cert f.ca_cert (λ s. s);
  ca_cert_file_name = text_or a.ca_cert f.ca_cert_file_name (λ s. "internal-ca.crt");
  mtls = a.mtls;
  client_cert = text_or a.client_cert f.client_cert (λ s. s);
  client_cert_file_name =
      text_or a.client_cert f.client_cert_file_name
        (λ s. text_or a.client_cert_name "client.crt" (λ n. n));
  client_key = "";
}

abbrev pub load_transport : TransportAnswer → TransportConfig
load_transport a = record {
  http_version = or_else a.http_version http1_1;
  enable_web_socket = a.enable_web_socket;
  enable_sse = a.enable_sse;
  enable_grpc = a.enable_grpc;
  request_compression = or_else a.request_compression uncompressed;
  compression_min_bytes = or_else a.compression_min_bytes (pos 1024);
  compression_level = or_else a.compression_level (pos 6);
  keep_alive_connections = or_number (or_else a.keep_alive_connections (pos 0)) (pos 32);
}

abbrev pub load_probes : List ProbeCheckItem → List ProbeCheckItem → List ProbeCheckItem
load_probes held [] = held
load_probes held (p ∷ ps) = p ∷ ps

abbrev pub load_form : UpstreamItem → UpstreamForm → UpstreamForm
load_form item f = load_target item item.architecture_type (record f {
  name = item.name;
  description = or_else item.description "";
  architecture_type = item.architecture_type;
  algorithm = item.algorithm;
  ssl = load_ssl item.internal_ssl f.ssl;
  transport = load_transport item.transport;
})

-- What the request for the upstream comes back with.
pub data Loaded : Type 0 where
  found : UpstreamItem → Loaded
  missing : String → Loaded

-- The effect of the page: without an id it reports that, else it asks for the upstream.
unfoldable pub start_loading : Option String → EditPage → EditPage
start_loading none p = record p { load_error = "Missing upstream ID"; loading = false }
start_loading (some id) p = record p { loading = true; load_error = "" }

unfoldable pub load_upstream : EditPage → Loaded → EditPage
load_upstream p (found item) = record p {
  form = load_form item p.form;
  probes = load_probes p.probes item.probes;
  client_key_configured = item.internal_ssl.client_key_configured;
  initial_name = item.name;
  bound_domains_count = item.bound_domains_count;
  loading = false;
}
load_upstream p (missing message) = record p {
  load_error = or_text message "Không tìm thấy hoặc không thể tải cấu hình Upstream";
  loading = false;
}

abbrev added_probe : ℕ → ProbeCheckItem
added_probe now = record {
  id = decimal now;
  kind = health;
  path = "/health";
  expected_status = some (pos 200);
  interval_sec = some (pos 10);
  timeout_sec = some (pos 3);
}

-- `addProbe`
unfoldable pub add_probe_row : ℕ → List ProbeCheckItem → List ProbeCheckItem
add_probe_row now probes = probes ++ (added_probe now ∷ [])

-- `removeProbe`
unfoldable pub remove_probe_row : String → List ProbeCheckItem → List ProbeCheckItem
remove_probe_row id probes = keep (λ p. not (str_eq p.id id)) probes

-- What the inputs of a row hand to `updateProbe`.
pub data ProbeChange : Type 0 where
  change_type : ProbeType → ProbeChange
  change_path : String → ProbeChange
  change_status : Option ℤ → ProbeChange
  change_interval : Option ℤ → ProbeChange

pub change_probe : ProbeChange → ProbeCheckItem → ProbeCheckItem
change_probe (change_type kind) p = record p { kind = kind }
change_probe (change_path path) p = record p { path = path }
change_probe (change_status n) p = record p { expected_status = some (parsed_or n (pos 200)) }
change_probe (change_interval n) p = record p { interval_sec = some (parsed_or n (pos 5)) }

-- `updateProbe`
unfoldable pub update_probe_row : String → ProbeChange → List ProbeCheckItem → List ProbeCheckItem
unfolding change_probe
update_probe_row id change probes =
    map (λ p. if str_eq p.id id then change_probe change p else p) probes

abbrev pub trimmed_node : UpstreamNode → UpstreamNode
trimmed_node s = record s { address = trim s.address }

pub updated_servers : UpstreamForm → UpstreamType → List UpstreamNode
unfolding trim
updated_servers f single_server = lone_node "single-1" (trim f.single_address) ∷ []
updated_servers f load_balancer = map trimmed_node f.lb_servers
updated_servers f external_fqdn = lone_node "ext-1" (trim f.external_fqdn) ∷ []

abbrev pub updated_probe : ProbeCheckItem → ProbeCheckItem
updated_probe p = record p {
  expected_status = some (or_number (or_else p.expected_status (pos 0)) (pos 200));
}

pub update_payload : EditPage → UpstreamPayload
unfolding updated_servers upstream_payload
update_payload p =
    upstream_payload p.form (updated_servers p.form p.form.architecture_type)
      (map updated_probe p.probes)

-- `handleUpdate` up to the request, which carries the id.
unfoldable pub handle_update :
    Option String → EditPage → EditPage × Option (String × UpstreamPayload)
unfolding update_payload
handle_update none p = (p, none)
handle_update (some id) p =
    if is_empty (trim p.form.name)
    then (p, none)
    else (record p { form = submit_form p.form }, some (id, update_payload p))

-- The rest of `handleUpdate`.
unfoldable pub settle_update : EditPage → Reply → EditPage
unfolding settle_form
settle_update p r = record p {
  form = settle_form "Không thể lưu thay đổi Upstream tới máy chủ Control-Plane" p.form r;
}
