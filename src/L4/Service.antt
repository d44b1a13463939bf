-- ===== src/L4/Service.antt =====
-- Creating and editing an L4 service: the state, the submission and the loading of
-- ui/src/pages/l4/create/page.tsx and ui/src/pages/l4/edit/page.tsx, with the payloads of
-- ui/src/lib/api/l4.ts. A submission runs up to the request; the answer is a later event.
pub mod Submit
pub mod Resubmit
mod Tests
use text.Mathlib.Text.{◌==◌ as str_eq}
use aurora_api_gateway.Prelude.{
  ℕ, zero, suc, String, Bool, true, false, ◌&&◌, ◌||◌, not, Option, none, some, List, [], ◌∷◌, ltb,
  if◌then◌else◌,
}
use aurora_api_gateway.Prelude.Int.{ℤ, pos, negsuc}
use aurora_api_gateway.Prelude.Text.{is_empty, trim, or_text, to_lower_case}
use aurora_api_gateway.L4.Acl.{
  AclRule, AclEditor, PageError, name_required, port_out_of_range, upstream_required,
  endpoint_required, failed, init_editor, sort_rules, set_rules,
}

pub data Protocol : Type 0 where
  tcp udp : Protocol

pub data TargetType : Type 0 where
  upstream endpoint : TargetType

-- `JSON.parse`, at the type of a list of rules, which throws on other text, and `JSON.stringify`.
pub record AclText : Type 0 where
  pub parse : String → Option (List AclRule)
  pub stringify : List AclRule → String

-- The form fields; an empty port field is `none`. The editor holds the message of the page.
pub record L4Form : Type 0 where
  pub name : String
  pub protocol : Protocol
  pub port : Option ℤ
  pub enabled : Bool
  pub description : String
  pub target_type : TargetType
  pub upstream_name : String
  pub endpoint_address : String
  pub acl : AclEditor
  pub proxy_timeout : String
  pub connect_timeout : String
  pub is_submitting : Bool
  pub location : String

unfoldable pub init_form : L4Form
unfolding init_editor
init_form = record {
  name = "";
  protocol = tcp;
  port = none;
  enabled = true;
  description = "";
  target_type = upstream;
  upstream_name = "";
  endpoint_address = "";
  acl = init_editor;
  proxy_timeout = "1h";
  connect_timeout = "5s";
  is_submitting = false;
  location = "/l4/create";
}

pub record L4Payload : Type 0 where
  pub name : String
  pub protocol : Protocol
  pub listen_port : ℕ
  pub forward_target_type : TargetType
  pub upstream_name : String
  pub direct_endpoint : String
  pub acl_rules_json : String
  pub proxy_timeout : String
  pub proxy_connect_timeout : String
  pub enabled : Bool
  pub description : String

pub data Checked : Type 0 where
  refused : PageError → Checked
  sent : L4Payload → Checked

-- `!port || port < 1 || port > 65535`, and the port when the test fails.
pub checked_port : Option ℤ → Option ℕ
checked_port none = none
checked_port (some (negsuc n)) = none
checked_port (some (pos n)) = if ltb n 1 || ltb 65535 n then none else some n

module _ (json : AclText) where
  pub l4_payload : L4Form → ℕ → String → String → L4Payload
  unfolding sort_rules
  l4_payload f port upstream_val endpoint_val = record {
    name = trim f.name;
    protocol = f.protocol;
    listen_port = port;
    forward_target_type = f.target_type;
    upstream_name = upstream_val;
    direct_endpoint = endpoint_val;
    acl_rules_json = json.stringify (sort_rules f.acl.rules);
    proxy_timeout = or_text (trim f.proxy_timeout) "1h";
    proxy_connect_timeout = or_text (trim f.connect_timeout) "5s";
    enabled = f.enabled;
    description = trim f.description;
  }

  check_target : L4Form → ℕ → TargetType → Checked
  unfolding l4_payload
  check_target f port upstream =
      if is_empty (trim f.upstream_name)
      then refused upstream_required
      else sent (l4_payload f port (trim f.upstream_name) "")
  check_target f port endpoint =
      if is_empty (trim f.endpoint_address)
      then refused endpoint_required
      else sent (l4_payload f port "" (trim f.endpoint_address))

  check_port : L4Form → Option ℕ → Checked
  unfolding check_target
  check_port f none = refused port_out_of_range
  check_port f (some port) = check_target f port f.target_type

  -- The checks of a submission, in their order, and the payload.
  unfoldable pub check_form : L4Form → Checked
  unfolding check_port checked_port
  check_form f =
      if is_empty (trim f.name) then refused name_required else check_port f (checked_port f.port)

-- `setErrorMsg`
abbrev pub with_error : L4Form → Option PageError → L4Form
with_error f e = record f { acl = record (f.acl) { error_msg = e } }

after_check : L4Form → Checked → L4Form × Option L4Payload
after_check f (refused e) = (with_error f (some e), none)
after_check f (sent p) = (record (with_error f none) { is_submitting = true }, some p)

-- `handleSubmit` up to the request: the state, and the request if one is made.
unfoldable pub handle_submit : AclText → L4Form → L4Form × Option L4Payload
unfolding after_check
handle_submit json f = after_check f (check_form json f)

-- The controller's answer: accepted, or an error with its message.
pub data Reply : Type 0 where
  accepted : Reply
  rejected : String → Reply

-- The rest of `handleSubmit` on the page that creates a service.
unfoldable pub settle : L4Form → Reply → L4Form
settle f accepted = record f { location = "/l4"; is_submitting = false }
settle f (rejected message) =
    record (with_error f (some (failed (or_text message "Failed to create L4 service")))) {
      is_submitting = false;
    }

-- The effect of the page that creates a service, once the names of the upstreams have arrived: the
-- first is chosen, unless the page is gone.
unfoldable pub load_upstreams : Bool → L4Form → List String → L4Form
load_upstreams mounted f [] = f
load_upstreams mounted f (first ∷ rest) = if mounted then record f { upstream_name = first } else f

-- A service as the controller returns it.
pub record L4ServiceItem : Type 0 where
  pub id : String
  pub name : String
  pub protocol : String
  pub listen_port : ℕ
  pub forward_target_type : String
  pub upstream_name : String
  pub direct_endpoint : String
  pub acl_rules_json : String
  pub proxy_timeout : String
  pub proxy_connect_timeout : String
  pub enabled : Bool
  pub description : String
  pub created_at : String
  pub updated_at : String

-- `parsedAcl`, empty when the text is no JSON, in falling order.
pub parsed_acl : Option (List AclRule) → List AclRule
unfolding sort_rules
parsed_acl none = []
parsed_acl (some rules) = sort_rules rules

-- `svc.forward_target_type === 'endpoint' || (!svc.upstream_name && svc.direct_endpoint)`
targets_endpoint : L4ServiceItem → Bool
targets_endpoint svc =
    str_eq svc.forward_target_type "endpoint"
    || (is_empty svc.upstream_name && not (is_empty svc.direct_endpoint))

-- The effect of the page that edits a service, once the service has arrived. The other target's
-- field keeps what it held.
unfoldable pub load_service : AclText → L4Form → L4ServiceItem → L4Form
unfolding parsed_acl targets_endpoint set_rules
load_service json f svc = record f {
  name = svc.name;
  protocol = if str_eq (to_lower_case svc.protocol) "udp" then udp else tcp;
  port = some (pos svc.listen_port);
  enabled = svc.enabled;
  description = svc.description;
  target_type = if targets_endpoint svc then endpoint else upstream;
  upstream_name = if targets_endpoint svc then f.upstream_name else svc.upstream_name;
  endpoint_address = if targets_endpoint svc then svc.direct_endpoint else f.endpoint_address;
  acl = set_rules f.acl (parsed_acl (json.parse (or_text svc.acl_rules_json "[]")));
  proxy_timeout = or_text svc.proxy_timeout "1h";
  connect_timeout = or_text svc.proxy_connect_timeout "5s";
}

-- The request carries the id of the service.
with_id : String → L4Form × Option L4Payload → L4Form × Option (String × L4Payload)
with_id id (f, none) = (f, none)
with_id id (f, some p) = (f, some (id, p))

-- `handleSubmit` of the page that edits a service: nothing happens without an id.
unfoldable pub handle_update :
    AclText → Option String → L4Form → L4Form × Option (String × L4Payload)
unfolding with_id
handle_update json none f = (f, none)
handle_update json (some id) f = with_id id (handle_submit json f)

-- The rest of it.
unfoldable pub settle_update : L4Form → Reply → L4Form
settle_update f accepted = record f { location = "/l4"; is_submitting = false }
settle_update f (rejected message) =
    record (with_error f (some (failed (or_text message "Failed to update L4 service")))) {
      is_submitting = false;
    }
