-- ===== src/L4/Service/Tests.antt =====
-- Submissions and the preview at concrete inputs.
use aurora_api_gateway.Prelude.{
  ◌≡◌, ◌↔◌, ◌⊎◌, refl, String, List, [], ◌∷◌, some, none, arith, true, false,
}
use aurora_api_gateway.Prelude.Int.{pos}
use aurora_api_gateway.Prelude.Text.{trim}
use aurora_api_gateway.L4.Acl.{AclRule, PageError, allow, sort_rules, port_out_of_range}
use aurora_api_gateway.L4.Service.{
  L4Form, L4Payload, AclText, check_form, sent, refused, handle_submit, with_error, load_service,
  upstream, udp,
}
use aurora_api_gateway.L4.Service.Submit.{
  IsPayloadOf, Refusal, check_form-IsPayloadOf, check_form-refused_iff, handle_submit-cases,
}
use aurora_api_gateway.L4.Service.Resubmit.{stored, check_form-load_service}
use aurora_api_gateway.L4.Preview.{
  acl_lines, acl_line, acl_heading, acl_lines_of_IsOrdered, nginx_preview,
}

-- The texts of the lists of rules that occur below.
abbrev json : AclText
json = record { parse = λ s. some []; stringify = λ rules. "[]" }

abbrev filled : L4Form
filled = record {
  name = " db ";
  protocol = udp;
  port = some (pos 5432);
  enabled = true;
  description = "";
  target_type = upstream;
  upstream_name = "pg";
  endpoint_address = "";
  acl = record {
    rules = [];
    new_priority = pos 1;
    new_cidr = "";
    new_action = allow;
    new_description = "";
    error_msg = none;
  };
  proxy_timeout = "";
  connect_timeout = "5s";
  is_submitting = false;
  location = "/l4/create";
}

abbrev filled_payload : L4Payload
filled_payload = record {
  name = "db";
  protocol = udp;
  listen_port = 5432;
  forward_target_type = upstream;
  upstream_name = "pg";
  direct_endpoint = "";
  acl_rules_json = "[]";
  proxy_timeout = "1h";
  proxy_connect_timeout = "5s";
  enabled = true;
  description = "";
}

filled_sent : check_form json filled ≡ sent filled_payload
unfolding check_form sort_rules trim
filled_sent = refl

preview :
    nginx_preview filled
    ≡ "server {\n    listen 5432 udp;\n    proxy_pass l4_pg;\n    proxy_connect_timeout 5s;\n}"
unfolding nginx_preview
preview = refl

check_form-IsPayloadOf_example : IsPayloadOf json filled filled_payload
check_form-IsPayloadOf_example = check_form-IsPayloadOf json filled filled_payload filled_sent

abbrev portless : L4Form
portless = record filled { port = none }

check_form-refused_iff_example :
    (check_form json portless ≡ refused port_out_of_range) ↔ Refusal portless port_out_of_range
check_form-refused_iff_example = check_form-refused_iff json portless port_out_of_range

handle_submit-cases_example :
    ((e : PageError) × Refusal filled e
      × (handle_submit json filled ≡ (with_error filled (some e), none)))
    ⊎ ((p : L4Payload) × IsPayloadOf json filled p
        × (handle_submit json filled
            ≡ (record (with_error filled none) { is_submitting = true }, some p)))
handle_submit-cases_example = handle_submit-cases json filled

abbrev office : AclRule
office = record { cidr = "10.0.0.0/8"; action = allow; priority = 7; description = none }

abbrev rules_text : List AclRule → String
rules_text [] = "[]"
rules_text (r ∷ rs) = "[office]"

-- The controller returns rules in a text of its own.
abbrev rewriting : AclText
rewriting = record { parse = λ s. some (office ∷ []); stringify = rules_text }

rewriting_sent : check_form rewriting filled ≡ sent filled_payload
unfolding check_form sort_rules trim
rewriting_sent = refl

check_form-load_service_example :
    check_form rewriting (load_service rewriting portless (stored "[ office ]" filled_payload))
    ≡ sent (record filled_payload { acl_rules_json = "[office]" })
unfolding sort_rules
check_form-load_service_example =
    check_form-load_service rewriting filled portless filled_payload "[ office ]" (office ∷ [])
      rewriting_sent refl refl

acl_lines_of_IsOrdered_example : acl_lines (office ∷ []) ≡ acl_heading ∷ acl_line office ∷ []
acl_lines_of_IsOrdered_example =
    acl_lines_of_IsOrdered office [] (record { falling = omega arith; positive = omega arith })
