-- ===== src/L4/Preview.antt =====
-- The preview of the NGINX stream block, `nginxPreview` in ui/src/pages/l4/create/page.tsx and
-- ui/src/pages/l4/edit/page.tsx.
use aurora_api_gateway.Prelude.{
  ℕ, String, Option, none, some, List, [], ◌∷◌, ◌++◌, map, ◌≡◌, ap, suc, if◌then◌else◌,
}
use aurora_api_gateway.Prelude.Int.{ℤ, pos, negsuc}
use aurora_api_gateway.Prelude.Text.{is_empty, or_text, decimal, concat, join}
use aurora_api_gateway.L4.Acl.{AclRule, AclAction, allow, deny, sort_rules}
use aurora_api_gateway.L4.Acl.Sort.{sort_rules_of_IsWeaklyDesc, IsDesc-IsWeaklyDesc}
use aurora_api_gateway.L4.Acl.Invariant.{IsOrdered}
use aurora_api_gateway.L4.Service.{L4Form, Protocol, tcp, udp, TargetType, upstream, endpoint}

abbrev pub action_text : AclAction → String
action_text allow = "allow"
action_text deny = "deny"

-- `${port || 0}`
port_text : Option ℤ → String
unfolding decimal
port_text none = "0"
port_text (some (pos n)) = decimal n
port_text (some (negsuc n)) = concat ("-" ∷ decimal (suc n) ∷ [])

udp_opt : Protocol → String
udp_opt udp = " udp"
udp_opt tcp = ""

-- A description that is missing or empty leaves the priority alone.
rule_comment : ℕ → Option String → String
unfolding decimal
rule_comment p none = concat (" # Priority " ∷ decimal p ∷ [])
rule_comment p (some d) =
    if is_empty d
    then concat (" # Priority " ∷ decimal p ∷ [])
    else concat (" # Priority " ∷ decimal p ∷ ": " ∷ d ∷ [])

pub acl_line : AclRule → String
unfolding rule_comment
acl_line r = concat (
    "    " ∷ action_text r.action ∷ " " ∷ r.cidr ∷ ";" ∷ rule_comment r.priority r.description ∷ [])

abbrev pub acl_heading : String
acl_heading = "    # Access Control List (Evaluated sequentially: first match wins)"

pub acl_lines : List AclRule → List String
unfolding sort_rules
acl_lines [] = []
acl_lines (r ∷ rs) = acl_heading ∷ map acl_line (sort_rules (r ∷ rs))

proxy_pass_line : L4Form → TargetType → String
proxy_pass_line f endpoint =
    concat ("    proxy_pass " ∷ or_text f.endpoint_address "127.0.0.1:0" ∷ ";" ∷ [])
proxy_pass_line f upstream =
    concat ("    proxy_pass l4_" ∷ or_text f.upstream_name "upstream_pool" ∷ ";" ∷ [])

timeout_lines : String → String → List String
timeout_lines directive value =
    if is_empty value then [] else concat ("    " ∷ directive ∷ " " ∷ value ∷ ";" ∷ []) ∷ []

pub preview_lines : L4Form → List String
unfolding port_text udp_opt acl_lines acl_line proxy_pass_line timeout_lines
preview_lines f =
    "server {"
    ∷ concat ("    listen " ∷ port_text f.port ∷ udp_opt f.protocol ∷ ";" ∷ [])
    ∷ (acl_lines f.acl.rules
        ++ (proxy_pass_line f f.target_type
            ∷ (timeout_lines "proxy_timeout" f.proxy_timeout
                ++ (timeout_lines "proxy_connect_timeout" f.connect_timeout ++ "}" ∷ []))))

unfoldable pub nginx_preview : L4Form → String
unfolding preview_lines join
nginx_preview f = join "\n" (preview_lines f)

-- For ordered rules the preview lists, under its heading, one line for each rule in the order in
-- which the editor holds them.
pub acl_lines_of_IsOrdered :
    (r : AclRule) (rs : List AclRule)
    → IsOrdered (r ∷ rs)
    → acl_lines (r ∷ rs) ≡ acl_heading ∷ acl_line r ∷ map acl_line rs
unfolding acl_lines
acl_lines_of_IsOrdered r rs v =
    ap (λ xs. acl_heading ∷ map acl_line xs)
      (sort_rules_of_IsWeaklyDesc (r ∷ rs) (IsDesc-IsWeaklyDesc (r ∷ rs) v.falling))
