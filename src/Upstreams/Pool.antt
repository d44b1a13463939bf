-- ===== src/Upstreams/Pool.antt =====
-- The servers and the probes of an upstream, and the handlers that edit them: those of
-- ui/src/pages/upstreams/create/page.tsx, and those of ui/src/pages/upstreams/edit/page.tsx that differ.
pub mod Invariant
pub mod Checks
mod Tests
use text.Mathlib.Text.{◌==◌ as str_eq}
use Prim.Native.Char.{Char, code}
use Prim.Native.String.{char_at}
use aurora_api_gateway.Prelude.{
  ℕ, zero, suc, String, Bool, true, false, ◌&&◌, ◌||◌, not, Option, none, some, List, [], ◌∷◌, ◌++◌,
  map, leb, ◌==◌, if◌then◌else◌, length, keep, any,
}
use aurora_api_gateway.Prelude.Int.{ℤ, pos, negsuc}
use aurora_api_gateway.Prelude.Text.{slash, starts_with_slash, is_empty, trim, concat, decimal}

pub record UpstreamNode : Type 0 where
  pub id : String
  pub address : String
  pub weight : ℤ
  pub max_fails : Option ℤ
  pub fail_timeout : Option String
  pub backup : Option Bool
  pub healthy : Bool

pub data ProbeType : Type 0 where
  readiness liveness health : ProbeType

pub record ProbeCheckItem : Type 0 where
  pub id : String
  pub kind : ProbeType
  pub path : String
  pub expected_status : Option ℤ
  pub interval_sec : Option ℤ
  pub timeout_sec : Option ℤ

-- `===` on the types of probes.
abbrev pub same_type : ProbeType → ProbeType → Bool
same_type readiness readiness = true
same_type liveness liveness = true
same_type health health = true
same_type _ _ = false

-- `n || fallback`
abbrev pub or_number : ℤ → ℤ → ℤ
or_number (pos zero) fallback = fallback
or_number (pos (suc n)) fallback = pos (suc n)
or_number (negsuc n) fallback = negsuc n

-- `parseInt(text) || fallback`, of a number that was parsed, if one was; it may be negative.
abbrev pub parsed_or : Option ℤ → ℤ → ℤ
parsed_or none fallback = fallback
parsed_or (some n) fallback = or_number n fallback

-- What the inputs of a row hand to `handleUpdateNode`.
pub data NodeChange : Type 0 where
  set_address : String → NodeChange
  set_weight : Option ℤ → NodeChange
  set_max_fails : Option ℤ → NodeChange
  set_fail_timeout : String → NodeChange
  set_backup : Bool → NodeChange

-- `{ ...node, ...updates }`
pub change_node : NodeChange → UpstreamNode → UpstreamNode
change_node (set_address s) node = record node { address = s }
change_node (set_weight n) node = record node { weight = parsed_or n (pos 1) }
change_node (set_max_fails n) node = record node { max_fails = some (parsed_or n (pos 3)) }
change_node (set_fail_timeout s) node = record node { fail_timeout = some s }
change_node (set_backup b) node = record node { backup = some b }

abbrev pub stamped : String → ℕ → String
stamped kind now = concat (kind ∷ decimal now ∷ [])

abbrev pub blank_node : String → UpstreamNode
blank_node id = record {
  id = id;
  address = "";
  weight = pos 1;
  max_fails = some (pos 3);
  fail_timeout = some "10s";
  backup = some false;
  healthy = false;
}

-- The time is `Date.now()`.
unfoldable pub handle_add_node : ℕ → List UpstreamNode → List UpstreamNode
handle_add_node now servers = servers ++ (blank_node (stamped "node-" now) ∷ [])

update_node : String → NodeChange → UpstreamNode → UpstreamNode
unfolding change_node
update_node id change node = if str_eq node.id id then change_node change node else node

unfoldable pub handle_update_node : String → NodeChange → List UpstreamNode → List UpstreamNode
unfolding update_node
handle_update_node id change servers = map (update_node id change) servers

unfoldable pub handle_remove_node : String → List UpstreamNode → List UpstreamNode
handle_remove_node id servers =
    if leb (length servers) 1 then servers else keep (λ node. not (str_eq node.id id)) servers

-- `addLbServer` of the page that edits an upstream.
unfoldable pub add_lb_server : ℕ → List UpstreamNode → List UpstreamNode
add_lb_server now servers =
    servers
    ++ (record (blank_node (decimal now)) { address = "10.0.1.11:8080"; backup = none } ∷ [])

-- The probes and the fields for a new one.
pub record ProbeEditor : Type 0 where
  pub probes : List ProbeCheckItem
  pub new_type : ProbeType
  pub new_path : String
  pub new_status : ℤ

abbrev pub init_probes : ProbeEditor
init_probes = record { probes = []; new_type = readiness; new_path = ""; new_status = pos 200 }

formatted : String → String
unfolding starts_with_slash
formatted path = if starts_with_slash path then path else String.◌∷◌ slash path

-- `p.path === formatted && p.type === newProbeType`
pub same_check : ProbeType → String → ProbeCheckItem → Bool
same_check kind path p = str_eq p.path path && same_type p.kind kind

abbrev pub new_probe : ℕ → String → ProbeEditor → ProbeCheckItem
new_probe now path e = record {
  id = stamped "probe-" now;
  kind = e.new_type;
  path = path;
  expected_status = some (or_number e.new_status (pos 200));
  interval_sec = some (pos 10);
  timeout_sec = some (pos 3);
}

add_probe : ℕ → String → ProbeEditor → ProbeEditor
unfolding same_check
add_probe now path e =
    if any (same_check e.new_type path) e.probes
    then e
    else record e { probes = e.probes ++ (new_probe now path e ∷ []); new_path = "" }

unfoldable pub handle_add_probe : ℕ → ProbeEditor → ProbeEditor
unfolding add_probe formatted trim
handle_add_probe now e =
    if is_empty (trim e.new_path) then e else add_probe now (formatted (trim e.new_path)) e

unfoldable pub handle_remove_probe : String → ProbeEditor → ProbeEditor
handle_remove_probe id e = record e { probes = keep (λ p. not (str_eq p.id id)) e.probes }

-- The events of the page that creates an upstream; an event that adds something carries the time.
pub data PoolEvent : Type 0 where
  add_node : ℕ → PoolEvent
  update : String → NodeChange → PoolEvent
  remove_node : String → PoolEvent

unfoldable pub pool_step : List UpstreamNode → PoolEvent → List UpstreamNode
unfolding handle_add_node handle_update_node handle_remove_node
pool_step servers (add_node now) = handle_add_node now servers
pool_step servers (update id change) = handle_update_node id change servers
pool_step servers (remove_node id) = handle_remove_node id servers

pub data ProbeEvent : Type 0 where
  set_new_type : ProbeType → ProbeEvent
  set_new_path : String → ProbeEvent
  set_new_status : Option ℤ → ProbeEvent
  press_add : ℕ → ProbeEvent
  remove_probe : String → ProbeEvent

unfoldable pub probe_step : ProbeEditor → ProbeEvent → ProbeEditor
unfolding handle_add_probe handle_remove_probe
probe_step e (set_new_type kind) = record e { new_type = kind }
probe_step e (set_new_path path) = record e { new_path = path }
probe_step e (set_new_status n) = record e { new_status = parsed_or n (pos 200) }
probe_step e (press_add now) = handle_add_probe now e
probe_step e (remove_probe id) = handle_remove_probe id e
