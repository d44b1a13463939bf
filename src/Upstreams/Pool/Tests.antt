-- ===== src/Upstreams/Pool/Tests.antt =====
-- Pools and probes run through the code.
use aurora_api_gateway.Prelude.{some, ◌≡◌, refl, arith, List, [], ◌∷◌, length}
use aurora_api_gateway.Prelude.Int.{negsuc}
use aurora_api_gateway.Prelude.Text.{trim, decimal}
use aurora_api_gateway.Upstreams.Pool.{
  UpstreamNode, blank_node, PoolEvent, add_node, remove_node, pool_step, handle_remove_node,
  ProbeEvent, set_new_path, set_new_status, press_add, init_probes, probe_step,
}
use aurora_api_gateway.Upstreams.Pool.Invariant as Servers
use aurora_api_gateway.Upstreams.Pool.Checks as Probes

abbrev two_nodes : List UpstreamNode
two_nodes = blank_node "node-1" ∷ blank_node "node-2" ∷ []

two_nodes-IsPool : Servers.IsPool two_nodes
two_nodes-IsPool = record { distinct = (refl, (refl, tt)); occupied = omega arith }

abbrev pool_events : List PoolEvent
pool_events = remove_node "node-1" ∷ add_node 7 ∷ remove_node "node-2" ∷ remove_node "node-7" ∷ []

pool_events_fresh : Servers.FreshRun two_nodes pool_events
unfolding Servers.FreshRun pool_step decimal
pool_events_fresh = (tt, (refl, (tt, (tt, tt))))

pool_run : Servers.run two_nodes pool_events ≡ blank_node "node-7" ∷ []
unfolding Servers.run pool_step decimal
pool_run = refl

run-IsPool_example : Servers.IsPool (Servers.run two_nodes pool_events)
run-IsPool_example = Servers.run-IsPool two_nodes pool_events two_nodes-IsPool pool_events_fresh

abbrev three_nodes : List UpstreamNode
three_nodes = blank_node "node-1" ∷ blank_node "node-2" ∷ blank_node "node-3" ∷ []

three_nodes-IsPool : Servers.IsPool three_nodes
three_nodes-IsPool = record { distinct = (refl, (refl, (refl, tt))); occupied = omega arith }

handle_remove_node-append_example :
    handle_remove_node "node-2" three_nodes ≡ blank_node "node-1" ∷ blank_node "node-3" ∷ []
handle_remove_node-append_example =
    Servers.handle_remove_node-append (blank_node "node-1" ∷ []) (blank_node "node-2")
      (blank_node "node-3" ∷ []) three_nodes-IsPool (omega arith)

-- The status that is typed for the first probe is -5.
abbrev probe_events : List ProbeEvent
probe_events =
    set_new_status (some (negsuc 4))
    ∷ set_new_path " ready "
    ∷ press_add 1
    ∷ set_new_path "/ready"
    ∷ press_add 2
    ∷ []

-- The second press makes the same check as the first and adds nothing.
probe_run : length (Probes.run init_probes probe_events).probes ≡ 1
unfolding Probes.run probe_step trim
probe_run = refl

run-IsProbes_example : Probes.IsProbes (Probes.run init_probes probe_events).probes
run-IsProbes_example =
    Probes.run-IsProbes init_probes probe_events (record { distinct = tt; checks = tt })
