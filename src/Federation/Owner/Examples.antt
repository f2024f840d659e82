-- ===== src/Federation/Owner/Examples.antt =====
-- A route behind a listener of a gateway, through owningGateway of internal/federation/store.go.
use gate_lens.Common.{
  arith, String, true, false, List, [], ◌∷◌, ◌≡◌, ◌≢◌, refl, sym, ◌∙◌, eq_iff, lookup,
}
use gate_lens.Domain.Values.{
  topology_node_kind_gateway, topology_node_kind_listener, topology_node_kind_http_route,
}
use gate_lens.Domain.Topology.{TopologyNode, TopologyEdge}
use gate_lens.Federation.Owner.{zero_node, node_at, scan, search, owning_gateway_in, owning_gateway}
use gate_lens.Federation.Owner.Found.{IsOwner, owning_gateway-IsOwner, owning_gateway_enough}

abbrev nodes : List (String × TopologyNode)
nodes =
    ("c::g", record zero_node { id = "c::g"; cluster_id = "c"; kind = topology_node_kind_gateway })
    ∷ (
      "c::l",
      record zero_node { id = "c::l"; cluster_id = "c"; kind = topology_node_kind_listener },
    )
    ∷ (
      "c::r",
      record zero_node { id = "c::r"; cluster_id = "c"; kind = topology_node_kind_http_route },
    )
    ∷ []

abbrev edge_to : String → String → TopologyEdge
edge_to source target = record {
  «from» = source;
  to = target;
  relation = "attaches";
  transport = "";
  destination = "";
  state = "";
  evidence = "";
}

abbrev edges : List TopologyEdge
edges = edge_to "c::g" "c::l" ∷ edge_to "c::l" "c::r" ∷ []

route_owner : owning_gateway nodes edges "c::r" ≡ "c::g"
unfolding lookup node_at scan search owning_gateway_in owning_gateway
route_owner = refl

route_kind : (node_at nodes "c::r").kind ≡ topology_node_kind_http_route
unfolding lookup node_at
route_kind = refl

route_kind-apart : (node_at nodes "c::r").kind ≢ topology_node_kind_gateway
route_kind-apart same =
    let clash : false ≡ true =
      (eq_iff topology_node_kind_http_route topology_node_kind_gateway).1 (sym route_kind ∙ same) in
    cc

owner_named : owning_gateway nodes edges "c::r" ≢ ""
owner_named same = let clash : false ≡ true = (eq_iff "c::g" "").1 (sym route_owner ∙ same) in cc

owning_gateway-IsOwner_example :
    IsOwner nodes edges (node_at nodes "c::r").cluster_id "c::r" (owning_gateway nodes edges "c::r")
owning_gateway-IsOwner_example =
    owning_gateway-IsOwner nodes edges "c::r" route_kind-apart owner_named

owning_gateway_enough_example :
    owning_gateway_in 200 nodes edges "c::r" ≡ owning_gateway nodes edges "c::r"
owning_gateway_enough_example = owning_gateway_enough nodes edges "c::r" 200 (omega arith)
