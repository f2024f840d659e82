-- ===== src/Federation/Links/Examples.antt =====
-- A registry of one cluster that names a gateway of another, through internal/federation/link_rules.go.
use gate_lens.Common.{map, after_prefix, lookup, insert, String, [], ◌∷◌, ◌≡◌, refl, All}
use gate_lens.Domain.Values.{
  topology_node_kind_gateway, topology_node_kind_listener, topology_node_kind_registry,
}
use gate_lens.Domain.Topology.{TopologyNode, TopologyEdge}
use gate_lens.Samples.{blank_node}
use gate_lens.Federation.Links.{
  LinkCandidate, LinkRuleContext, strip_prefixes, values_with_prefixes, transport_of, intersect,
  edge_exists, is_skipped, match_key, best_from, best_entry_matches, selecting_node, select_from,
  ingress_selecting_registry, match_higress_mcp_bridge, match_exact_configuration, link_to, report,
  apply_rules, link_candidates,
}
use gate_lens.Federation.Links.Keys.{
  entry_rank, normalized_from, normalized, outbound_keys, entry_keys, outbound, entries,
  index_nodes, discover_links_with_rules, link_context, discover_links,
}
use gate_lens.Federation.Links.Matches.{all_matches, of_rank, lowest, best_entry_matches_lem}
use gate_lens.Federation.Links.Discovered.{IsLink, discover_links-IsLink}

abbrev registry : TopologyNode
registry = record blank_node {
  id = "a::r";
  cluster_id = "a";
  kind = topology_node_kind_registry;
  source = "McpBridge.spec.registries";
  conditions = "Domain=gw.example.com" ∷ [];
}

abbrev gateway : TopologyNode
gateway = record blank_node {
  id = "b::g";
  cluster_id = "b";
  kind = topology_node_kind_gateway;
  conditions = "Hostname=gw.example.com" ∷ [];
}

abbrev listener : TopologyNode
listener = record gateway { id = "b::l"; kind = topology_node_kind_listener }

abbrev as_written : String → String
as_written address = address

abbrev candidate : LinkCandidate
candidate = record { node = registry; keys = "gw.example.com" ∷ []; rank = 0; evidence = "" }

abbrev context : LinkRuleContext
context = record {
  nodes_by_id = [];
  edges = [];
  entries =
      record { node = gateway; keys = "gw.example.com" ∷ []; rank = 1; evidence = "" }
      ∷ record { node = listener; keys = "gw.example.com" ∷ []; rank = 0; evidence = "" }
      ∷ [];
}

best_entry_matches_lem_example :
    let all = all_matches candidate context context.entries in
    best_entry_matches candidate context ≡ of_rank (lowest 99 all) all
best_entry_matches_lem_example = best_entry_matches_lem candidate context

discover_links-IsLink_example :
    let nodes = registry ∷ gateway ∷ listener ∷ [] in
    All
      (IsLink (outbound as_written nodes) (link_context as_written nodes []))
      (discover_links as_written nodes []).0
discover_links-IsLink_example =
    discover_links-IsLink as_written (registry ∷ gateway ∷ listener ∷ []) []

-- The listener is preferred to the gateway.
registry_linked :
    map
      (λ (edge : TopologyEdge). edge.to)
      (discover_links as_written (registry ∷ gateway ∷ listener ∷ []) []).0
    ≡ "b::l" ∷ []
unfolding after_prefix strip_prefixes values_with_prefixes transport_of intersect edge_exists
    is_skipped match_key best_from best_entry_matches selecting_node select_from
    ingress_selecting_registry match_higress_mcp_bridge match_exact_configuration link_to report
    apply_rules link_candidates entry_rank normalized_from normalized outbound_keys entry_keys
    outbound entries index_nodes link_context discover_links_with_rules discover_links lookup insert
registry_linked = refl
