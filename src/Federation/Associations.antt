-- ===== src/Federation/Associations.antt =====
-- Which gateways a probe is likely to have passed: internal/federation/probe_association_rules.go
-- with its helpers of internal/federation/store.go. Packages url and net, and the mapping of texts
-- to lower case, are arguments.
pub mod Hosts
pub mod Ranking
pub mod Rules
use gate_lens.Common.{
  ℕ, zero, suc, ◌+◌, String, ℤ, Bool, true, false, List, [], ◌∷◌, ◌++◌, map, Option, none, some,
  ◌==◌, ◌&&◌, ◌||◌, not, any, all, keep, concat, head?, length, is_empty, is_some, contains, ltb,
  if◌then◌else◌, ◌+++◌, trim_space, trim_suffix, has_suffix, has_prefix, after_prefix, cut, lookup,
  insert,
}
use gate_lens.Domain.Values.{
  ProbeInferenceConfidence, probe_inference_confidence_high, probe_inference_confidence_medium,
  probe_inference_confidence_low, probe_inference_confidence_ambiguous, topology_node_kind_registry,
  topology_node_kind_service, topology_node_kind_gateway,
}
use gate_lens.Domain.Hop.{ObservedHop}
use gate_lens.Domain.Topology.{Topology, TopologyNode, TopologyEdge, ProbeEntry}
use gate_lens.Observed.Values.{decimal}
use gate_lens.Federation.Owner.{node_at}
use gate_lens.Federation.Links.{values_with_prefixes}
use gate_lens.Federation.Probes.{ProbeGatewayTarget}
use gate_lens.Federation.Associations.Hosts.{
  HostLibrary, normalized_upstream_host, upstream_cluster_tokens,
}

abbrev pub strength_declared : ℕ
strength_declared = 100

abbrev pub strength_cluster : ℕ
strength_cluster = 200

abbrev pub strength_host : ℕ
strength_host = 300

-- probeAssociationMatch
pub record Match : Type 0 where
  pub gateway_id : String
  pub basis : String

-- probeAssociationRuleResult; the ambiguous basis is a format with one number.
pub record Association : Type 0 where
  pub matches : List Match
  pub confidence : ProbeInferenceConfidence
  pub strength : ℕ
  pub ambiguous_basis : String

-- probeAssociationContext, with its maps as lists that are searched.
pub record AssociationContext : Type 0 where
  pub topology : Topology
  pub targets : List ProbeGatewayTarget
  pub hops : List ObservedHop
  pub observed_gateway_ids : List (String × Bool)

-- An entry of the map `ranked`.
pub record Ranked : Type 0 where
  pub basis : String
  pub confidence : ProbeInferenceConfidence
  pub strength : ℕ

unfoldable pub entries_of : AssociationContext → String → List ProbeEntry
entries_of context gateway =
    keep (λ (entry : ProbeEntry). entry.gateway_id == gateway) context.topology.probe_entries

-- The map `nodesByID`: a later node of the same identity wins.
unfoldable pub index_by_id :
    List (String × TopologyNode) → List TopologyNode → List (String × TopologyNode)
index_by_id nodes [] = nodes
index_by_id nodes (node ∷ later) = index_by_id (insert node.id node nodes) later

unfoldable pub node_of : AssociationContext → String → TopologyNode
node_of context id = node_at (index_by_id [] context.topology.nodes) id

unfoldable pub forward_edges : AssociationContext → String → List TopologyEdge
forward_edges context id = keep (λ (edge : TopologyEdge). edge.from == id) context.topology.edges

unfoldable pub owned_nodes : AssociationContext → String → List TopologyNode
owned_nodes context gateway =
    if (node_of context gateway).kind == topology_node_kind_gateway
    then map (λ (edge : TopologyEdge). node_of context edge.to)
        (keep (λ (edge : TopologyEdge). edge.relation == "owns") (forward_edges context gateway))
    else []
