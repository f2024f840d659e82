-- ===== src/Federation/Links/Keys.antt =====
-- The candidates for links: the keys of nodes, and the whole discovery. `normalize_target` stands for
-- normalizeTarget of internal/federation/store.go, which parses addresses with packages net and url.
use gate_lens.Common.{
  ℕ, String, Bool, List, [], ◌∷◌, ◌==◌, ◌&&◌, ◌||◌, not, is_empty, contains, if◌then◌else◌, insert,
}
use gate_lens.Domain.Values.{
  topology_node_kind_gateway, topology_node_kind_listener, topology_node_kind_ingress,
  topology_node_kind_service, topology_node_kind_registry, topology_node_kind_transit_hop,
}
use gate_lens.Domain.Topology.{TopologyNode, TopologyEdge, Finding}
use gate_lens.Federation.Links.{
  LinkCandidate, LinkRuleContext, LinkRule, values_with_prefixes, entry_evidence, link_candidates,
  default_link_rules,
}

abbrev pub has_outbound_kind : TopologyNode → Bool
has_outbound_kind node =
    node.kind == topology_node_kind_transit_hop
    || node.kind == topology_node_kind_registry
    || node.kind == topology_node_kind_service

abbrev pub has_entry_kind : TopologyNode → Bool
has_entry_kind node =
    node.kind == topology_node_kind_gateway
    || node.kind == topology_node_kind_listener
    || node.kind == topology_node_kind_ingress

unfoldable pub entry_rank : TopologyNode → ℕ
entry_rank node =
    if node.kind == topology_node_kind_listener
    then 0
    else if node.kind == topology_node_kind_gateway
    then 1
    else 2

module _ (normalize_target : String → String) where
  -- The loop of `normalized`: new values that are neither empty nor "*", once each.
  unfoldable pub normalized_from : List String → List String → List String
  normalized_from seen [] = []
  normalized_from seen (value ∷ values) =
      let target = normalize_target value in
      let new = not (target == "") && not (target == "*") && not (contains seen target) in
      let rest = normalized_from (if new then target ∷ seen else seen) values in
      if new then target ∷ rest else rest

  unfoldable pub normalized : List String → List String
  unfolding normalized_from
  normalized values = normalized_from [] values

  unfoldable pub outbound_keys : TopologyNode → List String
  outbound_keys node =
      if has_outbound_kind node
      then normalized
          (values_with_prefixes node.conditions ("Destination=" ∷ "Domain=" ∷ "ExternalName=" ∷ []))
      else []

  unfoldable pub entry_keys : TopologyNode → List String
  entry_keys node =
      if has_entry_kind node
      then normalized (values_with_prefixes node.conditions ("Address=" ∷ "Hostname=" ∷ []))
      else []

  abbrev pub outbound_candidate : TopologyNode → LinkCandidate
  outbound_candidate node = record {
    node = node;
    keys = outbound_keys node;
    rank = 0;
    evidence = "";
  }

  abbrev pub entry_candidate : TopologyNode → LinkCandidate
  entry_candidate node = record {
    node = node;
    keys = entry_keys node;
    rank = entry_rank node;
    evidence = entry_evidence node;
  }

  -- The loop over the nodes fills three variables; here each has a function.
  unfoldable pub outbound : List TopologyNode → List LinkCandidate
  outbound [] = []
  outbound (node ∷ nodes) =
      if is_empty (outbound_keys node)
      then outbound nodes
      else outbound_candidate node ∷ outbound nodes

  unfoldable pub entries : List TopologyNode → List LinkCandidate
  entries [] = []
  entries (node ∷ nodes) =
      if is_empty (entry_keys node) then entries nodes else entry_candidate node ∷ entries nodes

  unfoldable pub index_nodes :
      List (String × TopologyNode) → List TopologyNode → List (String × TopologyNode)
  index_nodes found [] = found
  index_nodes found (node ∷ nodes) = index_nodes (insert node.id node found) nodes

  unfoldable pub link_context : List TopologyNode → List TopologyEdge → LinkRuleContext
  link_context nodes existing = record {
    nodes_by_id = index_nodes [] nodes;
    edges = existing;
    entries = entries nodes;
  }

  unfoldable pub discover_links_with_rules :
      List TopologyNode → List TopologyEdge → List LinkRule → List TopologyEdge × List Finding
  discover_links_with_rules nodes existing rules =
      link_candidates (outbound nodes) (link_context nodes existing) rules

  unfoldable pub discover_links :
      List TopologyNode → List TopologyEdge → List TopologyEdge × List Finding
  unfolding discover_links_with_rules
  discover_links nodes existing = discover_links_with_rules nodes existing default_link_rules
