-- ===== src/Federation/Probes/Targets.antt =====
-- The gateways that a probe may pass: discoverProbeGatewayTargets, discoverDeclaredProbeGatewayTargets
-- and targetForGateway of internal/federation/store.go. The search runs 4097 rounds at most, which is
-- enough: it stops once it has visited more than 4096 nodes, and takes each visited node once.
pub mod Away
pub mod Observable
mod Examples
use gate_lens.Common.{
  ℕ, zero, suc, String, Bool, true, false, List, [], ◌∷◌, ◌++◌, Option, none, some, ◌==◌, ◌&&◌,
  ◌||◌, not, keep, any, leb, length, contains, if◌then◌else◌, string_ltb, lookup, insert,
}
use gate_lens.Domain.Values.{topology_node_kind_gateway}
use gate_lens.Domain.Topology.{Topology, TopologyNode, TopologyEdge, TopologyCluster, Snapshot}
use gate_lens.Federation.Ids.{local_id}
use gate_lens.Federation.Owner.{node_at, owning_gateway}
use gate_lens.Federation.Associations.{index_by_id}
use gate_lens.Federation.Probes.{ProbeGatewayTarget}

pub gateway_has_observable_runtime : TopologyNode → Bool
gateway_has_observable_runtime node =
    node.kind == topology_node_kind_gateway && contains node.conditions "EnvoyConfig=available"

abbrev pub zero_snapshot : Snapshot
zero_snapshot = record { id = ""; observed_at = ""; state = "" }

-- The map `snapshots`: a later cluster of the same identity wins.
pub snapshot_of : List TopologyCluster → String → Snapshot → Snapshot
snapshot_of [] id found = found
snapshot_of (cluster ∷ clusters) id found =
    snapshot_of clusters id (if cluster.id == id then cluster.snapshot else found)

-- A target without a link.
pub plain_target : List TopologyCluster → TopologyNode → ProbeGatewayTarget
plain_target clusters gateway =
    let snapshot = snapshot_of clusters gateway.cluster_id zero_snapshot in
    record {
      cluster_id = gateway.cluster_id;
      gateway_id = local_id gateway.cluster_id gateway.id;
      global_id = gateway.id;
      gateway_name = gateway.name;
      snapshot_id = snapshot.id;
      observed_at = snapshot.observed_at;
      transport = "";
      destination = "";
      declared = false;
      predecessor_gateway_id = "";
    }

-- The order of the edges of a node.
pub edge_before : TopologyEdge → TopologyEdge → Bool
edge_before left right =
    if left.relation == right.relation
    then string_ltb left.to right.to
    else string_ltb left.relation right.relation

pub insert_edge : TopologyEdge → List TopologyEdge → List TopologyEdge
insert_edge edge [] = edge ∷ []
insert_edge edge (x ∷ xs) = if edge_before x edge then x ∷ insert_edge edge xs else edge ∷ x ∷ xs

pub sort_edges : List TopologyEdge → List TopologyEdge
sort_edges [] = []
sort_edges (edge ∷ edges) = insert_edge edge (sort_edges edges)

-- `forward[id]`
pub forward_of : List TopologyEdge → String → List TopologyEdge
forward_of edges id = sort_edges (keep (λ (edge : TopologyEdge). edge.from == id) edges)

-- The variables of the search.
pub record Search : Type 0 where
  pub queue : List String
  pub visited : List String
  pub seen_gateways : List String
  pub targets : List ProbeGatewayTarget

pub visit : String → Search → Search
visit id s =
    if contains s.visited id
    then s
    else record s { queue = s.queue ++ id ∷ []; visited = id ∷ s.visited }

module _ (topology : Topology) where
  abbrev pub nodes_of : List (String × TopologyNode)
  nodes_of = index_by_id [] topology.nodes

  -- The target that a link between clusters declares.
  pub declared_target : TopologyEdge → String → ProbeGatewayTarget
  declared_target edge gateway_id =
      let gateway = node_at nodes_of gateway_id in
      let snapshot = snapshot_of topology.clusters gateway.cluster_id zero_snapshot in
      record {
        cluster_id = gateway.cluster_id;
        gateway_id = local_id gateway.cluster_id gateway_id;
        global_id = gateway_id;
        gateway_name = gateway.name;
        snapshot_id = snapshot.id;
        observed_at = snapshot.observed_at;
        transport = edge.transport;
        destination = edge.destination;
        declared = true;
        predecessor_gateway_id = owning_gateway nodes_of topology.edges edge.from;
      }

  -- A gateway that a link leads to is a target once.
  pub add_declared : TopologyEdge → String → Search → Search
  add_declared edge gateway_id s =
      if gateway_id == "" || contains s.seen_gateways gateway_id
      then s
      else visit gateway_id (record s {
        seen_gateways = gateway_id ∷ s.seen_gateways;
        targets = s.targets ++ declared_target edge gateway_id ∷ [];
      })

  pub follow : TopologyEdge → Search → Search
  follow edge s = visit edge.to (
      if edge.relation == "cross-cluster"
      then add_declared edge (owning_gateway nodes_of topology.edges edge.to) s
      else s)

  pub follow_all : List TopologyEdge → Search → Search
  follow_all [] s = s
  follow_all (edge ∷ edges) s = follow_all edges (follow edge s)

  pub search_targets : ℕ → Search → List String → List ProbeGatewayTarget
  search_targets zero s queue = s.targets
  search_targets (suc rounds) s [] = s.targets
  search_targets (suc rounds) s (current ∷ queue) =
      let next = follow_all (forward_of topology.edges current) (record s { queue = queue }) in
      if leb (length s.visited) 4096 then search_targets rounds next next.queue else s.targets

  pub discover_declared_probe_gateway_targets : String → List ProbeGatewayTarget
  discover_declared_probe_gateway_targets source =
      search_targets 4097
        (record {
          queue = source ∷ [];
          visited = source ∷ [];
          seen_gateways = source ∷ [];
          targets = [];
        })
        (source ∷ [])

  pub is_observable : ProbeGatewayTarget → Bool
  is_observable target = gateway_has_observable_runtime (node_at nodes_of target.global_id)

  -- sort.SliceStable by ID
  pub insert_gateway : TopologyNode → List TopologyNode → List TopologyNode
  insert_gateway gateway [] = gateway ∷ []
  insert_gateway gateway (x ∷ xs) =
      if string_ltb x.id gateway.id then x ∷ insert_gateway gateway xs else gateway ∷ x ∷ xs

  -- The observable gateways that are no target yet, sorted.
  pub other_gateways : List String → List TopologyNode → List TopologyNode
  other_gateways seen [] = []
  other_gateways seen (node ∷ nodes) =
      let rest = other_gateways seen nodes in
      if gateway_has_observable_runtime node && not (contains seen node.id)
      then insert_gateway node rest
      else rest

  abbrev pub plain_targets : List TopologyNode → List ProbeGatewayTarget
  plain_targets [] = []
  plain_targets (gateway ∷ gateways) =
      plain_target topology.clusters gateway ∷ plain_targets gateways

  abbrev pub seen_ids : List ProbeGatewayTarget → List String
  seen_ids [] = []
  seen_ids (target ∷ targets) = target.global_id ∷ seen_ids targets

  pub discover_probe_gateway_targets : String → List ProbeGatewayTarget
  discover_probe_gateway_targets source =
      let declared =
        keep (λ target. is_observable target) (discover_declared_probe_gateway_targets source) in
      declared ++ plain_targets (other_gateways (source ∷ seen_ids declared) topology.nodes)

-- The snapshot of the first cluster of this identity.
pub first_snapshot : List TopologyCluster → String → Snapshot
first_snapshot [] id = zero_snapshot
first_snapshot (cluster ∷ clusters) id =
    let later = first_snapshot clusters id in if cluster.id == id then cluster.snapshot else later

-- The target for a gateway that is no node.
abbrev pub unknown_target : String → ProbeGatewayTarget
unknown_target gateway = record {
  cluster_id = "";
  gateway_id = "";
  global_id = gateway;
  gateway_name = "";
  snapshot_id = "";
  observed_at = "";
  transport = "";
  destination = "";
  declared = false;
  predecessor_gateway_id = "";
}

pub target_in : List TopologyCluster → List TopologyNode → String → ProbeGatewayTarget
target_in clusters [] gateway = unknown_target gateway
target_in clusters (node ∷ nodes) gateway =
    let later = target_in clusters nodes gateway in
    let snapshot = first_snapshot clusters node.cluster_id in
    if node.id == gateway
    then record (unknown_target node.id) {
      cluster_id = node.cluster_id;
      gateway_id = local_id node.cluster_id node.id;
      gateway_name = node.name;
      snapshot_id = snapshot.id;
      observed_at = snapshot.observed_at;
    }
    else later

pub target_for_gateway : Topology → String → ProbeGatewayTarget
target_for_gateway topology gateway = target_in topology.clusters topology.nodes gateway
