-- ===== src/Federation/Snapshots.antt =====
-- The agents' snapshots in the store: ReceiveSnapshot and the look-ups of gateways and probe
-- entries, internal/federation/store.go.
pub mod Received
pub mod Resolved
mod Examples
use gate_lens.Common.{
  ℕ, String, Bool, true, false, List, [], ◌∷◌, Option, none, some, ◌==◌, ◌&&◌, ◌||◌, not, any, find,
  is_some, if◌then◌else◌, trim_space, cut, lookup, insert, Result, ok, err, ◌>>=◌, ◌>>◌, refuse,
  require,
}
use gate_lens.Domain.Values.{topology_node_kind_gateway, is_valid_probe_scheme}
use gate_lens.Domain.Topology.{
  AgentSnapshot, TopologyCluster, TopologyNode, Topology, Snapshot, ProbeEntry,
}
use gate_lens.Federation.Store.{Store, ReceivedSnapshot}

pub data SnapshotError : Type 0 where
  cluster_required : SnapshotError
  context_mismatch node_of_other_cluster : String → String → SnapshotError

-- The local variable `clusterID`.
pub cluster_of : AgentSnapshot → String
cluster_of payload =
    let own = trim_space payload.cluster.id in
    if own == "" then trim_space payload.context.cluster.id else own

pub or_default : String → String → String
or_default value fallback = if value == "" then fallback else value

pub name_cluster : String → TopologyCluster → TopologyCluster
name_cluster cluster reported = record reported {
  id = cluster;
  name = or_default reported.name cluster;
  connection_state = or_default reported.connection_state "connected";
}

-- The loop over the nodes: each is given the cluster, or must have it.
pub claim_nodes : String → List TopologyNode → Result SnapshotError (List TopologyNode)
claim_nodes cluster [] = ok []
claim_nodes cluster (node ∷ nodes) = do
  let owner = or_default node.cluster_id cluster
  refuse (not (owner == cluster)) (node_of_other_cluster node.id owner)
  rest ← claim_nodes cluster nodes
  ok (record node { cluster_id = owner } ∷ rest)

abbrev pub date_cluster : AgentSnapshot → TopologyCluster → TopologyCluster
date_cluster payload cluster = record cluster {
  snapshot = if cluster.snapshot.id == "" then payload.context.snapshot else cluster.snapshot;
}

-- `time.Format` and the clock.
module _ (format_time : ℕ → String) where
  pub complete_payload : AgentSnapshot → String → List TopologyNode → ℕ → AgentSnapshot
  complete_payload payload cluster nodes now = record payload {
    cluster = date_cluster payload (name_cluster cluster payload.cluster);
    topology = record (payload.topology) { nodes = nodes };
    sent_at = or_default payload.sent_at (format_time now);
  }

  pub receive_snapshot : Store → ℕ → AgentSnapshot → Result SnapshotError Store
  receive_snapshot s now payload = do
    let cluster = cluster_of payload
    let context = payload.context.cluster.id
    refuse (cluster == "") cluster_required
    refuse (not (context == "") && not (context == cluster)) (context_mismatch context cluster)
    nodes ← claim_nodes cluster payload.topology.nodes
    ok (record s {
      snapshots =
          insert cluster
            (record { payload = complete_payload payload cluster nodes now; received_at = now })
            s.snapshots;
    })

pub data ResolveError : Type 0 where
  id_required : ResolveError
  owner_mismatch owner_not_registered gateway_not_found in_multiple_clusters : String → ResolveError
  entry_not_found unsupported_scheme : String → ResolveError

abbrev pub is_gateway : String → TopologyNode → Bool
is_gateway id node = node.kind == topology_node_kind_gateway && node.id == id

unfoldable pub snapshot_has_gateway : AgentSnapshot → String → Bool
snapshot_has_gateway snapshot id = any (λ node. is_gateway id node) snapshot.topology.nodes

-- The loop over all snapshots, which the code runs in any order: `owner` is the match so far.
pub find_owner : String → String → List (String × ReceivedSnapshot) → Result ResolveError String
find_owner id owner [] = if owner == "" then err (gateway_not_found id) else ok owner
find_owner id owner ((cluster, received) ∷ snapshots) =
    let skip = find_owner id owner snapshots in
    let take = find_owner id cluster snapshots in
    if snapshot_has_gateway received.payload id
    then (if owner == "" then take else err (in_multiple_clusters id))
    else skip

pub resolve_gateway : Store → String → Result ResolveError (String × String)
resolve_gateway s asked = do
  let id = trim_space asked
  refuse (id == "") id_required
  elim (cut id "::") [
    | some (cluster, local) ↦ do
      received ← require (lookup cluster s.snapshots) (owner_not_registered cluster)
      refuse (not (snapshot_has_gateway received.payload local)) (gateway_not_found local)
      ok (cluster, local)
    | none ↦ do owner ← find_owner id "" s.snapshots; ok (owner, id)
  ]

-- An identity of the form `owner::local` must be the cluster's own.
unfoldable pub strip_owner : String → String → Result ResolveError String
strip_owner cluster id = elim (cut id "::") [
  | none ↦ ok id
  | some (owner, local) ↦ if owner == cluster then ok local else err (owner_mismatch owner)
]

abbrev pub is_entry : String → String → ProbeEntry → Bool
is_entry id gateway entry = entry.id == id && entry.gateway_id == gateway

unfoldable pub resolve_probe_entry :
    Store → String → String → String → Result ResolveError (String × String × ProbeEntry)
resolve_probe_entry s cluster_id gateway_id entry_id = do
  let cluster = trim_space cluster_id
  refuse (cluster == "" || trim_space gateway_id == "" || trim_space entry_id == "") id_required
  gateway ← strip_owner cluster (trim_space gateway_id)
  id ← strip_owner cluster (trim_space entry_id)
  received ← require (lookup cluster s.snapshots) (owner_not_registered cluster)
  refuse (not (snapshot_has_gateway received.payload gateway)) (gateway_not_found gateway)
  entry ←
      require (find (is_entry id gateway) received.payload.topology.probe_entries)
        (entry_not_found id)
  refuse (not (is_valid_probe_scheme entry.scheme)) (unsupported_scheme entry.scheme)
  ok (cluster, gateway, entry)
