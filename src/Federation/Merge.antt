-- ===== src/Federation/Merge.antt =====
-- The topology of all clusters: snapshotList, federated and Context of internal/federation/store.go.
-- An instant is counted in nanoseconds from the zero time of package time.
pub mod Identities
pub mod Merged
mod Examples
use gate_lens.Common.{
  ℕ, ◌-◌, String, Bool, true, false, List, [], ◌∷◌, ◌++◌, map, Option, none, some, ◌==◌, ◌||◌, ltb,
  nat_eq, find, if◌then◌else◌, ◌+++◌, string_ltb,
}
use gate_lens.Domain.Values.{
  SnapshotConsistency, snapshot_consistency_waiting_for_agents,
  snapshot_consistency_consistent_window, snapshot_consistency_remote_unavailable,
  snapshot_consistency_time_skew,
}
use gate_lens.Domain.Topology.{
  Snapshot, Cluster, Context, TopologyCluster, TopologyNode, TopologyEdge, ProbeEntry, Topology,
  Finding, AgentSnapshot,
}
use gate_lens.Federation.Store.{Store, ReceivedSnapshot}
use gate_lens.Federation.Ids.{global_id}
use gate_lens.Federation.Links.Keys.{discover_links}

-- sort.Slice by the cluster's identity, which no two stored snapshots share.
pub insert_snapshot : ReceivedSnapshot → List ReceivedSnapshot → List ReceivedSnapshot
insert_snapshot received [] = received ∷ []
insert_snapshot received (x ∷ xs) =
    if string_ltb x.payload.cluster.id received.payload.cluster.id
    then x ∷ insert_snapshot received xs
    else received ∷ x ∷ xs

pub sort_snapshots : List (String × ReceivedSnapshot) → List ReceivedSnapshot
sort_snapshots [] = []
sort_snapshots ((cluster, received) ∷ snapshots) =
    insert_snapshot received (sort_snapshots snapshots)

pub snapshot_list : Store → List ReceivedSnapshot
snapshot_list s = sort_snapshots s.snapshots

-- The local variables of federated.
pub record Merge : Type 0 where
  pub clusters : List TopologyCluster
  pub nodes : List TopologyNode
  pub edges : List TopologyEdge
  pub probe_entries : List ProbeEntry
  pub findings : List Finding
  pub snapshot_id : String
  pub snapshot_keys : String
  pub earliest : ℕ
  pub latest : ℕ
  pub stale : Bool

abbrev pub empty_merge : Merge
empty_merge = record {
  clusters = [];
  nodes = [];
  edges = [];
  probe_entries = [];
  findings = [];
  snapshot_id = "";
  snapshot_keys = "";
  earliest = 0;
  latest = 0;
  stale = false;
}

pub global_nodes : ReceivedSnapshot → List TopologyNode
global_nodes received =
    map
      (λ (node : TopologyNode). record node { id = global_id received.payload.cluster.id node.id })
      received.payload.topology.nodes

pub global_edges : ReceivedSnapshot → List TopologyEdge
global_edges received =
    map
      (λ (edge : TopologyEdge). record edge {
        «from» = global_id received.payload.cluster.id edge.from;
        to = global_id received.payload.cluster.id edge.to;
      })
      received.payload.topology.edges

pub global_entries : ReceivedSnapshot → List ProbeEntry
global_entries received =
    map
      (λ (entry : ProbeEntry). record entry {
        id = global_id received.payload.cluster.id entry.id;
        gateway_id = global_id received.payload.cluster.id entry.gateway_id;
        cluster_id = received.payload.cluster.id;
      })
      received.payload.topology.probe_entries

pub global_findings : ReceivedSnapshot → List Finding
global_findings received =
    map
      (λ (finding : Finding). record finding {
        id = received.payload.cluster.id +++ ":" +++ finding.id;
        target_id = global_id received.payload.cluster.id finding.target_id;
      })
      received.payload.findings

-- The preferred cluster's agent, or else the first; no agent has reported yet if there is none.
abbrev pub context_of : AgentSnapshot → Context
context_of selected = record (selected.context) {
  cluster = record {
    id = selected.cluster.id;
    name = selected.cluster.name;
    version = selected.cluster.version;
  };
  snapshot = selected.cluster.snapshot;
}

pub select_snapshot : String → AgentSnapshot → List ReceivedSnapshot → AgentSnapshot
select_snapshot preferred first [] = first
select_snapshot preferred first (received ∷ snapshots) =
    if received.payload.cluster.id == preferred
    then received.payload
    else select_snapshot preferred first snapshots

pub server_context : Store → Context
server_context s = elim (snapshot_list s) [
  | [] ↦ record {
    cluster = record { id = s.preferred_cluster_id; name = s.preferred_cluster_id; version = "" };
    namespaces = [];
    snapshot = record { id = ""; observed_at = ""; state = "waiting-for-agents" };
    capabilities = [];
  }
  | received ∷ snapshots ↦
      context_of (select_snapshot s.preferred_cluster_id received.payload (received ∷ snapshots))
]

pub is_stale : Store → ℕ → ReceivedSnapshot → Bool
is_stale s now received = ltb s.stale_after (now - received.received_at)

abbrev pub join_key : String → String → String
join_key keys key = if keys == "" then key else keys +++ "|" +++ key

abbrev pub widen_earliest : ℕ → Option ℕ → ℕ
widen_earliest earliest none = earliest
widen_earliest earliest (some at) = if nat_eq earliest 0 || ltb at earliest then at else earliest

abbrev pub widen_latest : ℕ → Option ℕ → ℕ
widen_latest latest none = latest
widen_latest latest (some at) = if nat_eq latest 0 || ltb latest at then at else latest

-- The libraries' parts: normalizeTarget, the times, and the digest of the snapshots' keys.
module _ (normalize_target : String → String) (parse_time : String → Option ℕ)
    (format_time : ℕ → String) (digest : String → String) where
  -- The body of the loop over the snapshots.
  pub merge_snapshot : Store → ℕ → Merge → ReceivedSnapshot → Merge
  merge_snapshot s now m received =
      let cluster = received.payload.cluster in
      let stale = is_stale s now received in
      let observed_at = parse_time cluster.snapshot.observed_at in
      record {
        clusters =
            m.clusters
            ++ record cluster {
              connection_state = if stale then "stale" else cluster.connection_state;
            }
              ∷ [];
        nodes = m.nodes ++ global_nodes received;
        edges = m.edges ++ global_edges received;
        probe_entries = m.probe_entries ++ global_entries received;
        findings = m.findings ++ global_findings received;
        snapshot_id =
            if cluster.id == s.preferred_cluster_id || m.snapshot_id == ""
            then cluster.snapshot.id
            else m.snapshot_id;
        snapshot_keys = join_key m.snapshot_keys (cluster.id +++ ":" +++ cluster.snapshot.id);
        earliest = widen_earliest m.earliest observed_at;
        latest = widen_latest m.latest observed_at;
        stale = m.stale || stale;
      }

  pub merge_snapshots : Store → ℕ → Merge → List ReceivedSnapshot → Merge
  merge_snapshots s now m [] = m
  merge_snapshots s now m (received ∷ snapshots) =
      merge_snapshots s now (merge_snapshot s now m received) snapshots

  pub consistency_of : Merge → SnapshotConsistency
  consistency_of m =
      if m.stale
      then snapshot_consistency_remote_unavailable
      else if nat_eq m.earliest 0
      then snapshot_consistency_consistent_window
      else if ltb 60000000000 (m.latest - m.earliest)
      then snapshot_consistency_time_skew
      else snapshot_consistency_consistent_window

  pub conclude_merge : Merge → Topology × List Finding
  conclude_merge m =
      let (links, found) = discover_links normalize_target m.nodes m.edges in
      (
        record {
          snapshot_id = m.snapshot_id;
          federated_snapshot_id = "federated-" +++ digest m.snapshot_keys;
          observed_at = format_time m.latest;
          consistency = consistency_of m;
          clusters = m.clusters;
          nodes = m.nodes;
          edges = m.edges ++ links;
          probe_entries = m.probe_entries;
          truncated = false;
        },
        m.findings ++ found,
      )

  pub federated : Store → ℕ → Topology × List Finding
  federated s now = elim (snapshot_list s) [
    | [] ↦ (
      record {
        snapshot_id = "";
        federated_snapshot_id = "";
        observed_at = "";
        consistency = snapshot_consistency_waiting_for_agents;
        clusters = [];
        nodes = [];
        edges = [];
        probe_entries = [];
        truncated = false;
      },
      [],
    )
    | received ∷ snapshots ↦
        conclude_merge (merge_snapshots s now empty_merge (received ∷ snapshots))
  ]
