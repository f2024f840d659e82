-- ===== src/Domain/Topology.antt =====
-- The topology that an agent reports and the server merges: internal/domain/types.go.
use gate_lens.Common.{String, ℤ, Bool, List}
use gate_lens.Domain.Values.{ProbeScheme, SnapshotConsistency, Status, TopologyNodeKind}

pub record Snapshot : Type 0 where
  pub id : String
  pub observed_at : String
  pub state : String

pub record Cluster : Type 0 where
  pub id : String
  pub name : String
  pub version : String

pub record Context : Type 0 where
  pub cluster : Cluster
  pub namespaces : List String
  pub snapshot : Snapshot
  pub capabilities : List String

pub record ProbeEntry : Type 0 where
  pub id : String
  pub gateway_id : String
  pub cluster_id : String
  pub namespace : String
  pub service_name : String
  pub dns_name : String
  pub port : ℤ
  pub scheme : ProbeScheme
  pub protocol : String
  pub display_name : String
  pub addresses : List String

pub record TopologyCluster : Type 0 where
  pub id : String
  pub name : String
  pub environment : String
  pub version : String
  pub connection_state : String
  pub namespaces : List String
  pub snapshot : Snapshot

pub record TopologyNode : Type 0 where
  pub id : String
  pub name : String
  pub kind : TopologyNodeKind
  pub namespace : String
  pub cluster_id : String
  pub status : Status
  pub status_text : String
  pub summary : String
  pub conditions : List String
  pub source : String
  pub workload_scope : String

pub record TopologyEdge : Type 0 where
  pub from : String
  pub to : String
  pub relation : String
  pub transport : String
  pub destination : String
  pub state : String
  pub evidence : String

pub record Topology : Type 0 where
  pub snapshot_id : String
  pub federated_snapshot_id : String
  pub observed_at : String
  pub consistency : SnapshotConsistency
  pub clusters : List TopologyCluster
  pub nodes : List TopologyNode
  pub edges : List TopologyEdge
  pub probe_entries : List ProbeEntry
  pub truncated : Bool

pub record Finding : Type 0 where
  pub id : String
  pub severity : Status
  pub title : String
  pub resource : String
  pub basis : String
  pub target_id : String

pub record Resource : Type 0 where
  pub id : String
  pub kind : String
  pub name : String
  pub namespace : String
  pub status : Status
  pub status_text : String
  pub updated_at : String
  pub findings : ℤ

pub record AgentSnapshot : Type 0 where
  pub cluster : TopologyCluster
  pub context : Context
  pub topology : Topology
  pub findings : List Finding
  pub resources : List Resource
  pub sent_at : String
