-- ===== src/Domain/Probe.antt =====
-- Probe requests, executions and agent results: internal/domain/types.go.
use gate_lens.Common.{String, ℤ, List, Option}
use gate_lens.Domain.Values.{
  SnapshotConsistency, ProbeHttpMethod, ProbeExecutionState, ProbeInferenceConfidence,
  ProbeAttemptRelationState, ProbeCollectionState,
}
use gate_lens.Domain.Hop.{ObservedHop}
use gate_lens.Domain.Issues.{ProbeIssue}

pub record ProbeCollection : Type 0 where
  pub state : ProbeCollectionState
  pub completed_at : String

pub record ProbeAttemptLink : Type 0 where
  pub from : String
  pub to : String

pub record ProbeSegment : Type 0 where
  pub index : ℤ
  pub cluster_id : String
  pub gateway_id : String
  pub gateway_name : String
  pub snapshot_id : String
  pub snapshot_observed_at : String
  pub log_source : String
  pub transport : String
  pub destination : String
  pub inference_basis : String
  pub inference_confidence : ProbeInferenceConfidence
  pub hops : List ObservedHop
  pub collection : Option ProbeCollection
  pub relation_state : ProbeAttemptRelationState
  pub links : List ProbeAttemptLink
  pub local_terminal_hop_ids : List String
  pub issues : List ProbeIssue

pub record ProbeRequest : Type 0 where
  pub source_cluster : String
  pub gateway_id : String
  pub entry_id : String
  pub method : ProbeHttpMethod
  pub path : String
  pub host : String
  pub api_key : String
  pub content_type : String
  pub body : String
  pub timeout_seconds : ℤ

pub record ProbeExecution : Type 0 where
  pub schema_version : ℤ
  pub id : String
  pub trace_id : String
  pub source_cluster : String
  pub gateway_id : String
  pub method : ProbeHttpMethod
  pub target : String
  pub state : ProbeExecutionState
  pub started_at : String
  pub completed_at : String
  pub response_code : ℤ
  pub response_bytes : ℤ
  pub duration_millis : ℤ
  pub segments : List ProbeSegment
  pub federated_snapshot_id : String
  pub snapshot_consistency : SnapshotConsistency
  pub issues : List ProbeIssue
  pub error : String
  pub final_response_hop_id : String
  pub final_upstream_hop_id : String

pub record ProbeHttpResult : Type 0 where
  pub method : ProbeHttpMethod
  pub target : String
  pub response_code : ℤ
  pub response_bytes : ℤ
  pub duration_millis : ℤ
  pub error : String

pub record ProbeAgentResult : Type 0 where
  pub schema_version : ℤ
  pub probe_id : String
  pub trace_id : String
  pub cluster_id : String
  pub gateway_id : String
  pub started_at : String
  pub completed_at : String
  pub http : Option ProbeHttpResult
  pub hops : List ObservedHop
  pub collection : Option ProbeCollection
  pub issues : List ProbeIssue
