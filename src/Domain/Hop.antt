-- ===== src/Domain/Hop.antt =====
-- A record of a gateway access log: internal/domain/types.go.
use gate_lens.Common.{String, ℤ, Bool, List, Option}
use gate_lens.Domain.Values.{ExtProcOutcome, ProbeCorrelation, ObservationConfidence}

pub record AiRoutingSummary : Type 0 where
  pub provider : String
  pub request_model : String
  pub upstream_model : String
  pub response_model : String

pub record ExtProcObservation : Type 0 where
  pub processor : String
  pub rule_id : String
  pub selected_pool : String
  pub selected_endpoint : String
  pub reason_code : String
  pub request_header_calls : ℤ
  pub request_body_calls : ℤ
  pub response_header_calls : ℤ
  pub response_body_calls : ℤ
  pub request_header_latency_us : ℤ
  pub request_body_latency_us : ℤ
  pub response_header_latency_us : ℤ
  pub response_body_latency_us : ℤ
  pub grpc_status : String
  pub failure_mode_allowed : Bool
  pub failed_open : Bool
  pub message_timeout : Bool
  pub http_error : Bool
  pub received_immediate_response : Bool
  pub invoked : Bool
  pub outcome : ExtProcOutcome

pub record ObservedHop : Type 0 where
  pub context_id : String
  pub id : String
  pub runtime_source : String
  pub log_source_id : String
  pub log_sequence : ℤ
  pub request_start_time : String
  pub internal_redirect : Bool
  pub ai_routing : Option AiRoutingSummary
  pub observed_at : String
  pub cluster_id : String
  pub pod : String
  pub authority : String
  pub method : String
  pub path : String
  pub protocol : String
  pub route_name : String
  pub upstream_cluster : String
  pub upstream_host : String
  pub upstream_local_address : String
  pub downstream_remote_address : String
  pub downstream_local_address : String
  pub response_code : ℤ
  pub response_flags : String
  pub response_code_details : String
  pub duration_millis : ℤ
  pub upstream_service_time_millis : ℤ
  pub upstream_transport_failure : String
  pub ai_log : String
  pub ext_procs : List ExtProcObservation
  pub evidence_source : String
  pub correlation : ProbeCorrelation
  pub confidence : ObservationConfidence
