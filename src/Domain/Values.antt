-- ===== src/Domain/Values.antt =====
-- The closed sets of strings on the wire, with their tests: internal/domain/probe_protocol.go, and
-- the string types of internal/domain/types.go. A value is a text, since the wire may hold any.
use gate_lens.Common.{String, Bool, List, [], ◌∷◌, ◌==◌, any}

abbrev pub Status : Type 0
Status = String

abbrev pub status_healthy : Status
status_healthy = "healthy"

abbrev pub status_warning : Status
status_warning = "warning"

abbrev pub status_error : Status
status_error = "error"

abbrev pub TopologyNodeKind : Type 0
TopologyNodeKind = String

abbrev pub topology_node_kind_gateway : TopologyNodeKind
topology_node_kind_gateway = "Gateway"

abbrev pub topology_node_kind_listener : TopologyNodeKind
topology_node_kind_listener = "Listener"

abbrev pub topology_node_kind_http_route : TopologyNodeKind
topology_node_kind_http_route = "HTTPRoute"

abbrev pub topology_node_kind_ingress : TopologyNodeKind
topology_node_kind_ingress = "Ingress"

abbrev pub topology_node_kind_service : TopologyNodeKind
topology_node_kind_service = "Service"

abbrev pub topology_node_kind_endpoint : TopologyNodeKind
topology_node_kind_endpoint = "Endpoint"

abbrev pub topology_node_kind_pod : TopologyNodeKind
topology_node_kind_pod = "Pod"

abbrev pub topology_node_kind_inference_pool : TopologyNodeKind
topology_node_kind_inference_pool = "InferencePool"

abbrev pub topology_node_kind_endpoint_picker : TopologyNodeKind
topology_node_kind_endpoint_picker = "EndpointPicker"

abbrev pub topology_node_kind_mcp_bridge : TopologyNodeKind
topology_node_kind_mcp_bridge = "McpBridge"

abbrev pub topology_node_kind_registry : TopologyNodeKind
topology_node_kind_registry = "Registry"

abbrev pub topology_node_kind_external_target : TopologyNodeKind
topology_node_kind_external_target = "ExternalTarget"

abbrev pub topology_node_kind_transit_hop : TopologyNodeKind
topology_node_kind_transit_hop = "TransitHop"

abbrev pub ProbeCollectionState : Type 0
ProbeCollectionState = String

abbrev pub probe_collection_state_settled : ProbeCollectionState
probe_collection_state_settled = "settled"

abbrev pub probe_collection_state_window_ended : ProbeCollectionState
probe_collection_state_window_ended = "window-ended"

abbrev pub probe_collection_state_cancelled : ProbeCollectionState
probe_collection_state_cancelled = "cancelled"

abbrev pub probe_collection_state_read_error : ProbeCollectionState
probe_collection_state_read_error = "read-error"

abbrev pub probe_collection_state_unknown : ProbeCollectionState
probe_collection_state_unknown = "unknown"

abbrev pub ProbeAttemptRelationState : Type 0
ProbeAttemptRelationState = String

abbrev pub probe_attempt_relation_state_linked : ProbeAttemptRelationState
probe_attempt_relation_state_linked = "linked"

abbrev pub probe_attempt_relation_state_unconfirmed : ProbeAttemptRelationState
probe_attempt_relation_state_unconfirmed = "unconfirmed"

abbrev pub probe_attempt_relation_state_missing_next : ProbeAttemptRelationState
probe_attempt_relation_state_missing_next = "missing-next"

abbrev pub probe_attempt_relation_state_ambiguous : ProbeAttemptRelationState
probe_attempt_relation_state_ambiguous = "ambiguous"

abbrev pub ProbeExecutionState : Type 0
ProbeExecutionState = String

abbrev pub probe_execution_state_running : ProbeExecutionState
probe_execution_state_running = "running"

abbrev pub probe_execution_state_completed : ProbeExecutionState
probe_execution_state_completed = "completed"

abbrev pub probe_execution_state_failed : ProbeExecutionState
probe_execution_state_failed = "failed"

abbrev pub ProbeIssueScope : Type 0
ProbeIssueScope = String

abbrev pub probe_issue_scope_execution : ProbeIssueScope
probe_issue_scope_execution = "execution"

abbrev pub probe_issue_scope_collection : ProbeIssueScope
probe_issue_scope_collection = "collection"

abbrev pub probe_issue_scope_relation : ProbeIssueScope
probe_issue_scope_relation = "relation"

abbrev pub probe_issue_scope_inference : ProbeIssueScope
probe_issue_scope_inference = "inference"

abbrev pub ProbeIssueCode : Type 0
ProbeIssueCode = String

abbrev pub probe_issue_code_response_limit_exceeded : ProbeIssueCode
probe_issue_code_response_limit_exceeded = "response-limit-exceeded"

abbrev pub probe_issue_code_log_source_rotated : ProbeIssueCode
probe_issue_code_log_source_rotated = "log-source-rotated"

abbrev pub probe_issue_code_log_window_truncated : ProbeIssueCode
probe_issue_code_log_window_truncated = "log-window-truncated"

abbrev pub probe_issue_code_log_order_unconfirmed : ProbeIssueCode
probe_issue_code_log_order_unconfirmed = "log-order-unconfirmed"

abbrev pub probe_issue_code_collection_window_ended : ProbeIssueCode
probe_issue_code_collection_window_ended = "collection-window-ended"

abbrev pub probe_issue_code_collection_cancelled : ProbeIssueCode
probe_issue_code_collection_cancelled = "collection-cancelled"

abbrev pub probe_issue_code_log_read_error : ProbeIssueCode
probe_issue_code_log_read_error = "log-read-error"

abbrev pub probe_issue_code_no_matching_log : ProbeIssueCode
probe_issue_code_no_matching_log = "no-matching-log"

abbrev pub probe_issue_code_agent_unavailable : ProbeIssueCode
probe_issue_code_agent_unavailable = "agent-unavailable"

abbrev pub probe_issue_code_probe_protocol_unsupported : ProbeIssueCode
probe_issue_code_probe_protocol_unsupported = "probe-protocol-unsupported"

abbrev pub probe_issue_code_request_identity_incomplete : ProbeIssueCode
probe_issue_code_request_identity_incomplete = "request-identity-incomplete"

abbrev pub probe_issue_code_attempt_order_unconfirmed : ProbeIssueCode
probe_issue_code_attempt_order_unconfirmed = "attempt-order-unconfirmed"

abbrev pub probe_issue_code_redirect_next_missing : ProbeIssueCode
probe_issue_code_redirect_next_missing = "redirect-next-missing"

abbrev pub probe_issue_code_terminal_ambiguous : ProbeIssueCode
probe_issue_code_terminal_ambiguous = "terminal-ambiguous"

abbrev pub probe_issue_code_gateway_evidence_missing : ProbeIssueCode
probe_issue_code_gateway_evidence_missing = "gateway-evidence-missing"

abbrev pub ProbeCorrelation : Type 0
ProbeCorrelation = String

abbrev pub probe_correlation_probe_id : ProbeCorrelation
probe_correlation_probe_id = "probe-id"

abbrev pub probe_correlation_trace_id : ProbeCorrelation
probe_correlation_trace_id = "trace-id"

abbrev pub ProbeInferenceConfidence : Type 0
ProbeInferenceConfidence = String

abbrev pub probe_inference_confidence_high : ProbeInferenceConfidence
probe_inference_confidence_high = "high"

abbrev pub probe_inference_confidence_medium : ProbeInferenceConfidence
probe_inference_confidence_medium = "medium"

abbrev pub probe_inference_confidence_low : ProbeInferenceConfidence
probe_inference_confidence_low = "low"

abbrev pub probe_inference_confidence_ambiguous : ProbeInferenceConfidence
probe_inference_confidence_ambiguous = "ambiguous"

abbrev pub ProbeOrderBasis : Type 0
ProbeOrderBasis = String

abbrev pub probe_order_basis_source_sequence : ProbeOrderBasis
probe_order_basis_source_sequence = "source-sequence"

abbrev pub probe_order_basis_unavailable : ProbeOrderBasis
probe_order_basis_unavailable = "unavailable"

abbrev pub AgentCommandKind : Type 0
AgentCommandKind = String

abbrev pub agent_command_envoy_config : AgentCommandKind
agent_command_envoy_config = "envoy-config"

abbrev pub agent_command_probe_http : AgentCommandKind
agent_command_probe_http = "probe-http"

abbrev pub agent_command_probe_observe : AgentCommandKind
agent_command_probe_observe = "probe-observe"

abbrev pub ExtProcOutcome : Type 0
ExtProcOutcome = String

abbrev pub ext_proc_outcome_success : ExtProcOutcome
ext_proc_outcome_success = "success"

abbrev pub ext_proc_outcome_timeout : ExtProcOutcome
ext_proc_outcome_timeout = "timeout"

abbrev pub ext_proc_outcome_error : ExtProcOutcome
ext_proc_outcome_error = "error"

abbrev pub ext_proc_outcome_fail_open : ExtProcOutcome
ext_proc_outcome_fail_open = "fail-open"

abbrev pub ext_proc_outcome_immediate_response : ExtProcOutcome
ext_proc_outcome_immediate_response = "immediate-response"

abbrev pub ext_proc_outcome_unknown : ExtProcOutcome
ext_proc_outcome_unknown = "unknown"

abbrev pub SnapshotConsistency : Type 0
SnapshotConsistency = String

abbrev pub snapshot_consistency_single_cluster : SnapshotConsistency
snapshot_consistency_single_cluster = "single-cluster"

abbrev pub snapshot_consistency_waiting_for_agents : SnapshotConsistency
snapshot_consistency_waiting_for_agents = "waiting-for-agents"

abbrev pub snapshot_consistency_consistent_window : SnapshotConsistency
snapshot_consistency_consistent_window = "consistent-window"

abbrev pub snapshot_consistency_remote_unavailable : SnapshotConsistency
snapshot_consistency_remote_unavailable = "remote-unavailable"

abbrev pub snapshot_consistency_time_skew : SnapshotConsistency
snapshot_consistency_time_skew = "time-skew"

abbrev pub ObservationConfidence : Type 0
ObservationConfidence = String

abbrev pub observation_confidence_observed : ObservationConfidence
observation_confidence_observed = "observed"

abbrev pub ProbeHttpMethod : Type 0
ProbeHttpMethod = String

abbrev pub probe_http_method_get : ProbeHttpMethod
probe_http_method_get = "GET"

abbrev pub probe_http_method_head : ProbeHttpMethod
probe_http_method_head = "HEAD"

abbrev pub probe_http_method_post : ProbeHttpMethod
probe_http_method_post = "POST"

abbrev pub probe_http_method_put : ProbeHttpMethod
probe_http_method_put = "PUT"

abbrev pub probe_http_method_patch : ProbeHttpMethod
probe_http_method_patch = "PATCH"

abbrev pub probe_http_method_delete : ProbeHttpMethod
probe_http_method_delete = "DELETE"

abbrev pub probe_http_method_options : ProbeHttpMethod
probe_http_method_options = "OPTIONS"

abbrev pub ProbeScheme : Type 0
ProbeScheme = String

abbrev pub probe_scheme_http : ProbeScheme
probe_scheme_http = "http"

abbrev pub probe_scheme_https : ProbeScheme
probe_scheme_https = "https"

-- A Go switch whose listed cases return true.
abbrev pub is_case : String → List String → Bool
is_case value cases = any (λ c. value == c) cases

pub is_valid_probe_execution_state : ProbeExecutionState → Bool
is_valid_probe_execution_state value = is_case value (
    probe_execution_state_running ∷ probe_execution_state_completed ∷ probe_execution_state_failed
    ∷ [])

unfoldable pub is_valid_probe_issue_scope : ProbeIssueScope → Bool
is_valid_probe_issue_scope value = is_case value (
    probe_issue_scope_execution ∷ probe_issue_scope_collection ∷ probe_issue_scope_relation
    ∷ probe_issue_scope_inference ∷ [])

unfoldable pub is_valid_probe_issue_code : ProbeIssueCode → Bool
is_valid_probe_issue_code value = is_case value (
    probe_issue_code_response_limit_exceeded ∷ probe_issue_code_log_source_rotated
    ∷ probe_issue_code_log_window_truncated ∷ probe_issue_code_log_order_unconfirmed
    ∷ probe_issue_code_collection_window_ended ∷ probe_issue_code_collection_cancelled
    ∷ probe_issue_code_log_read_error ∷ probe_issue_code_no_matching_log
    ∷ probe_issue_code_agent_unavailable ∷ probe_issue_code_probe_protocol_unsupported
    ∷ probe_issue_code_request_identity_incomplete ∷ probe_issue_code_attempt_order_unconfirmed
    ∷ probe_issue_code_redirect_next_missing ∷ probe_issue_code_terminal_ambiguous
    ∷ probe_issue_code_gateway_evidence_missing ∷ [])

unfoldable pub is_valid_probe_correlation : ProbeCorrelation → Bool
is_valid_probe_correlation value =
    is_case value (probe_correlation_probe_id ∷ probe_correlation_trace_id ∷ [])

pub is_valid_probe_inference_confidence : ProbeInferenceConfidence → Bool
is_valid_probe_inference_confidence value = is_case value (
    probe_inference_confidence_high ∷ probe_inference_confidence_medium
    ∷ probe_inference_confidence_low ∷ probe_inference_confidence_ambiguous ∷ [])

pub is_valid_probe_order_basis : ProbeOrderBasis → Bool
is_valid_probe_order_basis value =
    is_case value (probe_order_basis_source_sequence ∷ probe_order_basis_unavailable ∷ [])

pub is_valid_agent_command_kind : AgentCommandKind → Bool
is_valid_agent_command_kind value =
    is_case value
      (agent_command_envoy_config ∷ agent_command_probe_http ∷ agent_command_probe_observe ∷ [])

unfoldable pub is_valid_ext_proc_outcome : ExtProcOutcome → Bool
is_valid_ext_proc_outcome value = is_case value (
    ext_proc_outcome_success ∷ ext_proc_outcome_timeout ∷ ext_proc_outcome_error
    ∷ ext_proc_outcome_fail_open ∷ ext_proc_outcome_immediate_response ∷ ext_proc_outcome_unknown
    ∷ [])

pub is_valid_snapshot_consistency : SnapshotConsistency → Bool
is_valid_snapshot_consistency value = is_case value (
    snapshot_consistency_single_cluster ∷ snapshot_consistency_waiting_for_agents
    ∷ snapshot_consistency_consistent_window ∷ snapshot_consistency_remote_unavailable
    ∷ snapshot_consistency_time_skew ∷ [])

unfoldable pub is_valid_observation_confidence : ObservationConfidence → Bool
is_valid_observation_confidence value = is_case value (observation_confidence_observed ∷ [])

unfoldable pub is_valid_probe_http_method : ProbeHttpMethod → Bool
is_valid_probe_http_method value = is_case value (
    probe_http_method_get ∷ probe_http_method_head ∷ probe_http_method_post ∷ probe_http_method_put
    ∷ probe_http_method_patch ∷ probe_http_method_delete ∷ probe_http_method_options ∷ [])

unfoldable pub is_valid_probe_scheme : ProbeScheme → Bool
is_valid_probe_scheme value = is_case value (probe_scheme_http ∷ probe_scheme_https ∷ [])

unfoldable pub is_valid_probe_collection_state : ProbeCollectionState → Bool
is_valid_probe_collection_state value = is_case value (
    probe_collection_state_settled ∷ probe_collection_state_window_ended
    ∷ probe_collection_state_cancelled ∷ probe_collection_state_read_error
    ∷ probe_collection_state_unknown ∷ [])

pub is_valid_probe_attempt_relation_state : ProbeAttemptRelationState → Bool
is_valid_probe_attempt_relation_state value = is_case value (
    probe_attempt_relation_state_linked ∷ probe_attempt_relation_state_unconfirmed
    ∷ probe_attempt_relation_state_missing_next ∷ probe_attempt_relation_state_ambiguous ∷ [])
