-- ===== src/Domain/Validate.antt =====
-- ProbeAgentResult.Validate: internal/domain/probe_protocol.go.
pub mod Accepted
pub mod Records
pub mod Laws
use gate_lens.Common.{
  String, ℤ, pos, Bool, true, false, List, [], ◌∷◌, Option, none, some, ◌==◌, ◌&&◌, ◌||◌, not, any,
  contains, int_eq, is_some, is_none, Result, ok, err, ◌>>=◌, ◌>>◌, refuse, if◌then◌else◌,
}
use gate_lens.Domain.Values.{
  agent_command_probe_http, agent_command_probe_observe, probe_issue_scope_relation,
  probe_issue_scope_inference, probe_issue_scope_execution, is_valid_probe_collection_state,
  is_valid_probe_http_method, is_valid_probe_correlation, is_valid_observation_confidence,
  is_valid_ext_proc_outcome, is_valid_probe_issue_scope, is_valid_probe_issue_code,
}
use gate_lens.Domain.Hop.{ObservedHop}
use gate_lens.Domain.Issues.{ProbeIssue}
use gate_lens.Domain.Probe.{ProbeAgentResult, ProbeCollection, ProbeHttpResult}
use gate_lens.Domain.Command.{AgentCommand, ProbeCommand}

abbrev pub probe_schema_version : ℤ
probe_schema_version = pos 2

-- ErrProbeProtocolUnsupported and ErrInvalidProbeResult, wrapped with their details.
pub data ValidateError : Type 0 where
  err_probe_protocol_unsupported : ℤ → ValidateError
  err_invalid_probe_result : String → ValidateError

pub is_probe_kind : AgentCommand → Bool
is_probe_kind command =
    command.kind == agent_command_probe_http || command.kind == agent_command_probe_observe

pub matches_probe : ProbeAgentResult → AgentCommand → Option ProbeCommand → Bool
matches_probe result command none = false
matches_probe result command (some probe) =
    result.probe_id == probe.probe_id
    && result.trace_id == probe.trace_id
    && result.cluster_id == command.cluster_id
    && result.gateway_id == command.gateway_id

pub has_valid_state : Option ProbeCollection → Bool
has_valid_state none = false
has_valid_state (some collection) = is_valid_probe_collection_state collection.state

pub has_valid_method : Option ProbeHttpResult → Option ProbeCommand → Bool
has_valid_method none probe = true
has_valid_method (some http) none = false
has_valid_method (some http) (some probe) =
    is_valid_probe_http_method http.method && http.method == probe.method

pub has_identity : String → List String → ObservedHop → Bool
has_identity cluster seen hop =
    not (hop.id == "") && not (contains seen hop.id) && hop.cluster_id == cluster

pub has_valid_evidence : ObservedHop → Bool
has_valid_evidence hop =
    (hop.correlation == "" || is_valid_probe_correlation hop.correlation)
    && is_valid_observation_confidence hop.confidence

-- The loop over the records; the result is the set of the identities seen.
pub validate_hops : String → List String → List ObservedHop → Result ValidateError (List String)
validate_hops cluster seen [] = ok seen
validate_hops cluster seen (hop ∷ hops) = do
  refuse (not (has_identity cluster seen hop)) (err_invalid_probe_result "record identity")
  refuse (not (has_valid_evidence hop)) (err_invalid_probe_result "record correlation/confidence")
  refuse (any (λ proc. not (is_valid_ext_proc_outcome proc.outcome)) hop.ext_procs)
      (err_invalid_probe_result "ext_proc outcome")
  validate_hops cluster (hop.id ∷ seen) hops

-- The test of the loop over the issues, negated.
pub is_valid_issue : List String → Bool → ProbeIssue → Bool
is_valid_issue seen has_http issue =
    (issue.hop_id == "" || contains seen issue.hop_id)
    && is_valid_probe_issue_scope issue.scope
    && is_valid_probe_issue_code issue.code
    && not (issue.scope == probe_issue_scope_relation)
    && not (issue.scope == probe_issue_scope_inference)
    && (not (issue.scope == probe_issue_scope_execution) || has_http)

abbrev pub same_bool : Bool → Bool → Bool
same_bool a b = if a then b else not b

unfoldable pub validate : ProbeAgentResult → AgentCommand → Result ValidateError (Unit {0})
validate result command = do
  refuse (not (int_eq result.schema_version probe_schema_version))
      (err_probe_protocol_unsupported result.schema_version)
  refuse (not (is_probe_kind command && matches_probe result command command.probe))
      (err_invalid_probe_result "command identity mismatch")
  refuse (not (has_valid_state result.collection)) (err_invalid_probe_result "collection state")
  refuse (not (same_bool (command.kind == agent_command_probe_http) (is_some result.http)))
      (err_invalid_probe_result "HTTP payload does not match command")
  refuse (not (has_valid_method result.http command.probe)) (err_invalid_probe_result "HTTP method")
  seen ← validate_hops result.cluster_id [] result.hops
  refuse (any (λ issue. not (is_valid_issue seen (is_some result.http) issue)) result.issues)
      (err_invalid_probe_result "issue")
