-- ===== src/Federation/Probes.antt =====
-- A probe as the server keeps it, and what it makes of an agent's answer: the end of
-- executeProbeCommand, observeProbeGateway, segmentFromAgent, GetProbe and failProbe of
-- internal/federation/store.go.
pub mod Segments
pub mod Creation
pub mod Completion
pub mod Targets
mod Examples
use gate_lens.Common.{
  String, ℤ, pos, Bool, true, false, List, [], ◌∷◌, Option, none, some, ◌==◌, not, if◌then◌else◌,
  trim_space, lookup, insert, Result, ok, err, ◌>>=◌, ◌>>◌, refuse, require,
}
use gate_lens.Domain.Values.{
  probe_issue_scope_execution, probe_issue_scope_collection, probe_execution_state_failed,
  probe_collection_state_read_error, probe_collection_state_cancelled,
  probe_issue_code_agent_unavailable, probe_issue_code_collection_cancelled,
  probe_issue_code_probe_protocol_unsupported,
}
use gate_lens.Domain.Hop.{ObservedHop}
use gate_lens.Domain.Issues.{ProbeIssue, append_probe_issue}
use gate_lens.Domain.Probe.{ProbeAgentResult, ProbeSegment, ProbeExecution}
use gate_lens.Domain.Command.{AgentCommand, AgentCommandResult}
use gate_lens.Domain.Validate.{ValidateError, validate}
use gate_lens.Federation.Store.{Store}
use gate_lens.Federation.Commands.{CommandError}

pub record ProbeGatewayTarget : Type 0 where
  pub cluster_id : String
  pub gateway_id : String
  pub global_id : String
  pub gateway_name : String
  pub snapshot_id : String
  pub observed_at : String
  pub transport : String
  pub destination : String
  pub declared : Bool
  pub predecessor_gateway_id : String

-- Why a probe command has no result.
pub data ProbeError : Type 0 where
  not_queued : CommandError → ProbeError
  cluster_agent : String → ProbeError
  empty_probe_result timed_out cancelled no_command_id : ProbeError
  invalid : ValidateError → ProbeError

pub checked : AgentCommand → ProbeAgentResult → Result ProbeError ProbeAgentResult
checked command local = elim (validate local command) [
  | err why ↦ err (invalid why)
  | ok _ ↦ ok local
]

-- The second `select` of executeProbeCommand; without a result the wait has ended.
pub probe_outcome : AgentCommand → Option AgentCommandResult → Result ProbeError ProbeAgentResult
unfolding checked
probe_outcome command none = err timed_out
probe_outcome command (some result) = do
  refuse (not (result.error == "")) (cluster_agent result.error)
  local ← require result.probe empty_probe_result
  checked command local

-- The first source that a record names.
pub log_source_of : List ObservedHop → String
log_source_of [] = ""
log_source_of (hop ∷ hops) =
    if hop.evidence_source == "" then log_source_of hops else hop.evidence_source

-- The loop that leaves out the issues of the execution.
pub segment_issues : List ProbeIssue → List ProbeIssue → List ProbeIssue
segment_issues kept [] = kept
segment_issues kept (issue ∷ issues) =
    segment_issues
      (if issue.scope == probe_issue_scope_execution then kept else append_probe_issue kept issue)
      issues

pub segment_from_agent : ProbeAgentResult → ProbeGatewayTarget → ProbeSegment
segment_from_agent local target = record {
  index = pos 0;
  cluster_id = target.cluster_id;
  gateway_id = target.global_id;
  gateway_name = target.gateway_name;
  snapshot_id = target.snapshot_id;
  snapshot_observed_at = target.observed_at;
  log_source = log_source_of local.hops;
  transport = target.transport;
  destination = target.destination;
  inference_basis = "";
  inference_confidence = "";
  hops = local.hops;
  collection = local.collection;
  relation_state = "";
  links = [];
  local_terminal_hop_ids = [];
  issues = segment_issues [] local.issues;
}

-- The zero value of a result.
abbrev pub no_result : ProbeAgentResult
no_result = record {
  schema_version = pos 0;
  probe_id = "";
  trace_id = "";
  cluster_id = "";
  gateway_id = "";
  started_at = "";
  completed_at = "";
  http = none;
  hops = [];
  collection = none;
  issues = [];
}

-- The variables `state` and `code` of the closure `fail`.
pub failure_of : ProbeError → String × String
failure_of cancelled = (probe_collection_state_cancelled, probe_issue_code_collection_cancelled)
failure_of empty_probe_result =
    (probe_collection_state_read_error, probe_issue_code_probe_protocol_unsupported)
failure_of (invalid _) =
    (probe_collection_state_read_error, probe_issue_code_probe_protocol_unsupported)
failure_of (not_queued _) = (probe_collection_state_read_error, probe_issue_code_agent_unavailable)
failure_of (cluster_agent _) =
    (probe_collection_state_read_error, probe_issue_code_agent_unavailable)
failure_of timed_out = (probe_collection_state_read_error, probe_issue_code_agent_unavailable)
failure_of no_command_id = (probe_collection_state_read_error, probe_issue_code_agent_unavailable)

-- The wording of an error and the time of its report are arguments.
pub observed_segment :
    (ProbeError → String)
    → String
    → ProbeGatewayTarget
    → Result ProbeError ProbeAgentResult
    → ProbeSegment
observed_segment message at target (ok local) = segment_from_agent local target
observed_segment message at target (err why) =
    let segment = segment_from_agent no_result target in
    let (state, code) = failure_of why in
    let issue : ProbeIssue = record {
      scope = probe_issue_scope_collection;
      code = code;
      message = message why;
      context_id = "";
      hop_id = "";
    } in
    record segment {
      collection = some (record { state = state; completed_at = at });
      issues = append_probe_issue segment.issues issue;
    }

-- The zero value of an execution.
abbrev pub no_execution : ProbeExecution
no_execution = record {
  schema_version = pos 0;
  id = "";
  trace_id = "";
  source_cluster = "";
  gateway_id = "";
  method = "";
  target = "";
  state = "";
  started_at = "";
  completed_at = "";
  response_code = pos 0;
  response_bytes = pos 0;
  duration_millis = pos 0;
  segments = [];
  federated_snapshot_id = "";
  snapshot_consistency = "";
  issues = [];
  error = "";
  final_response_hop_id = "";
  final_upstream_hop_id = "";
}

abbrev pub or_no_execution : Option ProbeExecution → ProbeExecution
or_no_execution none = no_execution
or_no_execution (some probe) = probe

pub get_probe : Store → String → Option ProbeExecution
get_probe s id = lookup (trim_space id) s.probes

pub fail_probe : Store → String → String → String → Store × ProbeExecution
fail_probe s id message at =
    let probe = record (or_no_execution (lookup id s.probes)) {
      state = probe_execution_state_failed;
      error = message;
      completed_at = at;
    } in
    (record s { probes = insert id probe s.probes }, probe)
