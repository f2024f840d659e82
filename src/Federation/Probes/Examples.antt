-- ===== src/Federation/Probes/Examples.antt =====
-- An observed gateway whose agent reports a failed reading of a log, through
-- internal/federation/store.go.
use gate_lens.Common.{String, pos, false, [], ◌∷◌, some}
use gate_lens.Domain.Values.{
  agent_command_probe_observe, probe_issue_scope_collection, probe_issue_code_log_read_error,
  probe_collection_state_read_error, observation_confidence_observed,
}
use gate_lens.Domain.Probe.{ProbeAgentResult}
use gate_lens.Domain.Command.{AgentCommand, AgentCommandResult}
use gate_lens.Samples.{blank_hop, blank_command, blank_probe, blank_answer, blank_result}
use gate_lens.Federation.Probes.{ProbeGatewayTarget, ProbeError, probe_outcome, observed_segment}
use gate_lens.Federation.Probes.Segments.{IsCollected, observed_segment-IsCollected}

abbrev command : AgentCommand
command = record blank_command {
  id = "cmd-1";
  cluster_id = "c";
  kind = agent_command_probe_observe;
  gateway_id = "g";
  probe = some (record blank_probe { probe_id = "p"; trace_id = "t" });
}

abbrev result : ProbeAgentResult
result = record blank_result {
  schema_version = pos 2;
  probe_id = "p";
  trace_id = "t";
  cluster_id = "c";
  gateway_id = "g";
  hops =
      record blank_hop { id = "h"; cluster_id = "c"; confidence = observation_confidence_observed }
      ∷ [];
  collection = some (record { state = probe_collection_state_read_error; completed_at = "10:01" });
  issues =
      record {
        scope = probe_issue_scope_collection;
        code = probe_issue_code_log_read_error;
        message = "reset by peer";
        context_id = "";
        hop_id = "h";
      }
      ∷ [];
}

abbrev answer : AgentCommandResult
answer = record blank_answer { command_id = "cmd-1"; cluster_id = "c"; probe = some result }

abbrev target : ProbeGatewayTarget
target = record {
  cluster_id = "c";
  gateway_id = "g";
  global_id = "c::g";
  gateway_name = "g";
  snapshot_id = "";
  observed_at = "";
  transport = "";
  destination = "";
  declared = false;
  predecessor_gateway_id = "";
}

abbrev no_wording : ProbeError → String
no_wording why = ""

observed_segment-IsCollected_example :
    IsCollected command.cluster_id
      (observed_segment no_wording "10:02" target (probe_outcome command (some answer)))
observed_segment-IsCollected_example =
    observed_segment-IsCollected no_wording "10:02" target command (some answer)
