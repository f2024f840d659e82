-- ===== src/Domain/Examples.antt =====
-- An agent's answer to a probe-http command, through internal/domain/probe_protocol.go.
use gate_lens.Common.{pos, [], ◌∷◌, some, ◌≡◌, ◌↔◌, ok}
use gate_lens.Domain.Values.{agent_command_probe_http, probe_collection_state_settled}
use gate_lens.Domain.Hop.{ObservedHop}
use gate_lens.Domain.Probe.{ProbeAgentResult}
use gate_lens.Domain.Command.{AgentCommand}
use gate_lens.Domain.Validate.{validate}
use gate_lens.Domain.Validate.Accepted.{IsAccepted}
use gate_lens.Domain.Validate.Laws.{validate_iff}
use gate_lens.Samples.{blank_hop, blank_command, blank_probe, blank_result}

abbrev probe_command : AgentCommand
probe_command = record blank_command {
  id = "cmd-1";
  cluster_id = "c";
  kind = agent_command_probe_http;
  gateway_id = "g";
  probe = some (record blank_probe { probe_id = "p"; trace_id = "t"; method = "GET" });
}

abbrev answer_hop : ObservedHop
answer_hop = record blank_hop { id = "h"; cluster_id = "c"; confidence = "observed" }

abbrev probe_answer : ProbeAgentResult
probe_answer = record blank_result {
  schema_version = pos 2;
  probe_id = "p";
  trace_id = "t";
  cluster_id = "c";
  gateway_id = "g";
  http = some (record {
    method = "GET";
    target = "http://g/";
    response_code = pos 200;
    response_bytes = pos 2;
    duration_millis = pos 5;
    error = "";
  });
  hops = answer_hop ∷ [];
  collection = some (record { state = probe_collection_state_settled; completed_at = "10:01" });
}

validate_iff_example :
    (validate probe_answer probe_command ≡ ok tt) ↔ IsAccepted probe_answer probe_command
validate_iff_example = validate_iff probe_answer probe_command
