-- ===== src/Samples.antt =====
-- Records with empty fields, from which the examples are made.
use gate_lens.Common.{pos, false, [], none}
use gate_lens.Domain.Hop.{ObservedHop}
use gate_lens.Domain.Probe.{ProbeSegment, ProbeExecution, ProbeAgentResult}
use gate_lens.Domain.Topology.{
  Snapshot, Cluster, TopologyCluster, TopologyNode, Context, Topology, AgentSnapshot,
}
use gate_lens.Domain.Command.{AgentCommand, ProbeCommand, AgentCommandResult}

abbrev pub blank_hop : ObservedHop
blank_hop = record {
  context_id = "";
  id = "";
  runtime_source = "";
  log_source_id = "";
  log_sequence = pos 0;
  request_start_time = "";
  internal_redirect = false;
  ai_routing = none;
  observed_at = "";
  cluster_id = "";
  pod = "";
  authority = "";
  method = "";
  path = "";
  protocol = "";
  route_name = "";
  upstream_cluster = "";
  upstream_host = "";
  upstream_local_address = "";
  downstream_remote_address = "";
  downstream_local_address = "";
  response_code = pos 0;
  response_flags = "";
  response_code_details = "";
  duration_millis = pos 0;
  upstream_service_time_millis = pos 0;
  upstream_transport_failure = "";
  ai_log = "";
  ext_procs = [];
  evidence_source = "";
  correlation = "";
  confidence = "";
}

abbrev pub blank_segment : ProbeSegment
blank_segment = record {
  index = pos 0;
  cluster_id = "";
  gateway_id = "";
  gateway_name = "";
  snapshot_id = "";
  snapshot_observed_at = "";
  log_source = "";
  transport = "";
  destination = "";
  inference_basis = "";
  inference_confidence = "";
  hops = [];
  collection = none;
  relation_state = "";
  links = [];
  local_terminal_hop_ids = [];
  issues = [];
}

abbrev pub blank_execution : ProbeExecution
blank_execution = record {
  schema_version = pos 0;
  id = "";
  trace_id = "";
  source_cluster = "";
  gateway_id = "";
  method = "";
  target = "";
  state = "";
  started_at = "";
  completed_at = "";
  response_code = pos 0;
  response_bytes = pos 0;
  duration_millis = pos 0;
  segments = [];
  federated_snapshot_id = "";
  snapshot_consistency = "";
  issues = [];
  error = "";
  final_response_hop_id = "";
  final_upstream_hop_id = "";
}

abbrev pub no_snapshot : Snapshot
no_snapshot = record { id = ""; observed_at = ""; state = "" }

abbrev pub no_cluster : Cluster
no_cluster = record { id = ""; name = ""; version = "" }

abbrev pub blank_cluster : TopologyCluster
blank_cluster = record {
  id = "";
  name = "";
  environment = "";
  version = "";
  connection_state = "";
  namespaces = [];
  snapshot = no_snapshot;
}

abbrev pub blank_node : TopologyNode
blank_node = record {
  id = "";
  name = "";
  kind = "";
  namespace = "";
  cluster_id = "";
  status = "";
  status_text = "";
  summary = "";
  conditions = [];
  source = "";
  workload_scope = "";
}

abbrev pub blank_context : Context
blank_context = record {
  cluster = no_cluster;
  namespaces = [];
  snapshot = no_snapshot;
  capabilities = [];
}

abbrev pub blank_topology : Topology
blank_topology = record {
  snapshot_id = "";
  federated_snapshot_id = "";
  observed_at = "";
  consistency = "";
  clusters = [];
  nodes = [];
  edges = [];
  probe_entries = [];
  truncated = false;
}

abbrev pub blank_payload : AgentSnapshot
blank_payload = record {
  cluster = blank_cluster;
  context = blank_context;
  topology = blank_topology;
  findings = [];
  resources = [];
  sent_at = "";
}

abbrev pub blank_command : AgentCommand
blank_command = record {
  id = "";
  cluster_id = "";
  kind = "";
  gateway_id = "";
  deadline = "";
  execution_timeout_seconds = pos 0;
  probe = none;
}

abbrev pub blank_probe : ProbeCommand
blank_probe = record {
  probe_id = "";
  trace_id = "";
  gateway_id = "";
  entry_id = "";
  method = "";
  path = "";
  host = "";
  api_key = "";
  content_type = "";
  body = "";
  started_at = "";
}

abbrev pub blank_answer : AgentCommandResult
blank_answer = record { command_id = ""; cluster_id = ""; config = none; probe = none; error = "" }

abbrev pub blank_result : ProbeAgentResult
blank_result = record {
  schema_version = pos 0;
  probe_id = "";
  trace_id = "";
  cluster_id = "";
  gateway_id = "";
  started_at = "";
  completed_at = "";
  http = none;
  hops = [];
  collection = none;
  issues = [];
}
