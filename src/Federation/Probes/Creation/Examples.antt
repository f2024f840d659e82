-- ===== src/Federation/Probes/Creation/Examples.antt =====
-- A request for a probe with a timeout of its own.
use gate_lens.Common.{
  pos, false, [], ◌∷◌, none, some, ◌≡◌, refl, ok, lookup, trim_space, cut, after_prefix,
  byte_length,
}
use gate_lens.Domain.Values.{
  is_valid_probe_http_method, is_valid_probe_scheme, topology_node_kind_gateway,
}
use gate_lens.Domain.Topology.{AgentSnapshot, ProbeEntry}
use gate_lens.Domain.Probe.{ProbeRequest, ProbeExecution}
use gate_lens.Domain.Command.{AgentCommand}
use gate_lens.Samples.{blank_payload, blank_topology, blank_node}
use gate_lens.Federation.Store.{Store}
use gate_lens.Federation.Snapshots.{snapshot_has_gateway, strip_owner, resolve_probe_entry}
use gate_lens.Kube.Probe.{UrlLibrary, has_line_break}
use gate_lens.Federation.Probes.Creation.{
  Creation, method_of, timeout_of, command_of, execution_of, check_request, check_headers,
  start_probe, create_probe,
}
use gate_lens.Federation.Probes.Creation.Bounds.{IsBounded, create_probe-IsBounded}

abbrev entry : ProbeEntry
entry = record {
  id = "e";
  gateway_id = "g";
  cluster_id = "c";
  namespace = "ns";
  service_name = "gateway";
  dns_name = "gateway.ns";
  port = pos 80;
  scheme = "http";
  protocol = "";
  display_name = "";
  addresses = [];
}

abbrev payload : AgentSnapshot
payload = record blank_payload {
  topology = record blank_topology {
    nodes = record blank_node { id = "g"; kind = topology_node_kind_gateway } ∷ [];
    probe_entries = entry ∷ [];
  };
}

abbrev store : Store
store = record {
  preferred_cluster_id = "";
  stale_after = 90;
  snapshots = ("c", record { payload = payload; received_at = 9 }) ∷ [];
  command_queues = [];
  pending_commands = [];
  probes = [];
}

abbrev urls : UrlLibrary
urls = record {
  parse_request_uri = λ path. some (record {
    scheme = "";
    user = "";
    host = "";
    path = path;
    raw_path = "";
    raw_query = "";
    fragment = "";
  });
  parse = λ text. none;
  is_abs = λ url. false;
  print = λ url. "http://gateway.ns:80/v1";
}

abbrev creation : Creation
creation = record {
  to_upper = λ text. text;
  probe_id = some "p1";
  trace_id = some "t1";
  command_id = some "k1";
  started = 0;
  format_time = λ time. "12:00";
  federated_snapshot_id = "f1";
  consistency = "consistent-window";
}

abbrev request : ProbeRequest
request = record {
  source_cluster = "c";
  gateway_id = "g";
  entry_id = "e";
  method = "";
  path = "/v1";
  host = "api.example";
  api_key = "secret";
  content_type = "";
  body = "{}";
  timeout_seconds = pos 20;
}

abbrev command : AgentCommand
command = command_of creation request "c" "g" entry "p1" "t1" "k1"

abbrev execution : ProbeExecution
execution = execution_of creation request "c" "g" "http://gateway.ns:80/v1" "p1" "t1"

created : create_probe store urls creation request ≡ ok (execution, command)
unfolding create_probe start_probe check_headers check_request timeout_of method_of
    resolve_probe_entry strip_owner snapshot_has_gateway has_line_break byte_length trim_space cut
    after_prefix lookup is_valid_probe_scheme is_valid_probe_http_method
created = refl

create_probe-IsBounded_example : IsBounded command
create_probe-IsBounded_example =
    create_probe-IsBounded store urls creation request execution command created
