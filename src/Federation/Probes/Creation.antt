-- ===== src/Federation/Probes/Creation.antt =====
-- The start of a probe: CreateProbe of internal/federation/store.go up to the queue. Package
-- net/url, upper case, the making of identities, the clock and the printing of times are arguments.
pub mod Bounds
mod Examples
use gate_lens.Common.{
  ℕ, ◌+◌, ◌*◌, String, ℤ, pos, Bool, true, false, List, [], ◌∷◌, Option, none, some, ◌==◌, ◌&&◌,
  ◌||◌, not, ltb, int_ltb, int_add, if◌then◌else◌, ◌+++◌, trim_space, has_prefix, byte_length,
  Result, ok, err, ◌>>=◌, ◌>>◌, refuse, require,
}
use gate_lens.Domain.Values.{
  ProbeHttpMethod, SnapshotConsistency, probe_http_method_get, is_valid_probe_http_method,
  agent_command_probe_http, probe_execution_state_running,
}
use gate_lens.Domain.Topology.{ProbeEntry}
use gate_lens.Domain.Probe.{ProbeRequest, ProbeExecution}
use gate_lens.Domain.Command.{AgentCommand, ProbeCommand}
use gate_lens.Domain.Validate.{probe_schema_version}
use gate_lens.Federation.Store.{Store}
use gate_lens.Federation.Ids.{global_id}
use gate_lens.Federation.Snapshots.{ResolveError, resolve_probe_entry}
use gate_lens.Kube.Probe.{Url, UrlLibrary, is_probe_path, has_line_break, print_int}

pub data CreateError : Type 0 where
  unresolved : ResolveError → CreateError
  unsupported_method : String → CreateError
  body_too_large invalid_path host_with_line_break api_key_too_large api_key_with_line_break :
      CreateError
  timeout_too_long no_random_id : CreateError

-- What the start of a probe sees of its surroundings; each identity may fail to be made.
pub record Creation : Type 0 where
  pub to_upper : String → String
  pub probe_id : Option String
  pub trace_id : Option String
  pub command_id : Option String
  pub started : ℕ
  pub format_time : ℕ → String
  pub federated_snapshot_id : String
  pub consistency : SnapshotConsistency

-- probeCommandQueueWait, in nanoseconds
abbrev pub probe_command_queue_wait : ℕ
probe_command_queue_wait = 30 * 1000000000

abbrev pub resolved : {A : Type 0} → Result ResolveError A → Result CreateError A
resolved (err why) = err (unresolved why)
resolved (ok a) = ok a

pub method_of : (String → String) → ProbeRequest → ProbeHttpMethod
method_of to_upper request =
    let method = to_upper (trim_space request.method) in
    if method == "" then probe_http_method_get else method

pub timeout_of : ProbeRequest → ℤ
timeout_of request =
    if int_ltb (pos 0) request.timeout_seconds then request.timeout_seconds else pos 15

-- The command for the agent of the source cluster.
pub command_of :
    Creation → ProbeRequest → String → String → ProbeEntry → String → String → String → AgentCommand
command_of creation request cluster gateway entry probe_id trace_id command_id = record {
  id = command_id;
  cluster_id = cluster;
  kind = agent_command_probe_http;
  gateway_id = gateway;
  deadline = creation.format_time (creation.started + probe_command_queue_wait);
  execution_timeout_seconds = int_add (timeout_of request) (pos 5);
  probe = some (record {
    probe_id = probe_id;
    trace_id = trace_id;
    gateway_id = gateway;
    entry_id = entry.id;
    method = method_of creation.to_upper request;
    path = request.path;
    host = request.host;
    api_key = request.api_key;
    content_type = request.content_type;
    body = request.body;
    started_at = creation.format_time creation.started;
  });
}

-- The probe as it is stored while it runs.
pub execution_of :
    Creation → ProbeRequest → String → String → String → String → String → ProbeExecution
execution_of creation request cluster gateway target probe_id trace_id = record {
  schema_version = probe_schema_version;
  id = probe_id;
  trace_id = trace_id;
  source_cluster = cluster;
  gateway_id = global_id cluster gateway;
  method = method_of creation.to_upper request;
  target = target;
  state = probe_execution_state_running;
  started_at = creation.format_time creation.started;
  completed_at = "";
  response_code = pos 0;
  response_bytes = pos 0;
  duration_millis = pos 0;
  segments = [];
  federated_snapshot_id = creation.federated_snapshot_id;
  snapshot_consistency = creation.consistency;
  issues = [];
  error = "";
  final_response_hop_id = "";
  final_upstream_hop_id = "";
}

-- The tests of the request behind the resolution of its entry.
pub check_request : Creation → ProbeRequest → Result CreateError (Unit {0})
check_request creation request = do
  let method = method_of creation.to_upper request
  refuse (not (is_valid_probe_http_method method)) (unsupported_method method)
  refuse (ltb (64 * 1024) (byte_length request.body)) body_too_large

pub check_headers : ProbeRequest → Result CreateError (Unit {0})
check_headers request = do
  refuse (has_line_break request.host) host_with_line_break
  refuse (ltb (8 * 1024) (byte_length request.api_key)) api_key_too_large
  refuse (has_line_break request.api_key) api_key_with_line_break
  refuse (int_ltb (pos 30) (timeout_of request)) timeout_too_long

-- The part behind the tests.
pub start_probe :
    UrlLibrary
    → Creation
    → ProbeRequest
    → Url
    → String
    → String
    → ProbeEntry
    → Result CreateError (ProbeExecution × AgentCommand)
start_probe urls creation request url cluster gateway entry = do
  probe_id ← require creation.probe_id no_random_id
  trace_id ← require creation.trace_id no_random_id
  command_id ← require creation.command_id no_random_id
  let target = urls.print (record {
    scheme = entry.scheme;
    user = "";
    host = entry.dns_name +++ ":" +++ print_int entry.port;
    path = url.path;
    raw_path = url.raw_path;
    raw_query = "";
    fragment = "";
  })
  ok (
    execution_of creation request cluster gateway target probe_id trace_id,
    command_of creation request cluster gateway entry probe_id trace_id command_id,
  )

pub create_probe :
    Store
    → UrlLibrary
    → Creation
    → ProbeRequest
    → Result CreateError (ProbeExecution × AgentCommand)
create_probe s urls creation request = do
  entry ←
      resolved (resolve_probe_entry s request.source_cluster request.gateway_id request.entry_id)
  check_request creation request
  url ← require (urls.parse_request_uri (trim_space request.path)) invalid_path
  refuse (not (is_probe_path urls url)) invalid_path
  check_headers request
  start_probe urls creation request url (entry.0) (entry.1) (entry.2)
