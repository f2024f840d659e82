-- ===== src/Kube/Probe/Examples.antt =====
-- Two probe commands to one agent, which finds no record before the window ends.
use gate_lens.Common.{
  pos, false, [], ◌∷◌, none, some, ◌≡◌, refl, ok, lookup, after_prefix, byte_length,
}
use gate_lens.Domain.Values.{
  agent_command_probe_http, agent_command_probe_observe, is_valid_probe_http_method,
  is_valid_probe_scheme,
}
use gate_lens.Domain.Topology.{ProbeEntry}
use gate_lens.Domain.Command.{AgentCommand, ProbeCommand}
use gate_lens.Domain.Validate.{validate}
use gate_lens.Samples.{blank_command, blank_probe}
use gate_lens.Kube.Logs.{empty_cache}
use gate_lens.Kube.Logs.Samples.{sample_collector}
use gate_lens.Kube.Logs.Window.{
  window_over, Round, LogResult, window_end, stopped, run_round, collect_from, collect_probe_window,
}
use gate_lens.Kube.Probe.{
  Agent, GatewayRuntime, ProxyPod, ProbeRun, UrlLibrary, answered, observe_probe, execute_probe,
  prepare_probe, send_probe, probe_gateway_runtime, resolve_entry, has_line_break,
}
use gate_lens.Kube.Probe.Answers.{Collects, observe_probe-validate, execute_probe-validate}

abbrev pod : ProxyPod
pod = record {
  name = "pod";
  namespace = "ns";
  uid = "u1";
  container = "envoy";
  admin_port = pos 15000;
  labels = [];
}

abbrev runtime : GatewayRuntime
runtime = record {
  gateway_id = "g1";
  controller = "";
  workload_id = "";
  workload_name = "";
  namespace = "ns";
  pods = pod ∷ [];
}

abbrev entry : ProbeEntry
entry = record {
  id = "e1";
  gateway_id = "g1";
  cluster_id = "c1";
  namespace = "ns";
  service_name = "gateway";
  dns_name = "gateway.ns";
  port = pos 80;
  scheme = "http";
  protocol = "";
  display_name = "";
  addresses = [];
}

abbrev agent : Agent
agent = record {
  cluster_id = "c1";
  probe_entries = ("e1", entry) ∷ [];
  runtimes = ("g1", runtime) ∷ [];
}

abbrev over : Round
over = record {
  before = window_over;
  snapshots = [];
  error = none;
  after = window_over;
  late = window_over;
  now = 0;
  printed = "done";
}

abbrev logs : LogResult
logs = window_end "日志采集窗口已结束，未确认稳定终止记录" "done" empty_cache

abbrev run : ProbeRun
run = record {
  started_at = "start";
  completed_at = "end";
  request_error = none;
  http = λ request. answered (pos 200) (pos 12) none;
  duration_millis = pos 5;
  logs = λ _. logs;
}

abbrev probe : ProbeCommand
probe = record blank_probe {
  probe_id = "p1";
  trace_id = "t1";
  gateway_id = "g1";
  entry_id = "e1";
  method = "GET";
  path = "/v1";
}

abbrev urls : UrlLibrary
urls = record {
  parse_request_uri = λ path. some (record {
    scheme = "";
    user = "";
    host = "";
    path = path;
    raw_path = "";
    raw_query = "";
    fragment = "";
  });
  parse = λ text. none;
  is_abs = λ url. false;
  print = λ url. url.host;
}

abbrev observe : AgentCommand
observe = record blank_command {
  id = "k1";
  cluster_id = "c1";
  kind = agent_command_probe_observe;
  gateway_id = "g1";
  probe = some probe;
}

abbrev execute : AgentCommand
execute = record observe { kind = agent_command_probe_http }

collects : Collects agent run
unfolding collect_probe_window collect_from run_round stopped
collects = record {
  collector = sample_collector;
  settle = 500;
  rounds = λ _. over ∷ [];
  own = refl;
  collects = λ _. refl;
}

observes : observe_probe agent run probe ≡ ((observe_probe agent run probe).0, none)
unfolding observe_probe probe_gateway_runtime lookup
observes = refl

observe_probe-validate_example : validate ((observe_probe agent run probe).0) observe ≡ ok tt
observe_probe-validate_example =
    observe_probe-validate agent run observe probe ((observe_probe agent run probe).0) refl
      (record { payload = refl; cluster = refl; gateway = refl }) collects observes

executes : execute_probe urls agent run probe ≡ ((execute_probe urls agent run probe).0, none)
unfolding execute_probe prepare_probe send_probe probe_gateway_runtime resolve_entry lookup
    has_line_break byte_length after_prefix is_valid_probe_http_method is_valid_probe_scheme
executes = refl

execute_probe-validate_example : validate ((execute_probe urls agent run probe).0) execute ≡ ok tt
execute_probe-validate_example =
    execute_probe-validate urls agent run execute probe ((execute_probe urls agent run probe).0)
      refl (record { payload = refl; cluster = refl; gateway = refl }) collects executes
