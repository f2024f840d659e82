-- ===== src/Kube/Probe.antt =====
-- What an agent does for a probe command: internal/kube/probe.go. Package net/url, the exchange
-- with the gateway, the collection of its records and the clock are arguments.
pub mod Sorting
pub mod Accepted
pub mod Answers
mod Examples
use Prim.Native.Char.{code}
use Prim.Native.String
use gate_lens.Common.{
  ℕ, zero, suc, ◌+◌, ◌*◌, String, ℤ, pos, negsuc, Bool, true, false, List, [], ◌∷◌, ◌++◌, Option,
  none, some, ◌==◌, ◌&&◌, ◌||◌, not, length, is_empty, is_some, ltb, nat_eq, int_ltb, if◌then◌else◌,
  ◌+++◌, string_ltb, has_prefix, byte_length, lookup, Result, ok, err, ◌>>=◌, ◌>>◌, refuse, require,
}
use gate_lens.Domain.Values.{
  is_valid_probe_http_method, is_valid_probe_scheme, probe_issue_scope_execution,
  probe_issue_code_response_limit_exceeded, probe_issue_code_no_matching_log,
}
use gate_lens.Domain.Hop.{ObservedHop}
use gate_lens.Domain.Issues.{ProbeIssue, append_probe_issue}
use gate_lens.Domain.Topology.{ProbeEntry}
use gate_lens.Domain.Probe.{ProbeAgentResult, ProbeHttpResult, ProbeCollection}
use gate_lens.Domain.Command.{ProbeCommand}
use gate_lens.Domain.Validate.{probe_schema_version}
use gate_lens.Observed.Values.{decimal}
use gate_lens.Kube.Logs.{collection_issue}
use gate_lens.Kube.Logs.Window.{LogResult}

abbrev pub max_probe_body_bytes : ℕ
max_probe_body_bytes = 64 * 1024

abbrev pub max_probe_api_key_bytes : ℕ
max_probe_api_key_bytes = 8 * 1024

abbrev pub max_probe_response_bytes : ℤ
max_probe_response_bytes = pos (1024 * 1024)

pub record ProxyPod : Type 0 where
  pub name : String
  pub namespace : String
  pub uid : String
  pub container : String
  pub admin_port : ℤ
  pub labels : List (String × String)

pub record GatewayRuntime : Type 0 where
  pub gateway_id : String
  pub controller : String
  pub workload_id : String
  pub workload_name : String
  pub namespace : String
  pub pods : List ProxyPod

-- What the probe reads of the agent's store.
pub record Agent : Type 0 where
  pub cluster_id : String
  pub probe_entries : List (String × ProbeEntry)
  pub runtimes : List (String × GatewayRuntime)

-- url.URL
pub record Url : Type 0 where
  pub scheme : String
  pub user : String
  pub host : String
  pub path : String
  pub raw_path : String
  pub raw_query : String
  pub fragment : String

pub record UrlLibrary : Type 0 where
  pub parse_request_uri : String → Option Url
  pub parse : String → Option Url
  pub is_abs : Url → Bool
  pub print : Url → String

-- The request that the agent sends, with its headers.
pub record ProbeHttpRequest : Type 0 where
  pub method : String
  pub target : String
  pub host : String
  pub headers : List (String × String)
  pub body : String

-- client.Do fails, or the response's status, the bytes read and an error of the reading.
pub data HttpOutcome : Type 0 where
  refused : String → HttpOutcome
  answered : ℤ → ℤ → Option String → HttpOutcome

-- What an execution sees of its surroundings.
pub record ProbeRun : Type 0 where
  pub started_at : String
  pub completed_at : String
  pub request_error : Option String
  pub http : ProbeHttpRequest → HttpOutcome
  pub duration_millis : ℤ
  pub logs : GatewayRuntime → LogResult

pub data ProbeFailure : Type 0 where
  unsupported_method unknown_gateway no_ready_pod body_too_large invalid_api_key : ProbeFailure
  unknown_entry unsupported_scheme foreign_entry invalid_path : ProbeFailure
  bad_request : String → ProbeFailure

-- The verb %d on an int.
pub print_int : ℤ → String
print_int (pos n) = decimal n
print_int (negsuc n) = "-" +++ decimal (n + 1)

pub probe_gateway_runtime : Agent → String → Result ProbeFailure GatewayRuntime
probe_gateway_runtime agent gateway = do
  runtime ← require (lookup gateway agent.runtimes) unknown_gateway
  refuse (is_empty runtime.pods) no_ready_pod
  ok runtime

-- strings.ContainsAny(s, "\r\n")
unfoldable pub has_line_break : String → Bool
has_line_break String.[] = false
has_line_break (String.◌∷◌ c s) = nat_eq (code c) 13 || nat_eq (code c) 10 || has_line_break s

pub insert_observed : ObservedHop → List ObservedHop → List ObservedHop
insert_observed hop [] = hop ∷ []
insert_observed hop (x ∷ xs) =
    if string_ltb x.observed_at hop.observed_at then x ∷ insert_observed hop xs else hop ∷ x ∷ xs

-- sort.SliceStable by ObservedAt: an equal record stays behind.
pub sort_observed : List ObservedHop → List ObservedHop
sort_observed [] = []
sort_observed (hop ∷ hops) = insert_observed hop (sort_observed hops)

abbrev pub observed_nothing : String
observed_nothing = "未找到匹配 gatelens_probe_id 或 trace_id 的网关访问日志"

abbrev pub executed_unseen : String
executed_unseen = "未找到匹配 gatelens_probe_id 或 trace_id 的 Higress JSON 访问日志"

-- The end of both functions, behind the collection.
pub add_logs : LogResult → String → String → ProbeAgentResult → ProbeAgentResult
add_logs logs missing completed_at result =
    let issues = result.issues ++ logs.issues in
    record result {
      hops = sort_observed logs.hops;
      collection = logs.collection;
      issues =
          if is_empty logs.hops
          then append_probe_issue issues (collection_issue probe_issue_code_no_matching_log missing)
          else issues;
      completed_at = completed_at;
    }

-- The result at the start.
pub new_result : Agent → String → ProbeCommand → Option ProbeHttpResult → ProbeAgentResult
new_result agent started_at command http = record {
  schema_version = probe_schema_version;
  probe_id = command.probe_id;
  trace_id = command.trace_id;
  cluster_id = agent.cluster_id;
  gateway_id = command.gateway_id;
  started_at = started_at;
  completed_at = "";
  http = http;
  hops = [];
  collection = none;
  issues = [];
}

pub observe_probe : Agent → ProbeRun → ProbeCommand → ProbeAgentResult × Option ProbeFailure
observe_probe agent run command =
    let result = new_result agent run.started_at command none in
    elim (probe_gateway_runtime agent command.gateway_id) [
      | err why ↦ (result, some why)
      | ok runtime ↦ (add_logs (run.logs runtime) observed_nothing run.completed_at result, none)
    ]

abbrev pub set_header : String → String → List (String × String) → List (String × String)
set_header name value headers = if value == "" then headers else headers ++ (name, value) ∷ []

pub probe_request : ProbeCommand → String → ProbeHttpRequest
probe_request command target = record {
  method = command.method;
  target = target;
  host = command.host;
  headers = set_header "Content-Type" command.content_type (
      (if command.api_key == ""
          then (λ headers. headers)
          else set_header "Authorization" ("Bearer " +++ command.api_key))
        (("X-B3-TraceId", command.trace_id)
          ∷ ("X-GateLens-Probe-ID", command.probe_id)
          ∷ ("User-Agent", "GateLens-Probe/1.0")
          ∷ []));
  body = command.body;
}

abbrev pub empty_http : ProbeCommand → String → ProbeHttpResult
empty_http command target = record {
  method = command.method;
  target = target;
  response_code = pos 0;
  response_bytes = pos 0;
  duration_millis = pos 0;
  error = "";
}

-- The part of the result on the response.
pub http_result : ℤ → HttpOutcome → ProbeHttpResult → ProbeHttpResult
http_result duration (refused error) http = record http {
  duration_millis = duration;
  error = error;
}
http_result duration (answered status read none) http = record http {
  response_code = status;
  response_bytes = read;
  duration_millis = duration;
}
http_result duration (answered status read (some error)) http = record http {
  response_code = status;
  response_bytes = read;
  duration_millis = duration;
  error = "read probe response: " +++ error;
}

abbrev pub response_too_large : ProbeIssue
response_too_large = record {
  scope = probe_issue_scope_execution;
  code = probe_issue_code_response_limit_exceeded;
  message = "响应正文超过采集上限；正文未保存";
  context_id = "";
  hop_id = "";
}

pub response_issues : HttpOutcome → List ProbeIssue
response_issues (refused error) = []
response_issues (answered status read (some error)) = []
response_issues (answered status read none) =
    if int_ltb max_probe_response_bytes read then response_too_large ∷ [] else []

module _ (urls : UrlLibrary) where
  abbrev pub is_probe_path : Url → Bool
  is_probe_path url =
      not (urls.is_abs url) && url.host == "" && has_prefix url.path "/" && url.fragment == ""

  pub resolve_entry : Agent → String → String → String → Result ProbeFailure (ProbeEntry × String)
  resolve_entry agent gateway entry_id path = do
    entry ← require (lookup entry_id agent.probe_entries) unknown_entry
    refuse (not (is_valid_probe_scheme entry.scheme)) unsupported_scheme
    refuse (not (entry.gateway_id == gateway)) foreign_entry
    url ← require (urls.parse_request_uri path) invalid_path
    refuse (not (is_probe_path url)) invalid_path
    ok (
      entry,
      urls.print (record {
        scheme = entry.scheme;
        user = "";
        host = entry.dns_name +++ ":" +++ print_int entry.port;
        path = url.path;
        raw_path = url.raw_path;
        raw_query = url.raw_query;
        fragment = "";
      }),
    )

  pub redacted_probe_target : String → String
  redacted_probe_target target = elim (urls.parse target) [
    | none ↦ target
    | some url ↦ urls.print (record url { raw_query = ""; fragment = ""; user = "" })
  ]

  -- The tests of ExecuteProbe up to the target.
  pub prepare_probe : Agent → ProbeCommand → Result ProbeFailure (GatewayRuntime × String)
  prepare_probe agent command = do
    refuse (not (is_valid_probe_http_method command.method)) unsupported_method
    runtime ← probe_gateway_runtime agent command.gateway_id
    refuse (ltb max_probe_body_bytes (byte_length command.body)) body_too_large
    refuse
        (ltb max_probe_api_key_bytes (byte_length command.api_key)
          || has_line_break command.api_key)
        invalid_api_key
    entry ← resolve_entry agent command.gateway_id command.entry_id command.path
    ok (runtime, entry.1)

  -- The part of ExecuteProbe behind the target.
  pub send_probe :
      Agent
      → ProbeRun
      → ProbeCommand
      → GatewayRuntime
      → String
      → ProbeAgentResult × Option ProbeFailure
  send_probe agent run command runtime target =
      let http = empty_http command (redacted_probe_target target) in
      let result = new_result agent run.started_at command (some http) in
      let outcome = run.http (probe_request command target) in
      elim run.request_error [
        | some error ↦ (result, some (bad_request error))
        | none ↦ (
          add_logs (run.logs runtime) executed_unseen run.completed_at (record result {
            http = some (http_result run.duration_millis outcome http);
            issues = response_issues outcome;
          }),
          none,
        )
      ]

  pub execute_probe : Agent → ProbeRun → ProbeCommand → ProbeAgentResult × Option ProbeFailure
  execute_probe agent run command = elim (prepare_probe agent command) [
    | err why ↦ (new_result agent run.started_at command (some (empty_http command "")), some why)
    | ok (runtime, target) ↦ send_probe agent run command runtime target
  ]
