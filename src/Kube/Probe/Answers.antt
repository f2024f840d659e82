-- ===== src/Kube/Probe/Answers.antt =====
-- The server accepts what the agent answers: ProbeAgentResult.Validate on the results of
-- ObserveProbe and ExecuteProbe.
use gate_lens.Common.{
  ℕ, List, ℕ, String, ℤ, true, List, [], ◌∷◌, none, some, ◌≡◌, refl, ap, subst, sym, ◌∙◌, inl, inr,
  All, Option-cases, Result-cases, arith, eq_iff, not, int_ltb, refuse->>-eq-ok, ok,
}
use gate_lens.Domain.Values.{
  agent_command_probe_http, agent_command_probe_observe, is_valid_probe_issue_code,
  is_valid_probe_issue_scope, probe_issue_scope_relation, probe_issue_scope_inference,
  probe_issue_scope_execution, is_valid_probe_http_method,
}
use gate_lens.Domain.Issues.{ProbeIssue}
use gate_lens.Domain.Probe.{ProbeAgentResult, ProbeHttpResult}
use gate_lens.Domain.Command.{AgentCommand, ProbeCommand}
use gate_lens.Domain.Validate.{validate}
use gate_lens.Domain.Validate.Accepted.{IsAcceptedIssue, IsAnswer, IsAccepted}
use gate_lens.Domain.Validate.Laws.{validate_iff}
use gate_lens.Kube.Logs.{Collector}
use gate_lens.Kube.Logs.Window.{Round, collect_probe_window}
use gate_lens.Kube.Logs.Window.Reports.{IsReport, collect-IsReport}
use gate_lens.Kube.Probe.{
  Agent, GatewayRuntime, ProbeRun, UrlLibrary, HttpOutcome, refused, answered, add_logs, new_result,
  observed_nothing, executed_unseen, max_probe_response_bytes, response_too_large, probe_request,
  redacted_probe_target, observe_probe, probe_gateway_runtime, http_result, response_issues,
  send_probe, prepare_probe, execute_probe, empty_http,
}
use gate_lens.Kube.Probe.Accepted.{All-either, add_logs-IsAccepted}

-- What the command of a probe asks of its agent.
pub record Asks (agent : Agent) (command : AgentCommand) (probe : ProbeCommand) : Type 0 where
  pub payload : command.probe ≡ some probe
  pub cluster : command.cluster_id ≡ agent.cluster_id
  pub gateway : command.gateway_id ≡ probe.gateway_id

-- The records of every gateway of the agent were collected for the agent's cluster.
pub record Collects (agent : Agent) (run : ProbeRun) : Type 0 where
  pub collector : Collector
  pub settle : ℕ
  pub rounds : GatewayRuntime → List Round
  pub own : collector.cluster_id ≡ agent.cluster_id
  pub collects :
      (runtime : GatewayRuntime)
      → collect_probe_window collector settle (rounds runtime) ≡ some (run.logs runtime)

Collects-IsReport :
    (agent : Agent) (run : ProbeRun) (runtime : GatewayRuntime)
    → Collects agent run
    → IsReport agent.cluster_id (run.logs runtime)
Collects-IsReport agent run runtime h =
    subst (λ (cluster : String). IsReport cluster (run.logs runtime)) h.own
      (collect-IsReport h.collector h.settle (h.rounds runtime) (run.logs runtime)
        (h.collects runtime))

new_result-IsAnswer :
    (agent : Agent) (started_at : String) (command : AgentCommand) (probe : ProbeCommand)
    → command.kind ≡ agent_command_probe_observe
    → Asks agent command probe
    → IsAnswer (new_result agent started_at probe none) command
unfolding new_result
new_result-IsAnswer agent started_at command probe kind asks = record {
  version = refl;
  kind = inr kind;
  probe = probe;
  asked = asks.payload;
  same_probe = refl;
  same_trace = refl;
  same_cluster = sym asks.cluster;
  same_gateway = sym asks.gateway;
  http_iff = (
    (λ e.
        ground (arith, eq_iff agent_command_probe_observe agent_command_probe_http, sym kind ∙ e)),
    (λ e. absurd (ground arith)),
  );
  method = λ http e. absurd (ground arith);
}

-- An observation without an error, whose records collectProbeWindow collected, is
-- accepted by the server for the command that asked for it.
pub observe_probe-validate :
    (agent : Agent) (run : ProbeRun) (command : AgentCommand) (probe : ProbeCommand)
    (result : ProbeAgentResult)
    → command.kind ≡ agent_command_probe_observe
    → Asks agent command probe
    → Collects agent run
    → observe_probe agent run probe ≡ (result, none)
    → validate result command ≡ ok tt
unfolding observe_probe new_result
observe_probe-validate agent run command probe result kind asks collects e =
    elim (Result-cases (probe_gateway_runtime agent probe.gateway_id)) [
      | inr (why, f) ↦ absurd (ground arith)
      | inl (runtime, f) ↦
          let answer = new_result agent run.started_at probe none in
          let accepted =
            add_logs-IsAccepted answer command (run.logs runtime) observed_nothing run.completed_at
              (new_result-IsAnswer agent run.started_at command probe kind asks) (λ names. tt)
              (Collects-IsReport agent run runtime collects) in
          let same : add_logs (run.logs runtime) observed_nothing run.completed_at answer ≡ result =
            ground arith in
          (validate_iff result command).1 (subst (λ r. IsAccepted r command) same accepted)
    ]

http_result-method :
    (duration : ℤ) (outcome : HttpOutcome) (http : ProbeHttpResult)
    → (http_result duration outcome http).method ≡ http.method
unfolding http_result
http_result-method duration (refused error) http = refl
http_result-method duration (answered status read none) http = refl
http_result-method duration (answered status read (some error)) http = refl

response_issues-accepted :
    (names : List String) (outcome : HttpOutcome)
    → All (IsAcceptedIssue names true) (response_issues outcome)
unfolding response_issues is_valid_probe_issue_scope is_valid_probe_issue_code
response_issues-accepted names (refused error) = tt
response_issues-accepted names (answered status read (some error)) = tt
response_issues-accepted names (answered status read none) =
    All-either (IsAcceptedIssue names true) (int_ltb max_probe_response_bytes read)
      (response_too_large ∷ []) [] (large, tt) tt
  where
    large : IsAcceptedIssue names true response_too_large
    large = record {
      refers = inl refl;
      scoped = refl;
      coded = refl;
      local_only = (
        (λ e. ground (arith, eq_iff probe_issue_scope_execution probe_issue_scope_relation, e)),
        (λ e. ground (arith, eq_iff probe_issue_scope_execution probe_issue_scope_inference, e)),
      );
      executed = λ e. refl;
    }

executed-IsAnswer :
    (agent : Agent) (started_at : String) (command : AgentCommand) (probe : ProbeCommand)
    (http : ProbeHttpResult) (issues : List ProbeIssue)
    → command.kind ≡ agent_command_probe_http
    → Asks agent command probe
    → is_valid_probe_http_method probe.method ≡ true
    → http.method ≡ probe.method
    → IsAnswer (record (new_result agent started_at probe (some http)) { issues = issues }) command
unfolding new_result
executed-IsAnswer agent started_at command probe http issues kind asks valid same = record {
  version = refl;
  kind = inl kind;
  probe = probe;
  asked = asks.payload;
  same_probe = refl;
  same_trace = refl;
  same_cluster = sym asks.cluster;
  same_gateway = sym asks.gateway;
  http_iff = ((λ _. refl), (λ _. kind));
  method = λ other e.
      let equal : http ≡ other = ground arith in
      subst
        (λ (h : ProbeHttpResult).
          (is_valid_probe_http_method h.method ≡ true) × (h.method ≡ probe.method))
        equal (ap is_valid_probe_http_method same ∙ valid, same);
}

module _ (urls : UrlLibrary) where
  send_probe-validate :
      (agent : Agent) (run : ProbeRun) (command : AgentCommand) (probe : ProbeCommand)
      (runtime : GatewayRuntime) (target : String) (result : ProbeAgentResult)
      → command.kind ≡ agent_command_probe_http
      → Asks agent command probe
      → is_valid_probe_http_method probe.method ≡ true
      → IsReport agent.cluster_id (run.logs runtime)
      → send_probe urls agent run probe runtime target ≡ (result, none)
      → validate result command ≡ ok tt
  unfolding send_probe new_result
  send_probe-validate agent run command probe runtime target result kind asks valid report e =
      let outcome = run.http (probe_request probe target) in
      let http =
        http_result run.duration_millis outcome
          (empty_http probe (redacted_probe_target urls target)) in
      let answer = record (new_result agent run.started_at probe (some http)) {
        issues = response_issues outcome;
      } in
      let accepted =
        add_logs-IsAccepted answer command (run.logs runtime) executed_unseen run.completed_at
          (executed-IsAnswer agent run.started_at command probe http (response_issues outcome) kind
            asks valid (http_result-method run.duration_millis outcome _))
          (λ names. response_issues-accepted names outcome) report in
      elim (Option-cases run.request_error) [
        | inr (error, f) ↦ absurd (ground arith)
        | inl f ↦
            let same : add_logs (run.logs runtime) executed_unseen run.completed_at answer
                ≡ result =
              ground arith in
            (validate_iff result command).1 (subst (λ r. IsAccepted r command) same accepted)
      ]

  prepare_probe-method :
      (agent : Agent) (probe : ProbeCommand) (runtime : GatewayRuntime) (target : String)
      → prepare_probe urls agent probe ≡ ok (runtime, target)
      → is_valid_probe_http_method probe.method ≡ true
  unfolding prepare_probe
  prepare_probe-method agent probe runtime target e =
      let (valid, _) = refuse->>-eq-ok (not (is_valid_probe_http_method probe.method)) _ _ e in
      ground arith

  -- An execution without an error, whose records collectProbeWindow collected, is
  -- accepted by the server for the command that asked for it, also if the exchange failed or the
  -- response was too large.
  pub execute_probe-validate :
      (agent : Agent) (run : ProbeRun) (command : AgentCommand) (probe : ProbeCommand)
      (result : ProbeAgentResult)
      → command.kind ≡ agent_command_probe_http
      → Asks agent command probe
      → Collects agent run
      → execute_probe urls agent run probe ≡ (result, none)
      → validate result command ≡ ok tt
  unfolding execute_probe
  execute_probe-validate agent run command probe result kind asks collects e =
      elim (Result-cases (prepare_probe urls agent probe)) [
        | inr (why, f) ↦ absurd (ground arith)
        | inl ((runtime, target), f) ↦
            send_probe-validate agent run command probe runtime target result kind asks
              (prepare_probe-method agent probe runtime target f)
              (Collects-IsReport agent run runtime collects) (ground arith)
      ]
