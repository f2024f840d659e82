-- ===== src/Domain/Validate/Accepted.antt =====
-- What Validate accepts, said independently of its order of tests.
use gate_lens.Common.{
  String, pos, Bool, true, List, map, some, ◌≡◌, ◌≢◌, ◌↔◌, ◌⊎◌, contains, Distinct, All, is_some,
}
use gate_lens.Domain.Values.{
  agent_command_probe_http, agent_command_probe_observe, probe_issue_scope_relation,
  probe_issue_scope_inference, probe_issue_scope_execution, is_valid_probe_collection_state,
  is_valid_probe_http_method, is_valid_probe_correlation, is_valid_observation_confidence,
  is_valid_ext_proc_outcome, is_valid_probe_issue_scope, is_valid_probe_issue_code,
}
use gate_lens.Domain.Hop.{ObservedHop}
use gate_lens.Domain.Issues.{ProbeIssue}
use gate_lens.Domain.Probe.{ProbeAgentResult, ProbeCollection, ProbeHttpResult}
use gate_lens.Domain.Command.{AgentCommand, ProbeCommand}

-- One record of an accepted result.
pub record IsAcceptedHop (cluster : String) (hop : ObservedHop) : Type 0 where
  pub identified : hop.id ≢ ""
  pub owned : hop.cluster_id ≡ cluster
  pub correlated : (hop.correlation ≡ "") ⊎ (is_valid_probe_correlation hop.correlation ≡ true)
  pub observed : is_valid_observation_confidence hop.confidence ≡ true
  pub processed : All (λ proc. is_valid_ext_proc_outcome proc.outcome ≡ true) hop.ext_procs

-- One issue of an accepted result with these record identities.
pub record IsAcceptedIssue (ids : List String) (has_http : Bool) (issue : ProbeIssue) : Type 0 where
  pub refers : (issue.hop_id ≡ "") ⊎ (contains ids issue.hop_id ≡ true)
  pub scoped : is_valid_probe_issue_scope issue.scope ≡ true
  pub coded : is_valid_probe_issue_code issue.code ≡ true
  pub local_only :
      (issue.scope ≢ probe_issue_scope_relation) × (issue.scope ≢ probe_issue_scope_inference)
  pub executed : issue.scope ≡ probe_issue_scope_execution → has_http ≡ true

abbrev pub ids : List ObservedHop → List String
ids = map (λ hop. hop.id)

-- The part about the command: its kind, its probe and the result's identity.
pub record IsAnswer (result : ProbeAgentResult) (command : AgentCommand) : Type 0 where
  pub version : result.schema_version ≡ pos 2
  pub kind :
      (command.kind ≡ agent_command_probe_http) ⊎ (command.kind ≡ agent_command_probe_observe)
  pub probe : ProbeCommand
  pub asked : command.probe ≡ some probe
  pub same_probe : result.probe_id ≡ probe.probe_id
  pub same_trace : result.trace_id ≡ probe.trace_id
  pub same_cluster : result.cluster_id ≡ command.cluster_id
  pub same_gateway : result.gateway_id ≡ command.gateway_id
  pub http_iff : (command.kind ≡ agent_command_probe_http) ↔ (is_some result.http ≡ true)
  pub method :
      (http : ProbeHttpResult)
      → result.http ≡ some http
      → (is_valid_probe_http_method http.method ≡ true) × (http.method ≡ probe.method)

pub record IsAccepted (result : ProbeAgentResult) (command : AgentCommand) : Type 0 where
  pub answer : IsAnswer result command
  pub collected :
      (collection : ProbeCollection) × (result.collection ≡ some collection)
      × (is_valid_probe_collection_state collection.state ≡ true)
  pub hops : All (IsAcceptedHop result.cluster_id) result.hops
  pub distinct : Distinct (ids result.hops)
  pub issues : All (IsAcceptedIssue (ids result.hops) (is_some result.http)) result.issues
