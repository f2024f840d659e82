-- ===== src/Domain/Validate/Laws.antt =====
-- Validate accepts exactly the results that IsAccepted describes.
use gate_lens.Common.{
  String, ℤ, pos, Bool, true, false, List, [], ◌∷◌, Option, none, some, ◌≡◌, refl, ◌≢◌, ◌↔◌, ◌⊎◌,
  ◌==◌, eq_iff, any, contains, All, All-map, not-any_iff, int_eq_iff, is_some, ok, err, arith, not,
  sym, int_eq,
}
use gate_lens.Domain.Values.{
  agent_command_probe_http, agent_command_probe_observe, is_valid_probe_collection_state,
  is_valid_probe_http_method,
}
use gate_lens.Domain.Hop.{ObservedHop}
use gate_lens.Domain.Issues.{ProbeIssue}
use gate_lens.Domain.Probe.{ProbeAgentResult, ProbeCollection, ProbeHttpResult}
use gate_lens.Domain.Command.{AgentCommand, ProbeCommand}
use gate_lens.Domain.Validate.{
  err_probe_protocol_unsupported, validate, validate_hops, is_probe_kind, matches_probe,
  has_valid_state, has_valid_method, is_valid_issue, probe_schema_version, same_bool,
}
use gate_lens.Domain.Validate.Accepted.{IsAcceptedIssue, IsAccepted, ids}
use gate_lens.Domain.Validate.Records.{
  is_valid_issue_iff, validate_hops_iff, contains-seen_after, Fresh-iff, All-not_seen, seen_after,
}

-- The tests before the loops, and the loops.
validate_steps :
    (result : ProbeAgentResult) (command : AgentCommand)
    → (validate result command ≡ ok tt) ↔ (
        (int_eq result.schema_version probe_schema_version ≡ true)
        × (is_probe_kind command ≡ true)
        × (matches_probe result command command.probe ≡ true)
        × (has_valid_state result.collection ≡ true)
        × (same_bool (command.kind == agent_command_probe_http) (is_some result.http) ≡ true)
        × (has_valid_method result.http command.probe ≡ true)
        × ((seen : List String) × (validate_hops result.cluster_id [] result.hops ≡ ok seen)
            × (any (λ issue. not (is_valid_issue seen (is_some result.http) issue)) result.issues
                ≡ false)))
unfolding validate
validate_steps result command = ground arith

validate_hops-ne-unsupported :
    (cluster : String) (seen : List String) (hops : List ObservedHop) (version : ℤ)
    → validate_hops cluster seen hops ≢ err (err_probe_protocol_unsupported version)
unfolding validate_hops
validate_hops-ne-unsupported cluster seen [] version = ground arith
validate_hops-ne-unsupported cluster seen (hop ∷ hops) version =
    ground (arith, validate_hops-ne-unsupported cluster (hop.id ∷ seen) hops version)

-- Validate reports an unsupported version exactly for a result whose version is not 2, and names
-- that version, whatever else is wrong with the result.
validate-eq-unsupported_iff :
    (result : ProbeAgentResult) (command : AgentCommand) (version : ℤ)
    → (validate result command ≡ err (err_probe_protocol_unsupported version))
      ↔ ((result.schema_version ≢ pos 2) × (version ≡ result.schema_version))
unfolding validate
validate-eq-unsupported_iff result command version = ground (
  arith,
  int_eq_iff result.schema_version (pos 2),
  validate_hops-ne-unsupported result.cluster_id [] result.hops version,
)

matches_probe_iff :
    (result : ProbeAgentResult) (command : AgentCommand) (asked : Option ProbeCommand)
    → (matches_probe result command asked ≡ true) ↔ (
        (probe : ProbeCommand) × (asked ≡ some probe)
        × (result.probe_id ≡ probe.probe_id)
        × (result.trace_id ≡ probe.trace_id)
        × (result.cluster_id ≡ command.cluster_id)
        × (result.gateway_id ≡ command.gateway_id))
unfolding matches_probe
matches_probe_iff result command none = ground arith
matches_probe_iff result command (some probe) = (
  (λ h. (
    probe,
    refl,
    ground (arith, eq_iff result.probe_id probe.probe_id),
    ground (arith, eq_iff result.trace_id probe.trace_id),
    ground (arith, eq_iff result.cluster_id command.cluster_id),
    ground (arith, eq_iff result.gateway_id command.gateway_id),
  )),
  (λ (probe', e, a, b, c, d). ground (
    arith,
    eq_iff result.probe_id probe.probe_id,
    eq_iff result.trace_id probe.trace_id,
    eq_iff result.cluster_id command.cluster_id,
    eq_iff result.gateway_id command.gateway_id,
  )),
)

has_valid_state_iff :
    (collected : Option ProbeCollection)
    → (has_valid_state collected ≡ true) ↔ (
        (collection : ProbeCollection) × (collected ≡ some collection)
        × (is_valid_probe_collection_state collection.state ≡ true))
unfolding has_valid_state
has_valid_state_iff none = ground arith
has_valid_state_iff (some collection) = ((λ h. (collection, refl, h)), (λ (c, e, h). ground arith))

has_valid_method_iff :
    (sent : Option ProbeHttpResult) (probe : ProbeCommand)
    → (has_valid_method sent (some probe) ≡ true) ↔ (
        (http : ProbeHttpResult)
        → sent ≡ some http
        → (is_valid_probe_http_method http.method ≡ true) × (http.method ≡ probe.method))
unfolding has_valid_method
has_valid_method_iff none probe = ground arith
has_valid_method_iff (some http) probe = (
  (λ h http' e. ground (arith, eq_iff http'.method probe.method)),
  (λ h. let (valid, same) = h http refl in ground (arith, eq_iff http.method probe.method)),
)

is_probe_kind_iff :
    (command : AgentCommand)
    → (is_probe_kind command ≡ true)
      ↔ ((command.kind ≡ agent_command_probe_http) ⊎ (command.kind ≡ agent_command_probe_observe))
unfolding is_probe_kind
is_probe_kind_iff command = ground (
  arith,
  eq_iff command.kind agent_command_probe_http,
  eq_iff command.kind agent_command_probe_observe,
)

same_bool_iff :
    (kind expected : String) (b : Bool)
    → (same_bool (kind == expected) b ≡ true) ↔ ((kind ≡ expected) ↔ (b ≡ true))
same_bool_iff kind expected b = ground (arith, eq_iff kind expected)

IsAcceptedIssue-congr :
    (a b : List String) (has_http : Bool) (issue : ProbeIssue)
    → contains a issue.hop_id ≡ contains b issue.hop_id
    → IsAcceptedIssue a has_http issue
    → IsAcceptedIssue b has_http issue
IsAcceptedIssue-congr a b has_http issue e v = record {
  refers = ground arith;
  scoped = v.scoped;
  coded = v.coded;
  local_only = v.local_only;
  executed = v.executed;
}

-- The issues, tested against the identities of all records.
issues_iff :
    (result : ProbeAgentResult)
    → (any
          (λ issue. not (is_valid_issue (seen_after [] result.hops) (is_some result.http) issue))
          result.issues
        ≡ false)
      ↔ All (IsAcceptedIssue (ids result.hops) (is_some result.http)) result.issues
issues_iff result =
    let (to, from) =
      not-any_iff (is_valid_issue (seen_after [] result.hops) (is_some result.http))
        result.issues in
    (
      (λ h.
          All-map result.issues
            (λ issue v.
              IsAcceptedIssue-congr _ _ _ issue (contains-seen_after issue.hop_id [] result.hops)
                ((is_valid_issue_iff _ _ issue).0 v))
            (to h)),
      (λ h. from (
          All-map result.issues
            (λ issue v. (is_valid_issue_iff _ _ issue).1 (
              IsAcceptedIssue-congr _ _ _ issue
                (sym (contains-seen_after issue.hop_id [] result.hops)) v))
            h)),
    )

validate_sound :
    (result : ProbeAgentResult) (command : AgentCommand)
    → validate result command ≡ ok tt
    → IsAccepted result command
validate_sound result command h =
    let (version, kind, matched, state, payload, method, loops) =
      (validate_steps result command).0 h in
    let (seen, checked, issued) = loops in
    let (probe, asked, p, t, c, g) = (matches_probe_iff result command command.probe).0 matched in
    let (hops, fresh, same) = (validate_hops_iff result.cluster_id [] result.hops seen).0 checked in
    record {
      answer = record {
        version = (int_eq_iff _ _).0 version;
        kind = (is_probe_kind_iff command).0 kind;
        probe = probe;
        asked = asked;
        same_probe = p;
        same_trace = t;
        same_cluster = c;
        same_gateway = g;
        http_iff = (same_bool_iff command.kind _ _).0 payload;
        method = (has_valid_method_iff result.http probe).0 (rw asked at method);
      };
      collected = (has_valid_state_iff result.collection).0 state;
      hops = hops;
      distinct = ((Fresh-iff [] result.hops).0 fresh).0;
      issues = (issues_iff result).0 (rw (← same) at issued);
    }

validate_complete :
    (result : ProbeAgentResult) (command : AgentCommand)
    → IsAccepted result command
    → validate result command ≡ ok tt
validate_complete result command accepted =
    let a = accepted.answer in
    (validate_steps result command).1 (
      (int_eq_iff _ _).1 a.version,
      (is_probe_kind_iff command).1 a.kind,
      (matches_probe_iff result command command.probe).1
          (a.probe, a.asked, a.same_probe, a.same_trace, a.same_cluster, a.same_gateway),
      (has_valid_state_iff result.collection).1 accepted.collected,
      (same_bool_iff command.kind _ _).1 a.http_iff,
      rw a.asked ((has_valid_method_iff result.http a.probe).1 a.method),
      (
        seen_after [] result.hops,
        (validate_hops_iff result.cluster_id [] result.hops _).1
            (accepted.hops, (Fresh-iff [] result.hops).1 (accepted.distinct, All-not_seen _), refl),
        (issues_iff result).1 accepted.issues,
      ),
    )

-- Validate returns no error exactly for a result that answers the command: of version 2, with the
-- identity of the command's probe, a valid collection state, an HTTP part exactly for a probe-http
-- command, records with distinct non-empty identities of the result's cluster and valid values,
-- and issues that name known records and are of the agent's own scopes.
pub validate_iff :
    (result : ProbeAgentResult) (command : AgentCommand)
    → (validate result command ≡ ok tt) ↔ IsAccepted result command
validate_iff result command = (validate_sound result command, validate_complete result command)
