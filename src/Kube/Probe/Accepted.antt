-- ===== src/Kube/Probe/Accepted.antt =====
-- A collection's report, added to a result, is one that the server accepts.
use gate_lens.Common.{
  String, Bool, true, false, List, [], ◌∷◌, ◌++◌, refl, ap, sym, ◌∙◌, inl, inr, All, All-append,
  All-map, any, is_empty, is_some, Bool-cases, arith, eq_iff, if◌then◌else◌,
}
use gate_lens.Domain.Values.{
  is_valid_probe_issue_code, is_valid_probe_issue_scope, probe_issue_scope_collection,
  probe_issue_scope_relation, probe_issue_scope_inference, probe_issue_scope_execution,
  probe_issue_code_no_matching_log,
}
use gate_lens.Domain.Issues.{ProbeIssue, same_identity, append_probe_issue}
use gate_lens.Domain.Probe.{ProbeAgentResult}
use gate_lens.Domain.Command.{AgentCommand}
use gate_lens.Domain.Validate.Accepted.{IsAcceptedHop, IsAcceptedIssue, IsAnswer, IsAccepted, ids}
use gate_lens.Kube.Logs.{collection_issue}
use gate_lens.Kube.Logs.Records.{Numbered-Distinct}
use gate_lens.Kube.Logs.Merged.{IsNote}
use gate_lens.Kube.Logs.Window.{LogResult}
use gate_lens.Kube.Logs.Window.Reports.{IsReport}
use gate_lens.Kube.Probe.{sort_observed, add_logs}
use gate_lens.Kube.Probe.Sorting.{All-sort_observed, Distinct-sort_observed}

pub IsNote-accepted :
    (names : List String) (has_http : Bool) (issue : ProbeIssue)
    → IsNote issue
    → IsAcceptedIssue names has_http issue
unfolding is_valid_probe_issue_scope
IsNote-accepted names has_http issue h = record {
  refers = inl h.unnamed;
  scoped = ap is_valid_probe_issue_scope h.scoped;
  coded = h.coded;
  local_only = (
    (λ e.
        ground (
          arith,
          eq_iff probe_issue_scope_collection probe_issue_scope_relation,
          sym h.scoped ∙ e,
        )),
    (λ e.
        ground (
          arith,
          eq_iff probe_issue_scope_collection probe_issue_scope_inference,
          sym h.scoped ∙ e,
        )),
  );
  executed = λ e.
      ground
        (arith, eq_iff probe_issue_scope_collection probe_issue_scope_execution, sym h.scoped ∙ e);
}

append-IsAccepted :
    (names : List String) (has_http : Bool) (issues : List ProbeIssue) (issue : ProbeIssue)
    → All (IsAcceptedIssue names has_http) issues
    → IsAcceptedIssue names has_http issue
    → All (IsAcceptedIssue names has_http) (append_probe_issue issues issue)
unfolding append_probe_issue
append-IsAccepted names has_http issues issue h k =
    elim (Bool-cases (any (λ current. same_identity current issue) issues)) [
      | inl e ↦ rw e h
      | inr e ↦ rw e (All-append (IsAcceptedIssue names has_http) issues (issue ∷ []) h (k, tt))
    ]

missing-accepted :
    (names : List String) (has_http : Bool) (message : String)
    → IsAcceptedIssue names has_http (collection_issue probe_issue_code_no_matching_log message)
unfolding is_valid_probe_issue_code
missing-accepted names has_http message =
    IsNote-accepted names has_http (collection_issue probe_issue_code_no_matching_log message)
      (record { scoped = refl; unnamed = refl; coded = refl })

pub All-either {ℓ κ} :
    {A : Type ℓ} (P : A → Type κ) (test : Bool) (xs ys : List A)
    → All P xs
    → All P ys
    → All P (if test then xs else ys)
All-either P true xs ys h k = h
All-either P false xs ys h k = k

-- The answer of an agent before the collection, to which the collection's report is added.
pub add_logs-IsAccepted :
    (result : ProbeAgentResult) (command : AgentCommand) (logs : LogResult)
    (missing completed_at : String)
    → IsAnswer result command
    → ((names : List String) → All (IsAcceptedIssue names (is_some result.http)) result.issues)
    → IsReport result.cluster_id logs
    → IsAccepted (add_logs logs missing completed_at result) command
unfolding add_logs
add_logs-IsAccepted result command logs missing completed_at answer executed h =
    let cluster = result.cluster_id in
    let has_http = is_some result.http in
    let names = ids (sort_observed logs.hops) in
    let issues =
      All-append (IsAcceptedIssue names has_http) result.issues logs.issues (executed names)
        (All-map logs.issues (IsNote-accepted names has_http) h.noted.notes) in
    record {
      answer = record {
        version = answer.version;
        kind = answer.kind;
        probe = answer.probe;
        asked = answer.asked;
        same_probe = answer.same_probe;
        same_trace = answer.same_trace;
        same_cluster = answer.same_cluster;
        same_gateway = answer.same_gateway;
        http_iff = answer.http_iff;
        method = answer.method;
      };
      collected = (h.collection, h.collected, h.valid);
      hops =
          All-sort_observed (IsAcceptedHop cluster) logs.hops
            (All-map logs.hops (λ hop kept. kept.accepted) h.kept);
      distinct = Distinct-sort_observed logs.hops (Numbered-Distinct 0 logs.hops h.numbered);
      issues =
          All-either (IsAcceptedIssue names has_http) (is_empty logs.hops) _ _
            (append-IsAccepted names has_http (result.issues ++ logs.issues) _ issues
              (missing-accepted names has_http missing))
            issues;
    }
