-- ===== src/Federation/Probes/Segments.antt =====
-- What a segment holds after its agent was asked.
use gate_lens.Common.{
  String, Bool, true, false, List, [], ◌∷◌, Option, none, some, ◌≡◌, refl, sym, ◌∙◌, subst, inl,
  inr, ◌==◌, eq_iff, arith, All, All-append, All-map, is_some, ok, err, Bool-cases, Option-cases,
  Result-cases, Distinct,
}
use gate_lens.Domain.Values.{
  probe_issue_scope_execution, probe_issue_scope_collection, probe_issue_scope_relation,
  probe_issue_scope_inference, is_valid_probe_issue_scope,
}
use gate_lens.Domain.Issues.{ProbeIssue, append_probe_issue}
use gate_lens.Domain.Issues.Laws.{OncePerIdentity, append_probe_issue_once}
use gate_lens.Domain.Probe.{ProbeAgentResult, ProbeSegment}
use gate_lens.Domain.Command.{AgentCommand, AgentCommandResult}
use gate_lens.Domain.Validate.{validate}
use gate_lens.Domain.Validate.Accepted.{IsAccepted, IsAcceptedIssue, ids}
use gate_lens.Domain.Validate.Laws.{validate_iff}
use gate_lens.Federation.Probes.{
  ProbeGatewayTarget, ProbeError, checked, probe_outcome, segment_issues, segment_from_agent,
  observed_segment,
}

checked-IsAccepted :
    (command : AgentCommand) (sent local : ProbeAgentResult)
    → checked command sent ≡ ok local
    → IsAccepted local command
unfolding checked
checked-IsAccepted command sent local h = elim (Result-cases (validate sent command)) [
  | inl (done, valid) ↦
      let same : sent ≡ local = ground arith in
      subst (λ r. IsAccepted r command) same ((validate_iff sent command).0 valid)
  | inr (why, failed) ↦ absurd (ground arith)
]

outcome-IsAccepted :
    (command : AgentCommand) (answer : Option AgentCommandResult) (local : ProbeAgentResult)
    → probe_outcome command answer ≡ ok local
    → IsAccepted local command
unfolding probe_outcome
outcome-IsAccepted command none local h = cc
outcome-IsAccepted command (some result) local h = elim (Option-cases result.probe) [
  | inl missing ↦ absurd (ground arith)
  | inr (sent, found) ↦ checked-IsAccepted command sent local (ground arith)
]

abbrev AreCollected : List ProbeIssue → Type 0
AreCollected issues =
    OncePerIdentity issues × All (λ issue. issue.scope ≡ probe_issue_scope_collection) issues

append-AreCollected :
    (issues : List ProbeIssue) (issue : ProbeIssue)
    → issue.scope ≡ probe_issue_scope_collection
    → AreCollected issues
    → AreCollected (append_probe_issue issues issue)
append-AreCollected issues issue scope (once, all) =
    let (after, there, change) = append_probe_issue_once issues issue once in
    (
      after,
      elim change [
        | inl (old, same) ↦
            subst (All (λ (i : ProbeIssue). i.scope ≡ probe_issue_scope_collection)) (sym same) all
        | inr (new, longer) ↦
            subst (All (λ (i : ProbeIssue). i.scope ≡ probe_issue_scope_collection)) (sym longer) (
              All-append (λ (i : ProbeIssue). i.scope ≡ probe_issue_scope_collection) issues
                (issue ∷ []) all (scope, tt))
      ],
    )

scope_left :
    (known : List String) (has_http : Bool) (issue : ProbeIssue)
    → IsAcceptedIssue known has_http issue
    → (issue.scope == probe_issue_scope_execution) ≡ false
    → issue.scope ≡ probe_issue_scope_collection
unfolding is_valid_probe_issue_scope
scope_left known has_http issue accepted other = ground (
  arith,
  accepted.scoped,
  accepted.local_only,
  eq_iff issue.scope probe_issue_scope_execution,
  eq_iff issue.scope probe_issue_scope_collection,
  eq_iff issue.scope probe_issue_scope_relation,
  eq_iff issue.scope probe_issue_scope_inference,
)

segment_issues-AreCollected :
    (known : List String) (has_http : Bool) (kept issues : List ProbeIssue)
    → AreCollected kept
    → All (IsAcceptedIssue known has_http) issues
    → AreCollected (segment_issues kept issues)
unfolding segment_issues
segment_issues-AreCollected known has_http kept [] good all = good
segment_issues-AreCollected known has_http kept (issue ∷ issues) good (accepted, all) =
    elim (Bool-cases (issue.scope == probe_issue_scope_execution)) [
      | inl execution ↦
          rw execution (segment_issues-AreCollected known has_http kept issues good all)
      | inr other ↦ rw other (
          segment_issues-AreCollected known has_http (append_probe_issue kept issue) issues
            (append-AreCollected kept issue (scope_left known has_http issue accepted other) good)
            all)
    ]

-- What a segment promises about a cluster's records.
pub record IsCollected (cluster : String) (segment : ProbeSegment) : Type 0 where
  pub collected : is_some segment.collection ≡ true
  pub distinct : Distinct (ids segment.hops)
  pub owned : All (λ hop. hop.cluster_id ≡ cluster) segment.hops
  pub once : OncePerIdentity segment.issues
  pub scoped : All (λ issue. issue.scope ≡ probe_issue_scope_collection) segment.issues

accepted-IsCollected :
    (command : AgentCommand) (target : ProbeGatewayTarget) (local : ProbeAgentResult)
    → IsAccepted local command
    → IsCollected command.cluster_id (segment_from_agent local target)
unfolding segment_from_agent
accepted-IsCollected command target local accepted =
    let (once, scoped) =
      segment_issues-AreCollected (ids local.hops) (is_some local.http) [] local.issues (tt, tt)
        accepted.issues in
    let (collection, found, valid) = accepted.collected in
    record {
      collected = rw found refl;
      distinct = accepted.distinct;
      owned = All-map local.hops (λ hop h. h.owned ∙ accepted.answer.same_cluster) accepted.hops;
      once = once;
      scoped = scoped;
    }

failed-IsCollected :
    (cluster : String) (message : ProbeError → String) (at : String) (target : ProbeGatewayTarget)
    (why : ProbeError)
    → IsCollected cluster (observed_segment message at target (err why))
unfolding observed_segment segment_from_agent segment_issues append_probe_issue
failed-IsCollected cluster message at target why = record {
  collected = refl;
  distinct = tt;
  owned = tt;
  once = (refl, tt);
  scoped = (refl, tt);
}

-- The segment of an observed gateway, whatever its agent answers or does not, has a collection;
-- its records have distinct identities and are of the cluster that the command went to; its issues
-- are all about the collection, and no identity stands twice among them.
pub observed_segment-IsCollected :
    (message : ProbeError → String) (at : String) (target : ProbeGatewayTarget)
    (command : AgentCommand) (answer : Option AgentCommandResult)
    → IsCollected command.cluster_id
        (observed_segment message at target (probe_outcome command answer))
unfolding observed_segment segment_from_agent
observed_segment-IsCollected message at target command answer =
    elim (Result-cases (probe_outcome command answer)) [
      | inl (local, done) ↦
          rw (done, observed_segment)
            (accepted-IsCollected command target local
              (outcome-IsAccepted command answer local done))
      | inr (why, failed) ↦ rw failed (failed-IsCollected command.cluster_id message at target why)
    ]
