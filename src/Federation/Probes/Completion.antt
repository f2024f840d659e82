-- ===== src/Federation/Probes/Completion.antt =====
-- The segments of a probe: completeFederatedProbe of internal/federation/store.go. The segments of
-- the targets, which the code collects by their index, are given with their targets in order.
pub mod Justified
mod Examples
use gate_lens.Common.{
  ℕ, suc, ◌+◌, String, ℤ, pos, Bool, true, false, List, [], ◌∷◌, ◌++◌, map, Option, none, some,
  ◌==◌, ◌&&◌, ◌||◌, not, any, length, is_empty, is_none, ltb, if◌then◌else◌, string_ltb, lookup,
  insert,
}
use gate_lens.Domain.Values.{
  probe_issue_scope_inference, probe_issue_scope_execution, probe_execution_state_completed,
  probe_execution_state_failed, probe_issue_code_gateway_evidence_missing,
  probe_issue_code_probe_protocol_unsupported,
}
use gate_lens.Domain.Hop.{ObservedHop}
use gate_lens.Domain.Issues.{ProbeIssue, append_probe_issue}
use gate_lens.Domain.Topology.{Topology}
use gate_lens.Domain.Probe.{ProbeSegment, ProbeExecution, ProbeAgentResult, ProbeHttpResult}
use gate_lens.Observed.Attempts.Enrich.{enrich_probe}
use gate_lens.Federation.Probes.{ProbeGatewayTarget, segment_from_agent}
use gate_lens.Federation.Probes.Targets.{target_for_gateway}
use gate_lens.Federation.Associations.{Ranked}
use gate_lens.Federation.Associations.Hosts.{HostLibrary}
use gate_lens.Federation.Associations.Rules.{infer_probe_gateway_candidates}

-- A target with what was observed of it.
abbrev pub Observed : Type 0
Observed = ProbeGatewayTarget × ProbeSegment

-- The map `observedGatewayIDs` behind the loop.
pub observed_ids : List (String × Bool) → List Observed → List (String × Bool)
observed_ids seen [] = seen
observed_ids seen ((target, segment) ∷ results) =
    observed_ids (if is_empty segment.hops then seen else insert target.global_id true seen) results

pub observed_hops : List ObservedHop → List Observed → List ObservedHop
observed_hops hops [] = hops
observed_hops hops ((target, segment) ∷ results) = observed_hops (hops ++ segment.hops) results

abbrev pub missing_evidence : ProbeIssue
missing_evidence = record {
  scope = probe_issue_scope_inference;
  code = probe_issue_code_gateway_evidence_missing;
  message = "候选网关缺少运行时访问日志证据";
  context_id = "";
  hop_id = "";
}

pub has_protocol_failure : ProbeSegment → Bool
has_protocol_failure segment =
    any (λ (issue : ProbeIssue). issue.code == probe_issue_code_probe_protocol_unsupported)
      segment.issues

-- A candidate: a segment without records whose gateway is inferred.
pub candidate : Ranked → ProbeSegment → ProbeSegment
candidate inference segment = record segment {
  inference_basis = inference.basis;
  inference_confidence = inference.confidence;
  issues = append_probe_issue segment.issues missing_evidence;
}

-- One round of the loop: the segment that is appended, if any.
pub settle_segment : ProbeSegment → Option Ranked → Option ProbeSegment
settle_segment segment none =
    if is_empty segment.hops && not (has_protocol_failure segment) then none else some segment
settle_segment segment (some inference) =
    if is_empty segment.hops then some (candidate inference segment) else some segment

pub settle_segments : List (String × Ranked) → List Observed → List ProbeSegment
settle_segments inferences [] = []
settle_segments inferences ((target, segment) ∷ results) =
    let rest = settle_segments inferences results in
    elim (settle_segment segment (lookup target.global_id inferences)) [
      | none ↦ rest
      | some kept ↦ kept ∷ rest
    ]

-- The time of a segment's first record.
abbrev pub first_observed : List ObservedHop → String
first_observed [] = ""
first_observed (hop ∷ hops) = hop.observed_at

-- The order of the sort: segments with records first, by the time of the first record.
pub comes_before : ProbeSegment → ProbeSegment → Bool
comes_before left right =
    if is_empty left.hops || is_empty right.hops
    then ltb (length right.hops) (length left.hops)
    else string_ltb (first_observed left.hops) (first_observed right.hops)

-- sort.SliceStable
pub insert_segment : ProbeSegment → List ProbeSegment → List ProbeSegment
insert_segment segment [] = segment ∷ []
insert_segment segment (x ∷ xs) =
    if comes_before x segment then x ∷ insert_segment segment xs else segment ∷ x ∷ xs

pub sort_segments : List ProbeSegment → List ProbeSegment
sort_segments [] = []
sort_segments (segment ∷ segments) = insert_segment segment (sort_segments segments)

pub number_segments : ℕ → List ProbeSegment → List ProbeSegment
number_segments index [] = []
number_segments index (segment ∷ segments) =
    record segment { index = pos index } ∷ number_segments (suc index) segments

module _ (lib : HostLibrary) where
  pub inferences_of :
      Topology → ProbeExecution → ProbeSegment → List Observed → List (String × Ranked)
  inferences_of topology execution source results =
      infer_probe_gateway_candidates lib topology (map (λ (result : Observed). result.0) results)
        (observed_hops source.hops results)
        (observed_ids ((execution.gateway_id, not (is_empty source.hops)) ∷ []) results)

  -- The segments behind the source's, as they are appended, and sorted if there are two.
  pub complete_segments :
      Topology → ProbeExecution → ProbeSegment → List Observed → List ProbeSegment
  complete_segments topology execution source results = number_segments 1 (
      source
      ∷ sort_segments (settle_segments (inferences_of topology execution source results) results))

  -- The source's segment is the only one of the execution at the start.
  pub complete_federated_probe :
      Topology → ProbeExecution → ProbeSegment → List Observed → ProbeExecution
  complete_federated_probe topology execution source results =
      enrich_probe
        (record execution { segments = complete_segments topology execution source results })

  -- The issues of the execution, from the agent's answer.
  pub execution_issues : List ProbeIssue → List ProbeIssue → List ProbeIssue
  execution_issues kept [] = kept
  execution_issues kept (issue ∷ issues) =
      execution_issues
        (if issue.scope == probe_issue_scope_execution then append_probe_issue kept issue else kept)
        issues

  -- The end of CreateProbe for a valid answer with its HTTP part; `completed_at` is the clock, printed.
  pub conclude_probe :
      Topology
      → String
      → ProbeExecution
      → ProbeAgentResult
      → ProbeHttpResult
      → List Observed
      → ProbeExecution
  conclude_probe topology completed_at execution local http results =
      let answered = record execution {
        response_code = http.response_code;
        response_bytes = http.response_bytes;
        duration_millis = http.duration_millis;
        error = http.error;
        state =
            if http.error == ""
            then probe_execution_state_completed
            else probe_execution_state_failed;
        issues = execution_issues execution.issues local.issues;
      } in
      let source = segment_from_agent local (target_for_gateway topology execution.gateway_id) in
      record (complete_federated_probe topology answered source results) {
        completed_at = completed_at;
      }
