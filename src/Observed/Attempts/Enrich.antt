-- ===== src/Observed/Attempts/Enrich.antt =====
-- EnrichProbe: internal/observed/probe_attempts.go. The code's pointers to records in `byID` are
-- look-ups by identity here; the last record of an identity answers, as in the code's map.
pub mod Records
pub mod Final
pub mod Upstream
mod Examples
use gate_lens.Common.{
  ℕ, zero, suc, ◌+◌, String, ℤ, Bool, true, false, List, [], ◌∷◌, ◌++◌, map, Option, none, some,
  ◌==◌, ◌&&◌, ◌||◌, not, any, all, length, is_empty, is_positive, int_eq, ltb, nat_eq,
  if◌then◌else◌, ◌+++◌, has_prefix,
}
use gate_lens.Domain.Values.{
  ProbeAttemptRelationState, probe_attempt_relation_state_linked,
  probe_attempt_relation_state_unconfirmed, probe_attempt_relation_state_missing_next,
  probe_attempt_relation_state_ambiguous, probe_issue_scope_relation,
  probe_collection_state_unknown, probe_execution_state_completed, probe_correlation_probe_id,
}
use gate_lens.Domain.Hop.{ObservedHop}
use gate_lens.Domain.Issues.{ProbeIssue, append_probe_issue}
use gate_lens.Domain.Probe.{ProbeAttemptLink, ProbeCollection, ProbeSegment, ProbeExecution}
use gate_lens.Observed.Values.{decimal}
use gate_lens.Observed.Attempts.{AttemptGroup, attempt_groups}

pub relation_rank : ProbeAttemptRelationState → ℕ
relation_rank state =
    if state == probe_attempt_relation_state_ambiguous
    then 3
    else if state == probe_attempt_relation_state_unconfirmed
    then 2
    else if state == probe_attempt_relation_state_missing_next
    then 1
    else 0

-- An identity with the gateway in front, unless it stands there.
unfoldable pub qualify : String → String → String
qualify gateway id = if has_prefix id (gateway +++ "/") then id else gateway +++ "/" +++ id

pub qualify_issue : String → ProbeIssue → ProbeIssue
qualify_issue gateway issue =
    if issue.hop_id == "" then issue else record issue { hop_id = qualify gateway issue.hop_id }

-- The loop that keeps the issues of other scopes.
pub retain_issues : String → List ProbeIssue → List ProbeIssue → List ProbeIssue
retain_issues gateway kept [] = kept
retain_issues gateway kept (issue ∷ issues) =
    retain_issues gateway
      (if issue.scope == probe_issue_scope_relation
        then kept
        else append_probe_issue kept (qualify_issue gateway issue))
      issues

pub identify_hop : String → ℕ → ObservedHop → ObservedHop
identify_hop gateway index hop = record hop {
  id = qualify gateway (if hop.id == "" then "record-" +++ decimal (index + 1) else hop.id);
}

pub identify_hops : String → ℕ → List ObservedHop → List ObservedHop
identify_hops gateway index [] = []
identify_hops gateway index (hop ∷ hops) =
    identify_hop gateway index hop ∷ identify_hops gateway (index + 1) hops

pub by_id : List ObservedHop → String → Option ObservedHop
by_id [] id = none
by_id (hop ∷ hops) id = elim (by_id hops id) [
  | some found ↦ some found
  | none ↦ if hop.id == id then some hop else none
]

-- `byID[id].ContextID = context`
pub set_context : String → List ObservedHop → String → List ObservedHop
set_context context [] id = []
set_context context (hop ∷ hops) id =
    if not (any (λ later. later.id == id) hops) && hop.id == id
    then record hop { context_id = context } ∷ hops
    else hop ∷ set_context context hops id

pub set_contexts : String → List String → List ObservedHop → List ObservedHop
set_contexts context [] hops = hops
set_contexts context (id ∷ ids) hops = set_contexts context ids (set_context context hops id)

pub append_issues : List ProbeIssue → List ProbeIssue → List ProbeIssue
append_issues issues [] = issues
append_issues issues (issue ∷ more) = append_issues (append_probe_issue issues issue) more

-- The body of the loop over the groups.
pub add_group : ProbeSegment → AttemptGroup → ProbeSegment
add_group segment group = record segment {
  hops = set_contexts group.id group.hop_ids segment.hops;
  links = segment.links ++ group.links;
  local_terminal_hop_ids =
      if group.local_terminal_hop_id == ""
      then segment.local_terminal_hop_ids
      else segment.local_terminal_hop_ids ++ group.local_terminal_hop_id ∷ [];
  issues = append_issues segment.issues group.issues;
  relation_state =
      if ltb (relation_rank segment.relation_state) (relation_rank group.relation_state)
      then group.relation_state
      else segment.relation_state;
}

pub add_groups : ProbeSegment → List AttemptGroup → ProbeSegment
add_groups segment [] = segment
add_groups segment (group ∷ groups) = add_groups (add_group segment group) groups

abbrev pub or_unknown : Option ProbeCollection → Option ProbeCollection
or_unknown none = some (record { state = probe_collection_state_unknown; completed_at = "" })
or_unknown (some collection) = some collection

-- The segment before its groups are computed: relation issues and references are dropped.
pub reset_segment : ProbeSegment → ProbeSegment
reset_segment segment = record segment {
  collection = or_unknown segment.collection;
  issues = retain_issues segment.gateway_id [] segment.issues;
  links = [];
  local_terminal_hop_ids = [];
  relation_state = probe_attempt_relation_state_linked;
  hops = identify_hops segment.gateway_id 0 segment.hops;
}

pub segment_groups : ProbeSegment → List AttemptGroup
segment_groups segment = attempt_groups segment.hops segment.collection segment.issues

pub relate_segment : ProbeSegment → List AttemptGroup → ProbeSegment
relate_segment segment [] = record segment {
  relation_state = probe_attempt_relation_state_unconfirmed;
}
relate_segment segment (group ∷ groups) = add_groups segment (group ∷ groups)

-- The negation of the test before `continue`, but for the number of groups.
pub may_conclude : ProbeExecution → ProbeSegment → Bool
may_conclude execution segment =
    execution.state == probe_execution_state_completed
    && execution.error == ""
    && is_positive execution.response_code
    && segment.gateway_id == execution.gateway_id
    && is_empty segment.issues

-- Every record of the group matched the probe's identity exactly.
pub is_exact : List ObservedHop → List String → Bool
is_exact hops [] = true
is_exact hops (id ∷ ids) =
    elim (by_id hops id) [ none ↦ false | some hop ↦ hop.correlation == probe_correlation_probe_id ]
    && is_exact hops ids

pub set_final : ProbeExecution → ObservedHop → ProbeExecution
set_final execution hop = record execution {
  final_response_hop_id = hop.id;
  final_upstream_hop_id =
      if nat_eq (length execution.segments) 1 && is_empty execution.issues
      then hop.id
      else execution.final_upstream_hop_id;
}

-- The end of the loop over the segments.
pub conclude : ProbeExecution → ProbeSegment → List AttemptGroup → ProbeExecution
conclude execution segment [] = execution
conclude execution segment (group ∷ []) = elim (by_id segment.hops group.local_terminal_hop_id) [
  | none ↦ execution
  | some hop ↦
      if may_conclude execution segment
        && is_exact segment.hops group.hop_ids
        && int_eq hop.response_code execution.response_code
      then set_final execution hop
      else execution
]
conclude execution segment (_ ∷ _ ∷ _) = execution

-- One round of the loop: the segment as it is left, and the execution's final references.
pub enrich_segment : ProbeSegment → ProbeSegment
enrich_segment segment =
    let reset = reset_segment segment in relate_segment reset (segment_groups reset)

pub conclude_segments : ProbeExecution → List ProbeSegment → ProbeExecution
conclude_segments execution [] = execution
conclude_segments execution (segment ∷ segments) =
    conclude_segments
      (conclude execution (enrich_segment segment) (segment_groups (reset_segment segment)))
      segments

pub enrich_probe : ProbeExecution → ProbeExecution
enrich_probe execution =
    let concluded =
      conclude_segments
        (record execution { final_response_hop_id = ""; final_upstream_hop_id = "" })
        execution.segments in
    record concluded { segments = map enrich_segment execution.segments }
