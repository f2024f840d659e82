-- ===== src/Observed/Attempts.antt =====
-- Attempts of one request at one gateway runtime: internal/observed/probe_attempts.go.
pub mod Chains
pub mod Relation
pub mod Grouping
pub mod Sorting
pub mod Enrich
mod Examples
use gate_lens.Common.{
  ℕ, zero, suc, ◌+◌, String, ℤ, Bool, true, false, List, [], ◌∷◌, ◌++◌, map, Option, none, some,
  ◌==◌, ◌&&◌, ◌||◌, not, any, all, keep, last?, length, is_empty, is_positive, int_eq, int_ltb, ltb,
  nat_eq, if◌then◌else◌, ◌+++◌,
}
use gate_lens.Domain.Values.{
  ProbeAttemptRelationState, ProbeOrderBasis, ProbeIssueCode, probe_attempt_relation_state_linked,
  probe_attempt_relation_state_unconfirmed, probe_attempt_relation_state_missing_next,
  probe_attempt_relation_state_ambiguous, probe_order_basis_source_sequence,
  probe_order_basis_unavailable, probe_issue_scope_relation,
  probe_issue_code_request_identity_incomplete, probe_issue_code_attempt_order_unconfirmed,
  probe_issue_code_terminal_ambiguous, probe_issue_code_redirect_next_missing,
  probe_collection_state_settled,
}
use gate_lens.Domain.Hop.{ObservedHop}
use gate_lens.Domain.Issues.{ProbeIssue, append_probe_issue, breaks_log_order}
use gate_lens.Domain.Probe.{ProbeAttemptLink, ProbeCollection}
use gate_lens.Observed.Values.{valid_log_value, decimal}

pub record AttemptGroup : Type 0 where
  pub id : String
  pub runtime_source : String
  pub hop_ids : List String
  pub relation_state : ProbeAttemptRelationState
  pub order_basis : ProbeOrderBasis
  pub links : List ProbeAttemptLink
  pub terminal_candidate_ids : List String
  pub local_terminal_hop_id : String
  pub issues : List ProbeIssue

-- The local variable `key`: which occurrences are comparable.
pub request_key : ObservedHop → String
request_key hop =
    let source =
      if hop.runtime_source == ""
      then "unknown/" +++ hop.log_source_id +++ "/" +++ hop.pod
      else hop.runtime_source in
    source
    +++ "\0"
    +++ hop.request_start_time
    +++ "\0"
    +++ valid_log_value hop.downstream_remote_address
    +++ "\0"
    +++ valid_log_value hop.downstream_local_address

-- An entry of `buckets`, with its key in `indices` and its first record.
pub record Bucket : Type 0 where
  pub key : String
  pub first : ObservedHop
  pub records : List ObservedHop

unfoldable pub add_record : String → ObservedHop → List Bucket → List Bucket
add_record key hop [] = record { key = key; first = hop; records = hop ∷ [] } ∷ []
add_record key hop (bucket ∷ buckets) =
    if bucket.key == key
    then record bucket { records = bucket.records ++ hop ∷ [] } ∷ buckets
    else bucket ∷ add_record key hop buckets

unfoldable pub fill_buckets : List Bucket → List ObservedHop → List Bucket
fill_buckets buckets [] = buckets
fill_buckets buckets (hop ∷ hops) = fill_buckets (add_record (request_key hop) hop buckets) hops

pub has_request_identity : ObservedHop → Bool
has_request_identity hop =
    not (hop.runtime_source == "")
    && not (hop.request_start_time == "")
    && not (valid_log_value hop.downstream_remote_address == "")

-- The negation of the long test of the loop over the records.
pub has_order : String → List ℤ → ObservedHop → Bool
has_order source sequences hop =
    has_request_identity hop
    && not (hop.log_source_id == "")
    && is_positive hop.log_sequence
    && hop.log_source_id == source
    && not (any (λ sequence. int_eq sequence hop.log_sequence) sequences)

pub are_ordered : String → List ℤ → List ObservedHop → Bool
are_ordered source sequences [] = true
are_ordered source sequences (hop ∷ hops) =
    has_order source sequences hop && are_ordered source (hop.log_sequence ∷ sequences) hops

-- The flag `ordered` after both loops.
pub is_ordered : List ProbeIssue → Bucket → Bool
is_ordered issues bucket =
    are_ordered bucket.first.log_source_id [] bucket.records
    && not (any (λ issue. breaks_log_order issue) issues)

-- sort.SliceStable by LogSequence: an equal record stays behind.
pub insert_by_sequence : ObservedHop → List ObservedHop → List ObservedHop
insert_by_sequence hop [] = hop ∷ []
insert_by_sequence hop (x ∷ xs) =
    if int_ltb x.log_sequence hop.log_sequence then x ∷ insert_by_sequence hop xs else hop ∷ x ∷ xs

pub sort_by_sequence : List ObservedHop → List ObservedHop
sort_by_sequence [] = []
sort_by_sequence (hop ∷ hops) = insert_by_sequence hop (sort_by_sequence hops)

abbrev pub relation_issue : ProbeIssueCode → String → String → ProbeIssue
relation_issue code context message = record {
  scope = probe_issue_scope_relation;
  code = code;
  message = message;
  context_id = context;
  hop_id = "";
}

abbrev pub add_issue : ProbeIssueCode → String → AttemptGroup → AttemptGroup
add_issue code message group = record group {
  issues = append_probe_issue group.issues (relation_issue code group.id message);
}

pub start_group : ℕ → Bucket → AttemptGroup
start_group index bucket = record {
  id = "context-" +++ decimal (index + 1);
  runtime_source = bucket.first.runtime_source;
  hop_ids = [];
  relation_state = probe_attempt_relation_state_unconfirmed;
  order_basis = probe_order_basis_unavailable;
  links = [];
  terminal_candidate_ids = [];
  local_terminal_hop_id = "";
  issues = [];
}

-- The branches on `ordered` and `identityIncomplete`.
pub confirm_order : Bool → Bool → AttemptGroup → AttemptGroup
confirm_order true incomplete group = record group {
  order_basis = probe_order_basis_source_sequence;
}
confirm_order false incomplete group =
    add_issue probe_issue_code_attempt_order_unconfirmed "运行时身份或日志来源顺序不足，尝试关系未确认" (
      if incomplete
      then add_issue probe_issue_code_request_identity_incomplete "运行时或原始请求身份不完整" group
      else group)

pub list_hops : List ObservedHop → AttemptGroup → AttemptGroup
list_hops records group = record group {
  hop_ids = map (λ hop. hop.id) records;
  terminal_candidate_ids = map (λ hop. hop.id) (keep (λ hop. not hop.internal_redirect) records);
}

-- A record before the last one that is no redirect.
pub has_early_terminal : List ObservedHop → Bool
has_early_terminal [] = false
has_early_terminal (hop ∷ []) = false
has_early_terminal (hop ∷ next ∷ hops) =
    not hop.internal_redirect || has_early_terminal (next ∷ hops)

pub link_redirects : List ObservedHop → List ProbeAttemptLink
link_redirects [] = []
link_redirects (hop ∷ []) = []
link_redirects (hop ∷ next ∷ hops) =
    let links = link_redirects (next ∷ hops) in
    if hop.internal_redirect then record { «from» = hop.id; to = next.id } ∷ links else links

pub ends_in_redirect : List ObservedHop → Bool
ends_in_redirect records = elim (last? records) [ none ↦ false | some hop ↦ hop.internal_redirect ]

abbrev pub has_redirect : List ObservedHop → Bool
has_redirect records = any (λ hop. hop.internal_redirect) records

-- The branches on the number of terminal candidates and of redirects; the tests are arguments, in
-- the order in which the code makes them.
pub relate_by :
    (ambiguous linking missing linked several : Bool)
    → List ObservedHop
    → AttemptGroup
    → AttemptGroup
relate_by ambiguous linking missing linked several records group =
    if ambiguous
    then add_issue probe_issue_code_terminal_ambiguous "存在多个终止候选或重入记录，最终尝试归属未确认"
        (record group { relation_state = probe_attempt_relation_state_ambiguous })
    else (let tied = if linking then record group { links = link_redirects records } else group in
        if missing
        then add_issue probe_issue_code_redirect_next_missing "已发生内部重定向，后续尝试记录缺失"
            (record tied { relation_state = probe_attempt_relation_state_missing_next })
        else if linked
        then record tied { relation_state = probe_attempt_relation_state_linked }
        else if several
        then add_issue probe_issue_code_attempt_order_unconfirmed "同请求多条记录，关系未确认" tied
        else tied)

abbrev pub is_ambiguous : Bool → List ObservedHop → List String → Bool
is_ambiguous ordered records terminals =
    ltb 1 (length terminals) || (ordered && has_early_terminal records)

abbrev pub misses_next : Bool → List ObservedHop → List String → Bool
misses_next ordered records terminals =
    has_redirect records && (is_empty terminals || (ordered && ends_in_redirect records))

abbrev pub is_linked : Bool → List ObservedHop → Bool
is_linked ordered records = ordered && (has_redirect records || nat_eq (length records) 1)

pub relate : Bool → List ObservedHop → AttemptGroup → AttemptGroup
unfolding relate_by
relate ordered records group =
    relate_by (is_ambiguous ordered records group.terminal_candidate_ids)
      (ordered && has_redirect records) (misses_next ordered records group.terminal_candidate_ids)
      (is_linked ordered records) (ltb 1 (length records)) records group

abbrev pub is_settled : Option ProbeCollection → Bool
is_settled none = false
is_settled (some collection) = collection.state == probe_collection_state_settled

-- The local terminal: `terminalCount == 1` and its only candidate.
pub only : List String → Option String
only [] = none
only (id ∷ []) = some id
only (_ ∷ _ ∷ _) = none

pub close_group : Option ProbeCollection → List ProbeIssue → AttemptGroup → AttemptGroup
close_group collection issues group = elim (only group.terminal_candidate_ids) [
  | none ↦ group
  | some terminal ↦
      if group.relation_state == probe_attempt_relation_state_linked
        && is_settled collection
        && is_empty issues
      then record group { local_terminal_hop_id = terminal }
      else group
]

-- The records of a bucket as the later loops see them.
pub in_order : List ProbeIssue → Bucket → List ObservedHop
in_order issues bucket =
    if is_ordered issues bucket then sort_by_sequence bucket.records else bucket.records

pub attempt_group : Option ProbeCollection → List ProbeIssue → ℕ → Bucket → AttemptGroup
attempt_group collection issues index bucket =
    let ordered = is_ordered issues bucket in
    let incomplete = any (λ hop. not (has_request_identity hop)) bucket.records in
    let records = in_order issues bucket in
    close_group collection issues (
      relate ordered records
        (list_hops records (confirm_order ordered incomplete (start_group index bucket))))

pub number_groups : Option ProbeCollection → List ProbeIssue → ℕ → List Bucket → List AttemptGroup
number_groups collection issues index [] = []
number_groups collection issues index (bucket ∷ buckets) =
    attempt_group collection issues index bucket
    ∷ number_groups collection issues (index + 1) buckets

pub attempt_groups : List ObservedHop → Option ProbeCollection → List ProbeIssue → List AttemptGroup
attempt_groups hops collection issues = number_groups collection issues 0 (fill_buckets [] hops)
