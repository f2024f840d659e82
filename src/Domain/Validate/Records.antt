-- ===== src/Domain/Validate/Records.antt =====
-- The tests that Validate makes on one record and on one issue, and its loop over the records.
use gate_lens.Common.{
  String, Bool, true, false, List, [], ◌∷◌, ◌≡◌, refl, ◌≢◌, ◌↔◌, ◌⊎◌, eq_iff, any, contains,
  Distinct, All, All-not_contains-cons, not-any_iff, ok, arith, ◌||◌, not,
}
use gate_lens.Domain.Values.{
  probe_issue_scope_relation, probe_issue_scope_inference, probe_issue_scope_execution,
  is_valid_probe_correlation, is_valid_observation_confidence, is_valid_ext_proc_outcome,
}
use gate_lens.Domain.Hop.{ObservedHop, ExtProcObservation}
use gate_lens.Domain.Issues.{ProbeIssue}
use gate_lens.Domain.Validate.{validate_hops, has_identity, has_valid_evidence, is_valid_issue}
use gate_lens.Domain.Validate.Accepted.{IsAcceptedHop, IsAcceptedIssue, ids}

has_identity_iff :
    (cluster : String) (seen : List String) (hop : ObservedHop)
    → (has_identity cluster seen hop ≡ true)
      ↔ ((hop.id ≢ "") × (contains seen hop.id ≡ false) × (hop.cluster_id ≡ cluster))
unfolding has_identity
has_identity_iff cluster seen hop = ground (arith, eq_iff hop.id "", eq_iff hop.cluster_id cluster)

has_valid_evidence_iff :
    (hop : ObservedHop)
    → (has_valid_evidence hop ≡ true) ↔ (
        ((hop.correlation ≡ "") ⊎ (is_valid_probe_correlation hop.correlation ≡ true))
        × (is_valid_observation_confidence hop.confidence ≡ true))
unfolding has_valid_evidence
has_valid_evidence_iff hop = ground (arith, eq_iff hop.correlation "")

pub is_valid_issue_iff :
    (seen : List String) (has_http : Bool) (issue : ProbeIssue)
    → (is_valid_issue seen has_http issue ≡ true) ↔ IsAcceptedIssue seen has_http issue
unfolding is_valid_issue
is_valid_issue_iff seen has_http issue = ground (
  arith,
  eq_iff issue.hop_id "",
  eq_iff issue.scope probe_issue_scope_relation,
  eq_iff issue.scope probe_issue_scope_inference,
  eq_iff issue.scope probe_issue_scope_execution,
)

-- The identities of the rest are new, also against those seen before.
abbrev pub Fresh : List String → List ObservedHop → Type 0
Fresh seen [] = Unit
Fresh seen (hop ∷ hops) = (contains seen hop.id ≡ false) × Fresh (hop.id ∷ seen) hops

validate_hops_step :
    (cluster : String) (seen : List String) (hop : ObservedHop) (hops : List ObservedHop)
    (out : List String)
    → (validate_hops cluster seen (hop ∷ hops) ≡ ok out) ↔ (
        (has_identity cluster seen hop ≡ true)
        × (has_valid_evidence hop ≡ true)
        × (any (λ proc. not (is_valid_ext_proc_outcome proc.outcome)) hop.ext_procs ≡ false)
        × (validate_hops cluster (hop.id ∷ seen) hops ≡ ok out))
unfolding validate_hops
validate_hops_step cluster seen hop hops out = ground arith

-- The set that the loop returns.
abbrev pub seen_after : List String → List ObservedHop → List String
seen_after seen [] = seen
seen_after seen (hop ∷ hops) = seen_after (hop.id ∷ seen) hops

accept_hop_iff :
    (cluster : String) (seen : List String) (hop : ObservedHop)
    → ((has_identity cluster seen hop ≡ true)
        × (has_valid_evidence hop ≡ true)
        × (any (λ proc. not (is_valid_ext_proc_outcome proc.outcome)) hop.ext_procs ≡ false))
      ↔ (IsAcceptedHop cluster hop × (contains seen hop.id ≡ false))
accept_hop_iff cluster seen hop = ground (
  arith,
  has_identity_iff cluster seen hop,
  has_valid_evidence_iff hop,
  not-any_iff (λ (proc : ExtProcObservation). is_valid_ext_proc_outcome proc.outcome) hop.ext_procs,
)

pub validate_hops_iff :
    (cluster : String) (seen : List String) (hops : List ObservedHop) (out : List String)
    → (validate_hops cluster seen hops ≡ ok out)
      ↔ (All (IsAcceptedHop cluster) hops × Fresh seen hops × (seen_after seen hops ≡ out))
unfolding validate_hops
validate_hops_iff cluster seen [] out = ground arith
validate_hops_iff cluster seen (hop ∷ hops) out =
    let (to, from) = validate_hops_step cluster seen hop hops out in
    let (accept, unaccept) = accept_hop_iff cluster seen hop in
    let (onwards, back) = validate_hops_iff cluster (hop.id ∷ seen) hops out in
    (
      (λ h.
          let (i, e, o, rest) = to h in
          let (good, new) = accept (i, e, o) in
          let (goods, fresh, same) = onwards rest in ((good, goods), (new, fresh), same)),
      (λ ((good, goods), (new, fresh), same).
          let (i, e, o) = unaccept (good, new) in from (i, e, o, back (goods, fresh, same))),
    )

pub contains-seen_after :
    (x : String) (seen : List String) (hops : List ObservedHop)
    → contains (seen_after seen hops) x ≡ (contains seen x || contains (ids hops) x)
contains-seen_after x seen [] = ground arith
contains-seen_after x seen (hop ∷ hops) = ground (arith, contains-seen_after x (hop.id ∷ seen) hops)

-- Freshness against the set seen so far is freshness against the list of all later identities.
pub Fresh-iff :
    (seen : List String) (hops : List ObservedHop)
    → Fresh seen hops ↔ (Distinct (ids hops) × All (λ x. contains seen x ≡ false) (ids hops))
Fresh-iff seen [] = ground arith
Fresh-iff seen (hop ∷ hops) =
    let (to, from) = Fresh-iff (hop.id ∷ seen) hops in
    let (split, join) = All-not_contains-cons hop.id seen (ids hops) in
    (
      (λ (new, fresh).
          let (distinct, apart) = to fresh in
          let (absent, rest) = split apart in ((absent, distinct), (new, rest))),
      (λ ((absent, distinct), (new, rest)). (new, from (distinct, join (absent, rest)))),
    )

pub All-not_seen : (xs : List String) → All (λ x. contains [] x ≡ false) xs
All-not_seen [] = tt
All-not_seen (x ∷ xs) = (refl, All-not_seen xs)
