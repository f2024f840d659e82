-- ===== src/Observed/Attempts/Examples.antt =====
-- A redirected attempt and its successor at one gateway, through internal/observed/probe_attempts.go.
use mathlib.Core.List.{Perm}
use gate_lens.Common.{
  trim_space, pos, true, false, List, [], ◌∷◌, map, Option, some, ◌≡◌, refl, sym, ◌∙◌, ◌≢◌, eq_iff,
  ◌↔◌, All, Distinct, last?,
}
use gate_lens.Domain.Values.{
  probe_collection_state_settled, probe_attempt_relation_state_linked,
  probe_order_basis_source_sequence,
}
use gate_lens.Domain.Hop.{ObservedHop}
use gate_lens.Domain.Probe.{ProbeCollection}
use gate_lens.Domain.Issues.{ProbeIssue, breaks_log_order}
use gate_lens.Observed.Values.{valid_log_value, decimal}
use gate_lens.Samples.{blank_hop}
use gate_lens.Observed.Attempts.{
  Bucket, fill_buckets, has_request_identity, has_order, are_ordered, is_ordered, in_order,
  insert_by_sequence, sort_by_sequence, start_group, confirm_order, list_hops, has_early_terminal,
  link_redirects, ends_in_redirect, relate_by, relate, only, close_group, attempt_group, is_settled,
}
use gate_lens.Observed.Attempts.Chains.{RedirectChain, hop_id, consecutive}
use gate_lens.Observed.Attempts.Relation.{linked_iff, linked_group, local_terminal}
use gate_lens.Observed.Attempts.Grouping.{fill_buckets_partition, contents, HasOneKey, keys}

abbrev redirected_hop : ObservedHop
redirected_hop = record blank_hop {
  id = "a";
  runtime_source = "uid";
  log_source_id = "pod/uid";
  log_sequence = pos 4;
  request_start_time = "10:00";
  downstream_remote_address = "10.0.0.1:80";
  internal_redirect = true;
}

abbrev answered_hop : ObservedHop
answered_hop = record redirected_hop { id = "b"; log_sequence = pos 7; internal_redirect = false }

-- The agent read the later record first.
abbrev two_attempts : Bucket
two_attempts = record {
  key = "k";
  first = answered_hop;
  records = answered_hop ∷ redirected_hop ∷ [];
}

abbrev settled : Option ProbeCollection
settled = some (record { state = probe_collection_state_settled; completed_at = "10:01" })

two_attempts_ordered : in_order [] two_attempts ≡ redirected_hop ∷ answered_hop ∷ []
unfolding trim_space in_order is_ordered are_ordered has_order has_request_identity valid_log_value
    sort_by_sequence insert_by_sequence breaks_log_order
two_attempts_ordered = refl

two_attempts_linked :
    (attempt_group settled [] 0 two_attempts).relation_state ≡ probe_attempt_relation_state_linked
unfolding trim_space in_order is_ordered are_ordered has_order has_request_identity valid_log_value
    sort_by_sequence insert_by_sequence breaks_log_order attempt_group close_group only relate
    relate_by list_hops confirm_order start_group has_early_terminal link_redirects ends_in_redirect
    decimal
two_attempts_linked = refl

two_attempts_terminal : (attempt_group settled [] 0 two_attempts).local_terminal_hop_id ≡ "b"
unfolding trim_space in_order is_ordered are_ordered has_order has_request_identity valid_log_value
    sort_by_sequence insert_by_sequence breaks_log_order attempt_group close_group only relate
    relate_by list_hops confirm_order start_group has_early_terminal link_redirects ends_in_redirect
    decimal
two_attempts_terminal = refl

two_attempts_named : (attempt_group settled [] 0 two_attempts).local_terminal_hop_id ≢ ""
two_attempts_named h =
    let clash : false ≡ true = (eq_iff "b" "").1 (sym two_attempts_terminal ∙ h) in cc

linked_iff_example :
    ((attempt_group settled [] 0 two_attempts).relation_state ≡ probe_attempt_relation_state_linked)
    ↔ ((is_ordered [] two_attempts ≡ true)
        × ((t : ObservedHop) × RedirectChain (in_order [] two_attempts) t))
linked_iff_example = linked_iff settled [] 0 two_attempts

linked_group_example :
    let group = attempt_group settled [] 0 two_attempts in
    let records = sort_by_sequence two_attempts.records in
    (group.order_basis ≡ probe_order_basis_source_sequence)
    × (group.hop_ids ≡ map hop_id records)
    × (group.links ≡ consecutive records)
    × ((t : ObservedHop) × (last? records ≡ some t)
        × (t.internal_redirect ≡ false)
        × (group.terminal_candidate_ids ≡ t.id ∷ []))
linked_group_example = linked_group settled [] 0 two_attempts two_attempts_linked

abbrev no_issues : List ProbeIssue
no_issues = []

local_terminal_example :
    let group = attempt_group settled [] 0 two_attempts in
    (group.relation_state ≡ probe_attempt_relation_state_linked)
    × (is_settled settled ≡ true)
    × (no_issues ≡ [])
    × (group.terminal_candidate_ids ≡ group.local_terminal_hop_id ∷ [])
local_terminal_example = local_terminal settled [] 0 two_attempts two_attempts_named

fill_buckets_partition_example :
    let buckets = fill_buckets [] (answered_hop ∷ redirected_hop ∷ []) in
    Perm (contents buckets) (answered_hop ∷ redirected_hop ∷ [])
    × All HasOneKey buckets
    × Distinct (keys buckets)
fill_buckets_partition_example = fill_buckets_partition (answered_hop ∷ redirected_hop ∷ [])
