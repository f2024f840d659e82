-- ===== src/Observed/Attempts/Enrich/Examples.antt =====
-- A probe with one redirect at one gateway, enriched by internal/observed/probe_attempts.go.
use mathlib.Core.List.{Memᴰ}
use gate_lens.Common.{
  String, pos, true, false, [], ◌∷◌, some, ◌≡◌, ◌≢◌, refl, sym, ◌∙◌, eq_iff, length, trim_space,
  after_prefix,
}
use gate_lens.Domain.Values.{
  probe_collection_state_settled, probe_execution_state_completed, probe_correlation_probe_id,
}
use gate_lens.Domain.Hop.{ObservedHop}
use gate_lens.Domain.Issues.{append_probe_issue, breaks_log_order}
use gate_lens.Domain.Probe.{ProbeSegment, ProbeExecution}
use gate_lens.Observed.Values.{valid_log_value, decimal}
use gate_lens.Samples.{blank_hop, blank_segment, blank_execution}
use gate_lens.Observed.Attempts.{
  add_record, fill_buckets, request_key, has_request_identity, has_order, are_ordered, is_ordered,
  in_order, insert_by_sequence, sort_by_sequence, start_group, confirm_order, list_hops,
  has_early_terminal, link_redirects, ends_in_redirect, relate_by, relate, only, close_group,
  attempt_group, number_groups, attempt_groups,
}
use gate_lens.Observed.Attempts.Enrich.{
  relation_rank, qualify, qualify_issue, retain_issues, identify_hop, identify_hops, by_id,
  set_context, set_contexts, append_issues, add_group, add_groups, reset_segment, segment_groups,
  relate_segment, may_conclude, is_exact, set_final, conclude, enrich_segment, conclude_segments,
  enrich_probe,
}
use gate_lens.Observed.Attempts.Enrich.Upstream.{final_upstream-single}
use gate_lens.Observed.Attempts.Enrich.Final.{IsConclusive, final_response-IsConclusive}

abbrev redirected_hop : ObservedHop
redirected_hop = record blank_hop {
  id = "a";
  runtime_source = "uid";
  log_source_id = "pod/uid";
  log_sequence = pos 4;
  request_start_time = "10:00";
  downstream_remote_address = "10.0.0.1:80";
  internal_redirect = true;
  response_code = pos 302;
  correlation = probe_correlation_probe_id;
}

abbrev answered_hop : ObservedHop
answered_hop = record redirected_hop {
  id = "b";
  log_sequence = pos 7;
  internal_redirect = false;
  response_code = pos 200;
}

abbrev completed_probe : ProbeExecution
completed_probe = record blank_execution {
  gateway_id = "g";
  state = probe_execution_state_completed;
  response_code = pos 200;
  segments =
      record blank_segment {
        gateway_id = "g";
        hops = answered_hop ∷ redirected_hop ∷ [];
        collection =
            some (record { state = probe_collection_state_settled; completed_at = "10:01" });
      }
      ∷ [];
}

completed_probe_final :
    ((enrich_probe completed_probe).final_response_hop_id ≡ "g/b")
    × ((enrich_probe completed_probe).final_upstream_hop_id ≡ "g/b")
unfolding trim_space after_prefix append_probe_issue breaks_log_order valid_log_value decimal
    add_record fill_buckets request_key has_request_identity has_order are_ordered is_ordered
    in_order insert_by_sequence sort_by_sequence start_group confirm_order list_hops
    has_early_terminal link_redirects ends_in_redirect relate_by relate only close_group
    attempt_group number_groups attempt_groups relation_rank qualify qualify_issue retain_issues
    identify_hop identify_hops by_id set_context set_contexts append_issues add_group add_groups
    reset_segment segment_groups relate_segment may_conclude is_exact set_final conclude
    enrich_segment conclude_segments enrich_probe
completed_probe_final = (refl, refl)

named : {id : String} → id ≡ "g/b" → id ≢ ""
named h e = let clash : false ≡ true = (eq_iff "g/b" "").1 (sym h ∙ e) in cc

final_response-IsConclusive_example :
    (segment : ProbeSegment) × Memᴰ segment completed_probe.segments
    × IsConclusive completed_probe segment (enrich_probe completed_probe).final_response_hop_id
final_response-IsConclusive_example =
    final_response-IsConclusive completed_probe (named completed_probe_final.0)

final_upstream-single_example :
    let after = enrich_probe completed_probe in
    (length after.segments ≡ 1)
    × (after.issues ≡ [])
    × (after.final_upstream_hop_id ≡ after.final_response_hop_id)
final_upstream-single_example =
    final_upstream-single completed_probe (named completed_probe_final.1)
