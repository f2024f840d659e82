-- ===== src/Kube/Logs/Window/Examples.antt =====
-- A collection that settles in its second round.
use gate_lens.Common.{
  ℕ, true, List, [], ◌∷◌, none, some, ◌≡◌, ◌≢◌, refl, trim_space, lookup, insert, remove,
  after_prefix, split_lines, byte_length,
}
use gate_lens.Domain.Values.{probe_collection_state_settled}
use gate_lens.Domain.Issues.{append_probe_issue, breaks_log_order}
use gate_lens.Observed.Values.{valid_log_value, is_internal_redirect, decimal, digit, digits_from}
use gate_lens.Observed.Log.Line.{
  from_brace, correlate, hop_of, match_entry, parse_higress_line_for_probe,
}
use gate_lens.Kube.Logs.{
  LogCache, empty_cache, note, note_if, line_key, identity_line, placed, keep_record, is_rotated,
  begins_with, scan_matched, read_line, scan_line, scan_lines, open_source, open_issues,
  scan_snapshot, close_source, merge,
}
use gate_lens.Kube.Logs.Samples.{sample_collector, sample_snapshot}
use gate_lens.Kube.Logs.Window.{
  live, window_over, Round, LogResult, usable_address, is_traceable, settle_key, group_records,
  is_closed, can_settle, settled, stopped, settle_or_wait, merge_all, after_read, run_round,
  collect_from, collect_probe_window,
}
use gate_lens.Kube.Logs.Window.Reports.{IsReport, collect-IsReport}
use gate_lens.Kube.Logs.Window.Settling.{IsSettling, SaysSettled, collect-settled}
use gate_lens.Kube.Logs.Window.Ends.{here, there, collect_ends}

abbrev pub round_at : ℕ → Round
round_at now = record {
  before = live;
  snapshots = sample_snapshot ∷ [];
  error = none;
  after = live;
  late = live;
  now = now;
  printed = "done";
}

abbrev pub two_rounds : List Round
two_rounds = round_at 0 ∷ round_at 600 ∷ []

abbrev pub last_cache : LogCache
last_cache = (merge_all sample_collector (sample_snapshot ∷ sample_snapshot ∷ []) empty_cache).0

collected : collect_probe_window sample_collector 500 two_rounds ≡ some (settled "done" last_cache)
unfolding collect_probe_window collect_from run_round after_read merge_all settle_or_wait stopped
    can_settle is_closed group_records settle_key is_traceable usable_address merge close_source
    scan_snapshot open_issues open_source scan_lines scan_line read_line scan_matched begins_with
    is_rotated keep_record placed identity_line line_key note_if note parse_higress_line_for_probe
    match_entry hop_of correlate from_brace decimal digits_from digit is_internal_redirect
    valid_log_value breaks_log_order append_probe_issue byte_length split_lines after_prefix lookup
    insert remove trim_space settled
collected = refl

collect-IsReport_example : IsReport "c1" (settled "done" last_cache)
collect-IsReport_example =
    collect-IsReport sample_collector 500 two_rounds (settled "done" last_cache) collected

says_settled : SaysSettled sample_collector (settled "done" last_cache)
unfolding settled
says_settled =
    (record { state = probe_collection_state_settled; completed_at = "done" }, refl, refl)

collect-settled_example :
    (final : LogCache) × IsSettling sample_collector 500 two_rounds empty_cache final
    × (can_settle final ≡ true)
    × ((settled "done" last_cache).hops ≡ final.hops)
collect-settled_example =
    collect-settled sample_collector 500 two_rounds (settled "done" last_cache) collected
      says_settled

abbrev over : Round
over = record (round_at 700) { before = window_over }

over-ne-live : window_over ≢ live
over-ne-live e = cc

collect_ends_example :
    (result : LogResult) × (collect_probe_window sample_collector 500 (round_at 0 ∷ over ∷ [])
      ≡ some result)
collect_ends_example =
    collect_ends sample_collector 500 (round_at 0 ∷ over ∷ [])
      (there (round_at 0) (over ∷ []) (here over [] over-ne-live))
