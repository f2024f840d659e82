-- ===== src/Observed/Log/Line/Examples.antt =====
-- A line that names the probe.
use gate_lens.Common.{String, [], some, ◌≡◌, ◌↔◌, refl, trim_space, lookup}
use gate_lens.Domain.Values.{probe_correlation_probe_id, probe_correlation_trace_id}
use gate_lens.Domain.Hop.{ObservedHop}
use gate_lens.Observed.Values.{valid_log_value}
use gate_lens.Observed.Log.Samples.{sample_entry, sample_library}
use gate_lens.Observed.Log.Line.{
  from_brace, correlate, hop_of, match_entry, parse_higress_line_for_probe,
}
use gate_lens.Observed.Log.Line.Evidence.{
  NamesProbe, SharesTrace, correlate_iff, IsEvidence, parse_line-IsEvidence,
}

abbrev sample_line : String
sample_line = "2026-01-01T00:00:00Z stdout F {}"

abbrev sample_hop : ObservedHop
sample_hop =
    hop_of sample_library "now" "c1" "ns/pod" "log" probe_correlation_probe_id sample_entry []

matched :
    parse_higress_line_for_probe sample_library "now" sample_line "p1" "t1" "c1" "ns/pod" "log"
    ≡ some sample_hop
unfolding parse_higress_line_for_probe match_entry correlate from_brace trim_space valid_log_value
    lookup
matched = refl

correlate_iff_example :
    ((correlate sample_library "p1" "t1" sample_entry ≡ probe_correlation_probe_id)
      ↔ NamesProbe sample_library "p1" sample_entry)
    × ((correlate sample_library "p1" "t1" sample_entry ≡ probe_correlation_trace_id)
        ↔ SharesTrace sample_library "t1" sample_entry)
correlate_iff_example = correlate_iff sample_library "p1" "t1" sample_entry

parse_line-IsEvidence_example : IsEvidence sample_library "c1" "ns/pod" "log" sample_hop
parse_line-IsEvidence_example =
    parse_line-IsEvidence sample_library "now" sample_line "p1" "t1" "c1" "ns/pod" "log" sample_hop
      matched
