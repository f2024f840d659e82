-- ===== src/Federation/Probes/Completion/Examples.antt =====
-- A probe with three targets: one that is inferred, one with a record, and one with nothing.
use gate_lens.Common.{String, pos, false, List, [], ◌∷◌, All, ◌≡◌, refl, none, some, lookup}
use gate_lens.Domain.Values.{probe_inference_confidence_high}
use gate_lens.Domain.Issues.{append_probe_issue}
use gate_lens.Domain.Topology.{Topology, ProbeEntry}
use gate_lens.Domain.Probe.{ProbeSegment}
use gate_lens.Samples.{blank_hop, blank_segment, blank_execution, blank_topology}
use gate_lens.Federation.Probes.{ProbeGatewayTarget}
use gate_lens.Federation.Associations.{Ranked}
use gate_lens.Federation.Associations.Hosts.{HostLibrary}
use gate_lens.Federation.Probes.Completion.{
  Observed, missing_evidence, has_protocol_failure, candidate, settle_segment, settle_segments,
  inferences_of, complete_segments,
}
use gate_lens.Federation.Probes.Completion.Justified.{
  IsJustified, Indexed, complete_segments-IsJustified,
}

abbrev hosts : HostLibrary
hosts = record {
  hostname = λ text. some text;
  split_host_port = λ text. none;
  to_lower = λ text. text;
  normalize_target = λ text. text;
  format = λ format count. format;
}

abbrev entrance : ProbeEntry
entrance = record {
  id = "e2";
  gateway_id = "c2::g2";
  cluster_id = "c2";
  namespace = "ns";
  service_name = "gateway";
  dns_name = "gateway.ns";
  port = pos 80;
  scheme = "http";
  protocol = "";
  display_name = "";
  addresses = "10.0.0.2" ∷ [];
}

abbrev topology : Topology
topology = record blank_topology { probe_entries = entrance ∷ [] }

abbrev gateway_in : String → String → ProbeGatewayTarget
gateway_in cluster global = record {
  cluster_id = cluster;
  gateway_id = "g";
  global_id = global;
  gateway_name = "g";
  snapshot_id = "";
  observed_at = "";
  transport = "";
  destination = "";
  declared = false;
  predecessor_gateway_id = "";
}

-- The probe left the first gateway for the address of the second one.
abbrev source : ProbeSegment
source = record blank_segment { hops = record blank_hop { upstream_host = "10.0.0.2" } ∷ [] }

abbrev seen : ProbeSegment
seen = record blank_segment { hops = blank_hop ∷ [] }

abbrev results : List Observed
results =
    (gateway_in "c2" "c2::g2", blank_segment)
    ∷ (gateway_in "c3" "c3::g3", seen)
    ∷ (gateway_in "c4" "c4::g4", blank_segment)
    ∷ []

abbrev by_address : Ranked
by_address = record {
  basis = "address";
  confidence = probe_inference_confidence_high;
  strength = 300;
}

-- The candidate and the segment with a record are kept, the third one is not.
two_are_kept :
    settle_segments (("c2::g2", by_address) ∷ []) results
    ≡ record blank_segment {
      inference_basis = "address";
      inference_confidence = probe_inference_confidence_high;
      issues = missing_evidence ∷ [];
    }
      ∷ seen
      ∷ []
unfolding settle_segments settle_segment candidate has_protocol_failure lookup append_probe_issue
two_are_kept = refl

complete_segments-IsJustified_example :
    Indexed 1 (complete_segments hosts topology blank_execution source results)
    × ((others : List ProbeSegment) × (complete_segments hosts topology blank_execution source
            results
          ≡ record source { index = pos 1 } ∷ others)
        × All
            (IsJustified (inferences_of hosts topology blank_execution source results) results)
            others)
complete_segments-IsJustified_example =
    complete_segments-IsJustified hosts topology blank_execution source results
