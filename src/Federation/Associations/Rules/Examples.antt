-- ===== src/Federation/Associations/Rules/Examples.antt =====
-- A probe that left one gateway for the address of another.
use gate_lens.Common.{
  pos, false, [], ◌∷◌, none, some, ◌≡◌, refl, lookup, insert, remove, trim_space, before_suffix,
}
use gate_lens.Domain.Values.{probe_inference_confidence_high}
use gate_lens.Domain.Hop.{ObservedHop}
use gate_lens.Domain.Topology.{Topology, ProbeEntry}
use gate_lens.Samples.{blank_hop, blank_topology}
use gate_lens.Federation.Probes.{ProbeGatewayTarget}
use gate_lens.Federation.Associations.{Ranked, entries_of, node_of, index_by_id}
use gate_lens.Federation.Associations.Hosts.{
  HostLibrary, normalized_upstream_host, upstream_cluster_tokens, normalize_tokens, fields,
  split_fields, is_separator,
}
use gate_lens.Federation.Associations.Ranking.{rank, rank_all, offers_of, offer_of, unique_matches}
use gate_lens.Federation.Associations.Rules.{
  matching, gateway_target_matches_address, by_host, by_registry, by_cluster, declared, is_observed,
  default_rules, all_offers, infer_probe_gateway_candidates,
}
use gate_lens.Federation.Associations.Rules.Inferred.{IsInferred, infer-IsInferred}

abbrev hosts : HostLibrary
hosts = record {
  hostname = λ text. some text;
  split_host_port = λ text. none;
  to_lower = λ text. text;
  normalize_target = λ text. text;
  format = λ format count. format;
}

abbrev entrance : ProbeEntry
entrance = record {
  id = "e2";
  gateway_id = "c2::g2";
  cluster_id = "c2";
  namespace = "ns";
  service_name = "gateway";
  dns_name = "gateway.ns";
  port = pos 80;
  scheme = "http";
  protocol = "";
  display_name = "";
  addresses = "10.0.0.2" ∷ [];
}

abbrev two_clusters : Topology
two_clusters = record blank_topology { probe_entries = entrance ∷ [] }

abbrev next_gateway : ProbeGatewayTarget
next_gateway = record {
  cluster_id = "c2";
  gateway_id = "g2";
  global_id = "c2::g2";
  gateway_name = "g2";
  snapshot_id = "";
  observed_at = "";
  transport = "";
  destination = "";
  declared = false;
  predecessor_gateway_id = "";
}

abbrev leaving : ObservedHop
leaving = record blank_hop { upstream_host = "10.0.0.2" }

abbrev by_address_found : Ranked
by_address_found = record {
  basis = "上一跳 upstream_host 10.0.0.2 命中该网关的入口地址";
  confidence = probe_inference_confidence_high;
  strength = 300;
}

inferred :
    lookup "c2::g2"
      (infer_probe_gateway_candidates hosts two_clusters (next_gateway ∷ []) (leaving ∷ []) [])
    ≡ some by_address_found
unfolding infer_probe_gateway_candidates all_offers default_rules by_host by_registry by_cluster
    declared is_observed matching gateway_target_matches_address normalized_upstream_host
    upstream_cluster_tokens fields split_fields is_separator normalize_tokens entries_of node_of
    index_by_id unique_matches offer_of offers_of rank rank_all lookup insert remove trim_space
    before_suffix
inferred = refl

infer-IsInferred_example : IsInferred (next_gateway ∷ []) ("c2::g2", by_address_found)
infer-IsInferred_example =
    infer-IsInferred hosts two_clusters (next_gateway ∷ []) (leaving ∷ []) [] "c2::g2"
      by_address_found inferred
