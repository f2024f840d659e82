-- ===== src/Federation/Probes/Targets/Examples.antt =====
-- A gateway that can be observed beside the one that is probed.
use gate_lens.Common.{[], ◌∷◌, All}
use gate_lens.Domain.Values.{topology_node_kind_gateway}
use gate_lens.Domain.Topology.{Topology}
use gate_lens.Samples.{blank_topology, blank_node}
use gate_lens.Federation.Probes.Targets.{discover_probe_gateway_targets}
use gate_lens.Federation.Probes.Targets.Observable.{IsProbeTarget, discover_targets-IsProbeTarget}

abbrev two_gateways : Topology
two_gateways = record blank_topology {
  nodes =
      record blank_node { id = "c1::g1"; kind = topology_node_kind_gateway }
      ∷ record blank_node {
        id = "c2::g2";
        kind = topology_node_kind_gateway;
        conditions = "EnvoyConfig=available" ∷ [];
      }
      ∷ [];
}

discover_targets-IsProbeTarget_example :
    All (IsProbeTarget two_gateways "c1::g1") (discover_probe_gateway_targets two_gateways "c1::g1")
discover_targets-IsProbeTarget_example = discover_targets-IsProbeTarget two_gateways "c1::g1"
