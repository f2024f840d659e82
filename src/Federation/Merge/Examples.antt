-- ===== src/Federation/Merge/Examples.antt =====
-- Two clusters, one of them out of date, merged by federated of internal/federation/store.go.
use gate_lens.Common.{ℕ, String, true, [], ◌∷◌, Option, none, ◌≡◌, ◌↔◌, any}
use gate_lens.Domain.Values.{snapshot_consistency_remote_unavailable, topology_node_kind_gateway}
use gate_lens.Samples.{blank_cluster, blank_node, blank_topology, blank_payload}
use gate_lens.Federation.Store.{Store, ReceivedSnapshot}
use gate_lens.Federation.Merge.{snapshot_list, is_stale, federated}
use gate_lens.Federation.Merge.Merged.{federated_stale_iff}

abbrev reported : String → ℕ → ReceivedSnapshot
reported cluster at = record {
  payload = record blank_payload {
    cluster = record blank_cluster { id = cluster };
    topology = record blank_topology {
      nodes =
          record blank_node { id = "g"; cluster_id = cluster; kind = topology_node_kind_gateway }
          ∷ [];
    };
  };
  received_at = at;
}

abbrev two_clusters : Store
two_clusters = record {
  preferred_cluster_id = "b";
  stale_after = 90;
  snapshots = ("b", reported "b" 950) ∷ ("a", reported "a" 800) ∷ [];
  command_queues = [];
  pending_commands = [];
  probes = [];
}

abbrev as_written : String → String
as_written text = text

abbrev no_time : String → Option ℕ
no_time text = none

abbrev no_wording : ℕ → String
no_wording at = ""

federated_stale_iff_example :
    ((federated as_written no_time no_wording as_written two_clusters 1000).0.consistency
      ≡ snapshot_consistency_remote_unavailable)
    ↔ (any (λ received. is_stale two_clusters 1000 received) (snapshot_list two_clusters) ≡ true)
federated_stale_iff_example =
    federated_stale_iff as_written no_time no_wording as_written two_clusters 1000
