-- ===== src/Federation/Snapshots/Examples.antt =====
-- One agent's snapshot, received and looked into, through internal/federation/store.go.
use gate_lens.Common.{
  ℕ, String, pos, true, false, [], ◌∷◌, none, some, ◌≡◌, refl, ◌⊎◌, eq_iff, trim_space, cut,
  after_prefix, lookup, insert, ok,
}
use gate_lens.Domain.Values.{is_valid_probe_scheme, topology_node_kind_gateway}
use gate_lens.Domain.Topology.{AgentSnapshot, TopologyNode, ProbeEntry}
use gate_lens.Samples.{blank_payload, blank_cluster, blank_topology, blank_node}
use gate_lens.Federation.Store.{Store, ReceivedSnapshot}
use gate_lens.Federation.Snapshots.{
  cluster_of, or_default, name_cluster, claim_nodes, complete_payload, receive_snapshot,
  snapshot_has_gateway, find_owner, resolve_gateway, strip_owner, resolve_probe_entry,
}
use gate_lens.Federation.Snapshots.Received.{AreFiled, IsStored, receive_snapshot-AreFiled}
use gate_lens.Federation.Snapshots.Resolved.{
  AreNamed, owners, IsResolved, resolve_probe_entry_sound, resolve_gateway_sound,
}

abbrev nothing : Store
nothing = record {
  preferred_cluster_id = "";
  stale_after = 90;
  snapshots = [];
  command_queues = [];
  pending_commands = [];
  probes = [];
}

abbrev gateway_node : TopologyNode
gateway_node = record blank_node { id = "g"; kind = topology_node_kind_gateway }

abbrev entry : ProbeEntry
entry = record {
  id = "e";
  gateway_id = "g";
  cluster_id = "c";
  namespace = "default";
  service_name = "higress-gateway";
  dns_name = "";
  port = pos 80;
  scheme = "http";
  protocol = "";
  display_name = "";
  addresses = [];
}

abbrev payload : AgentSnapshot
payload = record blank_payload {
  cluster = record blank_cluster { id = "c " };
  topology = record blank_topology { nodes = gateway_node ∷ []; probe_entries = entry ∷ [] };
}

abbrev noon : ℕ → String
noon now = "12:00"

abbrev stored : ReceivedSnapshot
stored = record {
  payload = record payload {
    cluster = record blank_cluster { id = "c"; name = "c"; connection_state = "connected" };
    topology = record (payload.topology) { nodes = record gateway_node { cluster_id = "c" } ∷ [] };
    sent_at = "12:00";
  };
  received_at = 9;
}

abbrev one_cluster : Store
one_cluster = record nothing { snapshots = ("c", stored) ∷ [] }

payload_received : receive_snapshot noon nothing 9 payload ≡ ok one_cluster
unfolding trim_space lookup insert cluster_of or_default name_cluster claim_nodes complete_payload
    receive_snapshot
payload_received = refl

nothing-AreFiled : AreFiled nothing
unfolding lookup
nothing-AreFiled cluster received h = cc

receive_snapshot-AreFiled_example :
    AreFiled one_cluster
    × ((received : ReceivedSnapshot) × IsStored noon 9 payload received
        × (one_cluster ≡ record nothing {
          snapshots = insert (cluster_of payload) received nothing.snapshots;
        }))
receive_snapshot-AreFiled_example =
    receive_snapshot-AreFiled noon nothing one_cluster 9 payload nothing-AreFiled payload_received

entry_resolved : resolve_probe_entry one_cluster "c" "c::g" "e" ≡ ok ("c", "g", entry)
unfolding trim_space cut after_prefix lookup snapshot_has_gateway strip_owner resolve_probe_entry
    is_valid_probe_scheme
entry_resolved = refl

resolve_probe_entry_sound_example : IsResolved one_cluster "c" "c::g" "e" "c" "g" entry
resolve_probe_entry_sound_example =
    resolve_probe_entry_sound one_cluster "c" "c::g" "e" "c" "g" entry entry_resolved

gateway_resolved : resolve_gateway one_cluster "g" ≡ ok ("c", "g")
unfolding trim_space cut after_prefix lookup snapshot_has_gateway find_owner resolve_gateway
gateway_resolved = refl

one_cluster-AreNamed : AreNamed one_cluster.snapshots
one_cluster-AreNamed = ((λ e. let clash : false ≡ true = (eq_iff "c" "").1 e in cc), tt)

resolve_gateway_sound_example :
    ((cut (trim_space "g") "::" ≡ some ("c", "g"))
      × ((received : ReceivedSnapshot) × (lookup "c" one_cluster.snapshots ≡ some received)
          × (snapshot_has_gateway received.payload "g" ≡ true)))
    ⊎ ((cut (trim_space "g") "::" ≡ none)
        × (gateway_node.id ≡ trim_space "g")
        × (owners "g" one_cluster.snapshots ≡ "c" ∷ []))
resolve_gateway_sound_example =
    resolve_gateway_sound one_cluster "g" "c" "g" one_cluster-AreNamed gateway_resolved
