-- ===== src/Federation/Merge/Merged.antt =====
-- What the merged topology holds, and when it is said to be out of date.
use gate_lens.Common.{
  ℕ, String, true, List, [], ◌∷◌, ◌++◌, map, Option, ◌≡◌, refl, sym, ◌↔◌, ◌⊎◌, inl, inr, ◌||◌, any,
  concat, arith, eq_iff,
}
use gate_lens.Domain.Values.{
  snapshot_consistency_waiting_for_agents, snapshot_consistency_consistent_window,
  snapshot_consistency_remote_unavailable, snapshot_consistency_time_skew,
}
use gate_lens.Domain.Topology.{Topology, TopologyEdge, Finding}
use gate_lens.Federation.Merge.Identities.{
  AreMerged, IsGlobalNode, IsGlobalEdge, IsGlobalEntry, IsGlobalFinding,
}
use gate_lens.Federation.Store.{Store, ReceivedSnapshot}
use gate_lens.Federation.Links.Keys.{discover_links}
use gate_lens.Federation.Merge.{
  snapshot_list, Merge, empty_merge, global_nodes, global_edges, global_entries, global_findings,
  is_stale, merge_snapshot, merge_snapshots, consistency_of, conclude_merge, federated,
}

module _ (normalize_target : String → String) (parse_time : String → Option ℕ)
    (format_time : ℕ → String) (digest : String → String) where
  -- The lists that the merge has gathered from these snapshots, behind those of `m`.
  abbrev IsGathered : Merge → List ReceivedSnapshot → Merge → Type 0
  IsGathered m snapshots after =
      (after.nodes ≡ m.nodes ++ concat (map global_nodes snapshots))
      × (after.edges ≡ m.edges ++ concat (map global_edges snapshots))
      × (after.probe_entries ≡ m.probe_entries ++ concat (map global_entries snapshots))
      × (after.findings ≡ m.findings ++ concat (map global_findings snapshots))

  merge_snapshots-stale :
      (s : Store) (now : ℕ) (m : Merge) (snapshots : List ReceivedSnapshot)
      → (merge_snapshots normalize_target parse_time format_time digest s now m snapshots).stale
        ≡ (m.stale || any (λ received. is_stale s now received) snapshots)
  unfolding merge_snapshots merge_snapshot
  merge_snapshots-stale s now m [] = ground arith
  merge_snapshots-stale s now m (received ∷ snapshots) = ground (
    arith,
    merge_snapshots-stale s now
        (merge_snapshot normalize_target parse_time format_time digest s now m received) snapshots,
  )

  consistency_of_stale_iff :
      (m : Merge)
      → (consistency_of normalize_target parse_time format_time digest m
          ≡ snapshot_consistency_remote_unavailable)
        ↔ (m.stale ≡ true)
  unfolding consistency_of
  consistency_of_stale_iff m = ground (
    arith,
    eq_iff snapshot_consistency_consistent_window snapshot_consistency_remote_unavailable,
    eq_iff snapshot_consistency_time_skew snapshot_consistency_remote_unavailable,
  )

  List-cases :
      (xs : List ReceivedSnapshot)
      → (xs ≡ []) ⊎ ((x : ReceivedSnapshot) × (rest : List ReceivedSnapshot) × (xs ≡ x ∷ rest))
  List-cases [] = inl refl
  List-cases (x ∷ xs) = inr (x, xs, refl)

  -- The merged topology is out of date, "remote-unavailable", exactly if the snapshot of some cluster
  -- was received longer ago than the server allows.
  pub federated_stale_iff :
      (s : Store) (now : ℕ)
      → ((federated normalize_target parse_time format_time digest s now).0.consistency
          ≡ snapshot_consistency_remote_unavailable)
        ↔ (any (λ received. is_stale s now received) (snapshot_list s) ≡ true)
  unfolding federated conclude_merge
  federated_stale_iff s now = elim (List-cases (snapshot_list s)) [
    | inl nobody ↦
        rw (nobody, federated)
          (ground (
            arith,
            eq_iff snapshot_consistency_waiting_for_agents snapshot_consistency_remote_unavailable,
          ))
    | inr (received, snapshots, these) ↦
        let all = received ∷ snapshots in
        let merged =
          merge_snapshots normalize_target parse_time format_time digest s now empty_merge all in
        rw (these, federated)
          (rw (sym (merge_snapshots-stale s now empty_merge all)) (consistency_of_stale_iff merged))
  ]

  -- What is merged of these snapshots, in their order, and the links discovered behind it.
  pub record IsMerged (snapshots : List ReceivedSnapshot) (topology : Topology)
      (findings : List Finding) : Type 0 where
    pub nodes :
        AreMerged IsGlobalNode
          (λ received. received.payload.topology.nodes)
          snapshots
          topology.nodes
    pub entries :
        AreMerged IsGlobalEntry
          (λ received. received.payload.topology.probe_entries)
          snapshots
          topology.probe_entries
    pub edges : List TopologyEdge
    pub own : List Finding
    pub own_edges :
        AreMerged IsGlobalEdge (λ received. received.payload.topology.edges) snapshots edges
    pub own_findings :
        AreMerged IsGlobalFinding (λ received. received.payload.findings) snapshots own
    pub all_edges :
        topology.edges ≡ edges ++ (discover_links normalize_target topology.nodes edges).0
    pub all_findings : findings ≡ own ++ (discover_links normalize_target topology.nodes edges).1
