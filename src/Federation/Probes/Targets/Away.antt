-- ===== src/Federation/Probes/Targets/Away.antt =====
-- What the search for declared targets keeps of the gateways that it finds.
use gate_lens.Common.{
  ℕ, zero, suc, String, true, List, [], ◌∷◌, ◌==◌, ◌≡◌, refl, sym, subst, ◌≢◌, inl, inr, All,
  All-append, contains, Bool-cases, arith, ◌||◌, leb, length,
}
use gate_lens.Domain.Topology.{Topology, TopologyNode, TopologyEdge}
use gate_lens.Federation.Ids.{local_id}
use gate_lens.Federation.Owner.{node_at}
use gate_lens.Federation.Probes.{ProbeGatewayTarget}
use gate_lens.Federation.Probes.Targets.{
  Search, visit, declared_target, add_declared, follow, follow_all, search_targets, forward_of,
  nodes_of,
}

-- What a target says of its gateway is what the node says.
abbrev pub IsAbout : TopologyNode → ProbeGatewayTarget → Type 0
IsAbout gateway target =
    (target.cluster_id ≡ gateway.cluster_id)
    × (target.gateway_id ≡ local_id gateway.cluster_id target.global_id)
    × (target.gateway_name ≡ gateway.name)

abbrev pub IsOther : Topology → String → ProbeGatewayTarget → Type 0
IsOther topology source target =
    (target.global_id ≢ source) × IsAbout (node_at (nodes_of topology) target.global_id) target

-- The probed gateway is seen, and no target is that gateway.
pub record IsAway (topology : Topology) (source : String) (s : Search) : Type 0 where
  pub seen : contains s.seen_gateways source ≡ true
  pub others : All (λ target. IsOther topology source target) s.targets

visit-IsAway :
    (topology : Topology) (source id : String) (s : Search)
    → IsAway topology source s
    → IsAway topology source (visit id s)
unfolding visit
visit-IsAway topology source id s h = elim (Bool-cases (contains s.visited id)) [
  | inl e ↦ rw (e, visit) h
  | inr e ↦ rw (e, visit) (record { seen = h.seen; others = h.others })
]

module _ (topology : Topology) where
  add_declared-IsAway :
      (source : String) (edge : TopologyEdge) (gateway : String) (s : Search)
      → IsAway topology source s
      → IsAway topology source (add_declared topology edge gateway s)
  unfolding add_declared declared_target
  add_declared-IsAway source edge gateway s h =
      elim (Bool-cases (gateway == "" || contains s.seen_gateways gateway)) [
        | inl e ↦ rw (e, add_declared) h
        | inr e ↦
            rw (e, add_declared)
              (visit-IsAway topology source gateway _ (record {
                seen = ground (arith, h.seen);
                others =
                    All-append (λ target. IsOther topology source target) s.targets
                      (declared_target topology edge gateway ∷ []) h.others
                      (
                        (
                          (λ same.
                              let old =
                                subst (λ (id : String). contains s.seen_gateways id ≡ true)
                                  (sym same) h.seen in
                              ground arith),
                          (refl, refl, refl),
                        ),
                        tt,
                      );
              }))
      ]

  follow-IsAway :
      (source : String) (edge : TopologyEdge) (s : Search)
      → IsAway topology source s
      → IsAway topology source (follow topology edge s)
  unfolding follow
  follow-IsAway source edge s h = elim (Bool-cases (edge.relation == "cross-cluster")) [
    | inl e ↦
        rw (e, follow)
          (visit-IsAway topology source edge.to _ (add_declared-IsAway source edge _ s h))
    | inr e ↦ rw (e, follow) (visit-IsAway topology source edge.to s h)
  ]

  follow_all-IsAway :
      (source : String) (edges : List TopologyEdge) (s : Search)
      → IsAway topology source s
      → IsAway topology source (follow_all topology edges s)
  unfolding follow_all
  follow_all-IsAway source [] s h = h
  follow_all-IsAway source (edge ∷ edges) s h =
      follow_all-IsAway source edges (follow topology edge s) (follow-IsAway source edge s h)

  pub search_targets-IsOther :
      (source : String) (rounds : ℕ) (s : Search) (queue : List String)
      → IsAway topology source s
      → All (λ target. IsOther topology source target) (search_targets topology rounds s queue)
  unfolding search_targets
  search_targets-IsOther source zero s queue h = h.others
  search_targets-IsOther source (suc rounds) s [] h = h.others
  search_targets-IsOther source (suc rounds) s (current ∷ queue) h =
      let next =
        follow_all topology (forward_of topology.edges current) (record s { queue = queue }) in
      elim (Bool-cases (leb (length s.visited) 4096)) [
        | inl e ↦
            rw (e, search_targets)
              (search_targets-IsOther source rounds next next.queue (
                follow_all-IsAway source (forward_of topology.edges current) _
                  (record { seen = h.seen; others = h.others })))
        | inr e ↦ rw (e, search_targets) h.others
      ]
