-- ===== src/Federation/Owner/Found.antt =====
-- What the search for an owner finds, and how many rounds it needs.
use mathlib.Core.List.{Memᴰ}
use gate_lens.Common.{
  ℕ, zero, suc, ◌+◌, ◌≤◌, String, Bool, true, false, List, [], ◌∷◌, ◌++◌, ◌≡◌, ◌≢◌, refl, sym,
  subst, All-map, ◌⊎◌, inl, inr, ◌==◌, eq_iff, leb, length, length-append, keep, All, All-append,
  arith, Bool-cases,
}
use gate_lens.Domain.Values.{topology_node_kind_gateway}
use gate_lens.Domain.Topology.{TopologyNode, TopologyEdge}
use gate_lens.Federation.Owner.{
  node_at, into, is_owner, is_new, scan, search, owning_gateway_in, owning_gateway,
}

Sum-cases : {A B : Type 0} (x : A ⊎ B) → ((a : A) × (x ≡ inl a)) ⊎ ((b : B) × (x ≡ inr b))
Sum-cases (inl a) = inl (a, refl)
Sum-cases (inr b) = inr (b, refl)

-- Nodes from which edges inside the cluster lead to the start.
pub data IsUpstream (nodes : List (String × TopologyNode)) (edges : List TopologyEdge)
    (home start : String) : String → Type 0 where
  started : IsUpstream nodes edges home start start
  against :
      {current : String} (edge : TopologyEdge)
      → IsUpstream nodes edges home start current
      → Memᴰ edge edges
      → edge.to ≡ current
      → (node_at nodes edge.from).cluster_id ≡ home
      → IsUpstream nodes edges home start (node_at nodes edge.from).id

-- A gateway of the cluster, with an edge to such a node.
pub record IsOwner (nodes : List (String × TopologyNode)) (edges : List TopologyEdge)
    (home start owner : String) : Type 0 where
  pub edge : TopologyEdge
  pub listed : Memᴰ edge edges
  pub upstream : IsUpstream nodes edges home start edge.to
  pub is_gateway : (node_at nodes edge.from).kind ≡ topology_node_kind_gateway
  pub same_cluster : (node_at nodes edge.from).cluster_id ≡ home
  pub named : (node_at nodes edge.from).id ≡ owner

Memᴰ-keep :
    (p : TopologyEdge → Bool) (edges : List TopologyEdge)
    → All (λ edge. Memᴰ edge edges × (p edge ≡ true)) (keep p edges)
Memᴰ-keep p [] = tt
Memᴰ-keep p (edge ∷ edges) =
    let later =
      All-map {P = λ (e : TopologyEdge). Memᴰ e edges × (p e ≡ true)} (keep p edges)
        (λ e m. (Memᴰ.tail m.0, m.1)) (Memᴰ-keep p edges) in
    elim (Bool-cases (p edge)) [
      | inl kept ↦ rw kept ((Memᴰ.head refl, kept), later)
      | inr dropped ↦ rw dropped later
    ]

module _ (nodes : List (String × TopologyNode)) (edges : List TopologyEdge)
    (home start : String) where
  abbrev AreUpstream : List String → Type 0
  AreUpstream ids = All (IsUpstream nodes edges home start) ids

  -- What one scan leaves.
  abbrev IsScanned : ℕ → String ⊎ (List String × List String) → Type 0
  IsScanned gap (inl owner) = IsOwner nodes edges home start owner
  IsScanned gap (inr (visited, queue)) = AreUpstream queue × (length visited ≡ gap + length queue)

  scan-IsScanned :
      (current : String) (gap : ℕ) (visited queue : List String) (found : List TopologyEdge)
      → IsUpstream nodes edges home start current
      → All (λ (edge : TopologyEdge). Memᴰ edge edges × ((edge.to == current) ≡ true)) found
      → AreUpstream queue
      → length visited ≡ gap + length queue
      → IsScanned gap (scan nodes home visited queue found)
  unfolding scan
  scan-IsScanned current gap visited queue [] up all ups count = (ups, count)
  scan-IsScanned current gap visited queue (edge ∷ found) up ((listed, hit), all) ups count =
      let candidate = node_at nodes edge.from in
      let target : edge.to ≡ current = (eq_iff edge.to current).0 hit in
      elim (Bool-cases (is_owner home candidate)) [
        | inl owner ↦ rw owner (record {
          edge = edge;
          listed = listed;
          upstream = subst (IsUpstream nodes edges home start) (sym target) up;
          is_gateway = ground (arith, eq_iff candidate.kind topology_node_kind_gateway);
          same_cluster = ground (arith, eq_iff candidate.cluster_id home);
          named = refl;
        })
        | inr other ↦ rw other (elim (Bool-cases (is_new home visited candidate)) [
          | inl new ↦ rw new (
              scan-IsScanned current gap (candidate.id ∷ visited) (queue ++ candidate.id ∷ []) found
                up all
                (All-append (IsUpstream nodes edges home start) queue (candidate.id ∷ []) ups (
                  IsUpstream.against edge up listed target
                      (ground (arith, eq_iff candidate.cluster_id home)),
                  tt,
                ))
                (omega (arith, count, length-append queue (candidate.id ∷ []))))
          | inr old ↦ rw old (scan-IsScanned current gap visited queue found up all ups count)
        ])
      ]

  scan-into :
      (current : String) (gap : ℕ) (visited queue : List String)
      → AreUpstream (current ∷ queue)
      → length visited ≡ gap + length (current ∷ queue)
      → IsScanned (suc gap) (scan nodes home visited queue (into edges current))
  scan-into current gap visited queue (up, ups) count =
      scan-IsScanned current (suc gap) visited queue (into edges current) up
        (Memᴰ-keep (λ edge. edge.to == current) edges) ups (omega (arith, count))

  search-IsOwner :
      (rounds gap : ℕ) (visited queue : List String)
      → AreUpstream queue
      → length visited ≡ gap + length queue
      → search rounds nodes edges home visited queue ≢ ""
      → IsOwner nodes edges home start (search rounds nodes edges home visited queue)
  unfolding search
  search-IsOwner zero gap visited queue ups count named = absurd (named refl)
  search-IsOwner (suc rounds) gap visited [] ups count named = absurd (named refl)
  search-IsOwner (suc rounds) gap visited (current ∷ queue) ups count named =
      let scanned = scan-into current gap visited queue ups count in
      elim (Bool-cases (leb (length visited) 128)) [
        | inl few ↦ elim (Sum-cases (scan nodes home visited queue (into edges current))) [
          | inl (owner, hit) ↦ rw (few, hit) (rw hit at scanned)
          | inr (state, missed) ↦
              let (more, left) = rw missed at scanned in
              let named : search rounds nodes edges home state.0 state.1 ≢ "" =
                rw (few, missed) at named in
              rw (few, missed) (search-IsOwner rounds (suc gap) state.0 state.1 more left named)
        ]
        | inr many ↦ absurd (named (rw many))
      ]

  too_many :
      (gap : ℕ) (visited queue : List String) (current : String)
      → length visited ≡ gap + length (current ∷ queue)
      → 129 ≤ gap
      → leb (length visited) 128 ≡ false
  too_many gap visited queue current count enough =
      let long : 129 ≤ length visited = omega (arith, count, enough) in ground (arith, long)

  search_enough :
      (rounds more gap : ℕ) (visited queue : List String)
      → AreUpstream queue
      → length visited ≡ gap + length queue
      → 129 ≤ gap + rounds
      → 129 ≤ gap + more
      → search more nodes edges home visited queue ≡ search rounds nodes edges home visited queue
  unfolding search
  search_enough zero zero gap visited queue ups count few many = refl
  search_enough zero (suc more) gap visited [] ups count few many = refl
  search_enough zero (suc more) gap visited (current ∷ queue) ups count few many =
      rw (too_many gap visited queue current count (omega (arith, few))) refl
  search_enough (suc rounds) zero gap visited [] ups count few many = refl
  search_enough (suc rounds) zero gap visited (current ∷ queue) ups count few many =
      rw (too_many gap visited queue current count (omega (arith, many))) refl
  search_enough (suc rounds) (suc more) gap visited [] ups count few many = refl
  search_enough (suc rounds) (suc more) gap visited (current ∷ queue) ups count few many =
      let scanned = scan-into current gap visited queue ups count in
      elim (Bool-cases (leb (length visited) 128)) [
        | inl small ↦ elim (Sum-cases (scan nodes home visited queue (into edges current))) [
          | inl (owner, hit) ↦ rw (small, hit)
          | inr (state, missed) ↦
              let (later, left) = rw missed at scanned in
              rw (small, missed)
                (search_enough rounds more (suc gap) state.0 state.1 later left (omega (arith, few))
                  (omega (arith, many)))
        ]
        | inr large ↦ rw large
      ]

module _ (nodes : List (String × TopologyNode)) (edges : List TopologyEdge) (id : String) where
  -- If the search for the owner of a node that is no gateway finds one, that is a gateway of the
  -- node's cluster, with an edge to a node from which edges within the cluster lead to the node.
  pub owning_gateway-IsOwner :
      (node_at nodes id).kind ≢ topology_node_kind_gateway
      → owning_gateway nodes edges id ≢ ""
      → IsOwner nodes edges (node_at nodes id).cluster_id id (owning_gateway nodes edges id)
  unfolding owning_gateway owning_gateway_in
  owning_gateway-IsOwner other named =
      let home = (node_at nodes id).cluster_id in
      let test : (node_at nodes id).kind == topology_node_kind_gateway ≡ false =
        ground (arith, other, eq_iff (node_at nodes id).kind topology_node_kind_gateway) in
      let found : search 129 nodes edges home (id ∷ []) (id ∷ []) ≢ "" = rw test at named in
      rw test (
        search-IsOwner nodes edges home id 129 0 (id ∷ []) (id ∷ []) (IsUpstream.started, tt) refl
          found)

  -- The search for an owner ends within 129 rounds: with more rounds it finds the same.
  pub owning_gateway_enough :
      (rounds : ℕ)
      → 129 ≤ rounds
      → owning_gateway_in rounds nodes edges id ≡ owning_gateway nodes edges id
  unfolding owning_gateway owning_gateway_in
  owning_gateway_enough rounds enough =
      let home = (node_at nodes id).cluster_id in
      let same =
        search_enough nodes edges home id 129 rounds 0 (id ∷ []) (id ∷ []) (IsUpstream.started, tt)
          refl (omega arith) (omega (arith, enough)) in
      elim (Bool-cases ((node_at nodes id).kind == topology_node_kind_gateway)) [
        | inl own ↦ rw own
        | inr other ↦ rw other same
      ]
