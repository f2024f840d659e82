-- ===== src/Federation/Merge/Identities.antt =====
-- The items of the snapshots under their federated identities.
use gate_lens.Common.{
  String, true, false, List, [], ◌∷◌, ◌++◌, map, concat, ◌≡◌, ◌≢◌, refl, ◌==◌, ◌+++◌, has_prefix,
  eq_iff, Bool-cases, inl, inr, arith,
}
use gate_lens.Domain.Topology.{TopologyNode, TopologyEdge, ProbeEntry, Finding}
use gate_lens.Federation.Store.{ReceivedSnapshot}
use gate_lens.Federation.Ids.{global_id}
use gate_lens.Federation.Merge.{global_nodes, global_edges, global_entries, global_findings}

-- An identity of a cluster, and the same with the cluster in front, put there once.
pub data IsFederated (cluster id global : String) : Type 0 where
  nameless : id ≡ "" → global ≡ "" → IsFederated cluster id global
  owned : has_prefix id (cluster +++ "::") ≡ true → global ≡ id → IsFederated cluster id global
  local :
      id ≢ ""
      → has_prefix id (cluster +++ "::") ≡ false
      → global ≡ cluster +++ "::" +++ id
      → IsFederated cluster id global

global_id-IsFederated : (cluster id : String) → IsFederated cluster id (global_id cluster id)
unfolding global_id
global_id-IsFederated cluster id = elim (Bool-cases (id == "")) [
  | inl e ↦ let nothing = (eq_iff id "").0 e in nameless nothing (ground (arith, e, nothing))
  | inr e ↦ elim (Bool-cases (has_prefix id (cluster +++ "::"))) [
    | inl f ↦ owned f (ground (arith, e, f))
    | inr f ↦ local (ground (arith, e, eq_iff id "")) f (ground (arith, e, f))
  ]
]

-- Lists of items that correspond one to one, in order.
pub data AreFederated {A : Type 0} (R : A → A → Type 0) : List A → List A → Type 0 where
  no_items : AreFederated R [] []
  item :
      {xs ys : List A} (x y : A) → R x y → AreFederated R xs ys → AreFederated R (x ∷ xs) (y ∷ ys)

-- The items of the snapshots one behind the other, each those of its snapshot.
pub data AreMerged {A : Type 0} (R : String → A → A → Type 0) (items : ReceivedSnapshot → List A)
    : List ReceivedSnapshot → List A → Type 0 where
  no_snapshots : AreMerged R items [] []
  snapshot :
      {snapshots : List ReceivedSnapshot} {back : List A} (received : ReceivedSnapshot)
      (front : List A)
      → AreFederated (R received.payload.cluster.id) (items received) front
      → AreMerged R items snapshots back
      → AreMerged R items (received ∷ snapshots) (front ++ back)

map-AreFederated :
    {A : Type 0} (R : A → A → Type 0) (f : A → A) (xs : List A)
    → ((x : A) → R x (f x))
    → AreFederated R xs (map f xs)
map-AreFederated R f [] h = no_items
map-AreFederated R f (x ∷ xs) h = item x (f x) (h x) (map-AreFederated R f xs h)

concat-AreMerged :
    {A : Type 0} (R : String → A → A → Type 0) (items global : ReceivedSnapshot → List A)
    (snapshots : List ReceivedSnapshot)
    → ((received : ReceivedSnapshot)
        → AreFederated (R received.payload.cluster.id) (items received) (global received))
    → AreMerged R items snapshots (concat (map global snapshots))
concat-AreMerged R items global [] h = no_snapshots
concat-AreMerged R items global (received ∷ snapshots) h =
    snapshot received (global received) (h received) (concat-AreMerged R items global snapshots h)

-- A node, an edge, an entry and a finding of a cluster, and the same in the merged topology.
abbrev pub IsGlobalNode : String → TopologyNode → TopologyNode → Type 0
IsGlobalNode cluster node merged =
    IsFederated cluster node.id merged.id × (merged ≡ record node { id = merged.id })

abbrev pub IsGlobalEdge : String → TopologyEdge → TopologyEdge → Type 0
IsGlobalEdge cluster edge merged =
    IsFederated cluster edge.from merged.from
    × IsFederated cluster edge.to merged.to
    × (merged ≡ record edge { «from» = merged.from; to = merged.to })

abbrev pub IsGlobalEntry : String → ProbeEntry → ProbeEntry → Type 0
IsGlobalEntry cluster entry merged =
    IsFederated cluster entry.id merged.id
    × IsFederated cluster entry.gateway_id merged.gateway_id
    × (merged
        ≡ record entry { id = merged.id; gateway_id = merged.gateway_id; cluster_id = cluster })

abbrev pub IsGlobalFinding : String → Finding → Finding → Type 0
IsGlobalFinding cluster finding merged =
    (merged.id ≡ cluster +++ ":" +++ finding.id)
    × IsFederated cluster finding.target_id merged.target_id
    × (merged ≡ record finding { id = merged.id; target_id = merged.target_id })

pub nodes-AreMerged :
    (snapshots : List ReceivedSnapshot)
    → AreMerged IsGlobalNode
        (λ received. received.payload.topology.nodes)
        snapshots
        (concat (map global_nodes snapshots))
unfolding global_nodes
nodes-AreMerged snapshots =
    concat-AreMerged IsGlobalNode (λ received. received.payload.topology.nodes) global_nodes
      snapshots
      (λ received.
        map-AreFederated (IsGlobalNode received.payload.cluster.id) _
          received.payload.topology.nodes
          (λ node. (global_id-IsFederated received.payload.cluster.id node.id, refl)))

pub edges-AreMerged :
    (snapshots : List ReceivedSnapshot)
    → AreMerged IsGlobalEdge
        (λ received. received.payload.topology.edges)
        snapshots
        (concat (map global_edges snapshots))
unfolding global_edges
edges-AreMerged snapshots =
    concat-AreMerged IsGlobalEdge (λ received. received.payload.topology.edges) global_edges
      snapshots
      (λ received.
        map-AreFederated (IsGlobalEdge received.payload.cluster.id) _
          received.payload.topology.edges
          (λ edge. (
            global_id-IsFederated received.payload.cluster.id edge.from,
            global_id-IsFederated received.payload.cluster.id edge.to,
            refl,
          )))

pub entries-AreMerged :
    (snapshots : List ReceivedSnapshot)
    → AreMerged IsGlobalEntry
        (λ received. received.payload.topology.probe_entries)
        snapshots
        (concat (map global_entries snapshots))
unfolding global_entries
entries-AreMerged snapshots =
    concat-AreMerged IsGlobalEntry (λ received. received.payload.topology.probe_entries)
      global_entries snapshots
      (λ received.
        map-AreFederated (IsGlobalEntry received.payload.cluster.id) _
          received.payload.topology.probe_entries
          (λ entry. (
            global_id-IsFederated received.payload.cluster.id entry.id,
            global_id-IsFederated received.payload.cluster.id entry.gateway_id,
            refl,
          )))

pub findings-AreMerged :
    (snapshots : List ReceivedSnapshot)
    → AreMerged IsGlobalFinding
        (λ received. received.payload.findings)
        snapshots
        (concat (map global_findings snapshots))
unfolding global_findings
findings-AreMerged snapshots =
    concat-AreMerged IsGlobalFinding (λ received. received.payload.findings) global_findings
      snapshots
      (λ received.
        map-AreFederated (IsGlobalFinding received.payload.cluster.id) _ received.payload.findings
          (λ finding.
            (refl, global_id-IsFederated received.payload.cluster.id finding.target_id, refl)))
