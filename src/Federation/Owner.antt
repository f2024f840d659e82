-- ===== src/Federation/Owner.antt =====
-- The gateway that owns a node, found against the direction of the edges: owningGateway of
-- internal/federation/store.go. The maps of nodes and of reversed edges are given by the entries and
-- by the edges in their order.
pub mod Found
mod Examples
use gate_lens.Common.{
  ℕ, zero, suc, String, Bool, true, false, List, [], ◌∷◌, ◌++◌, Option, none, some, ◌⊎◌, inl, inr,
  ◌==◌, ◌&&◌, not, leb, length, keep, contains, if◌then◌else◌, lookup,
}
use gate_lens.Domain.Values.{topology_node_kind_gateway}
use gate_lens.Domain.Topology.{TopologyNode, TopologyEdge}

-- What a Go map yields for a missing key.
abbrev pub zero_node : TopologyNode
zero_node = record {
  id = "";
  name = "";
  kind = "";
  namespace = "";
  cluster_id = "";
  status = "";
  status_text = "";
  summary = "";
  conditions = [];
  source = "";
  workload_scope = "";
}

abbrev pub or_zero : Option TopologyNode → TopologyNode
or_zero none = zero_node
or_zero (some node) = node

-- `nodes[id]`
unfoldable pub node_at : List (String × TopologyNode) → String → TopologyNode
node_at nodes id = or_zero (lookup id nodes)

-- `reverse[id]`
abbrev pub into : List TopologyEdge → String → List TopologyEdge
into edges id = keep (λ (edge : TopologyEdge). edge.to == id) edges

abbrev pub is_owner : String → TopologyNode → Bool
is_owner home candidate =
    candidate.kind == topology_node_kind_gateway && candidate.cluster_id == home

abbrev pub is_new : String → List String → TopologyNode → Bool
is_new home visited candidate = candidate.cluster_id == home && not (contains visited candidate.id)

-- The loop over the edges: the owner, or the variables `visited` and `queue` after it.
pub scan :
    List (String × TopologyNode)
    → String
    → List String
    → List String
    → List TopologyEdge
    → String ⊎ (List String × List String)
scan nodes home visited queue [] = inr (visited, queue)
scan nodes home visited queue (edge ∷ edges) =
    let candidate = node_at nodes edge.from in
    let grow = is_new home visited candidate in
    let later =
      scan nodes home (if grow then candidate.id ∷ visited else visited)
        (if grow then queue ++ candidate.id ∷ [] else queue) edges in
    if is_owner home candidate then inl candidate.id else later

-- The loop over the queue, for so many rounds.
pub search :
    ℕ
    → List (String × TopologyNode)
    → List TopologyEdge
    → String
    → List String
    → List String
    → String
search zero nodes edges home visited queue = ""
search (suc rounds) nodes edges home visited [] = ""
search (suc rounds) nodes edges home visited (current ∷ queue) =
    if leb (length visited) 128
    then (elim (scan nodes home visited queue (into edges current)) [
      | inl owner ↦ owner
      | inr (more, next) ↦ search rounds nodes edges home more next
    ])
    else ""

pub owning_gateway_in : ℕ → List (String × TopologyNode) → List TopologyEdge → String → String
unfolding search
owning_gateway_in rounds nodes edges id =
    if (node_at nodes id).kind == topology_node_kind_gateway
    then id
    else search rounds nodes edges (node_at nodes id).cluster_id (id ∷ []) (id ∷ [])

pub owning_gateway : List (String × TopologyNode) → List TopologyEdge → String → String
owning_gateway nodes edges id = owning_gateway_in 129 nodes edges id
