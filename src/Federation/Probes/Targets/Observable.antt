-- ===== src/Federation/Probes/Targets/Observable.antt =====
-- What a target of a probe is.
use mathlib.Core.List.{Memᴰ}
use gate_lens.Common.{
  Option, String, true, false, List, [], ◌∷◌, ◌==◌, ◌≡◌, refl, sym, subst, ap, ◌∙◌, some,
  Option-cases, lookup, insert, lookup-insert, ◌≢◌, inl, inr, All, All-append, keep, contains,
  Bool-cases, arith, eq_iff, eq_refl, ◌&&◌, not, string_ltb,
}
use gate_lens.Domain.Topology.{Topology, TopologyNode}
use gate_lens.Federation.Owner.{or_zero, zero_node, node_at}
use gate_lens.Federation.Probes.{ProbeGatewayTarget}
use gate_lens.Federation.Associations.{index_by_id}
use gate_lens.Federation.Probes.Targets.{
  nodes_of, gateway_has_observable_runtime, discover_declared_probe_gateway_targets, is_observable,
  insert_gateway, other_gateways, plain_target, plain_targets, seen_ids,
  discover_probe_gateway_targets,
}
use gate_lens.Federation.Probes.Targets.Away.{IsAbout, IsOther, search_targets-IsOther}

-- A target of a probe from this gateway: an observable gateway of the topology, and another one.
pub record IsProbeTarget (topology : Topology) (source : String) (target : ProbeGatewayTarget)
    : Type 0 where
  pub other : target.global_id ≢ source
  pub gateway : TopologyNode
  pub listed : Memᴰ gateway topology.nodes
  pub named : gateway.id ≡ target.global_id
  pub observable : gateway_has_observable_runtime gateway ≡ true
  pub about : IsAbout gateway target

-- The nodes of an index are listed, and have the identities under which they stand.
abbrev AreIndexed : List TopologyNode → List (String × TopologyNode) → Type 0
AreIndexed all nodes =
    (id : String) (node : TopologyNode)
    → lookup id nodes ≡ some node
    → (node.id ≡ id) × Memᴰ node all

index_by_id-AreIndexed :
    (all : List TopologyNode) (nodes : List (String × TopologyNode)) (later : List TopologyNode)
    → ((node : TopologyNode) → Memᴰ node later → Memᴰ node all)
    → AreIndexed all nodes
    → AreIndexed all (index_by_id nodes later)
unfolding index_by_id
index_by_id-AreIndexed all nodes [] within h = h
index_by_id-AreIndexed all nodes (node ∷ later) within h =
    index_by_id-AreIndexed all (insert node.id node nodes) later
      (λ other listed. within other (Memᴰ.tail listed))
      (λ id found e. elim (Bool-cases (node.id == id)) [
        | inl f ↦
            let same : node ≡ found = ground (arith, lookup-insert node.id id node nodes) in
            (
              sym (ap (λ (n : TopologyNode). n.id) same) ∙ (eq_iff node.id id).0 f,
              subst (λ (n : TopologyNode). Memᴰ n all) same (within node (Memᴰ.head refl)),
            )
        | inr f ↦ h id found (ground (arith, lookup-insert node.id id node nodes))
      ])

observable-listed :
    (all : List TopologyNode) (nodes : List (String × TopologyNode)) (id : String)
    → AreIndexed all nodes
    → gateway_has_observable_runtime (node_at nodes id) ≡ true
    → ((node_at nodes id).id ≡ id) × Memᴰ (node_at nodes id) all
unfolding node_at gateway_has_observable_runtime
observable-listed all nodes id h e = elim (Option-cases (lookup id nodes)) [
  | inl f ↦
      let blank : gateway_has_observable_runtime zero_node ≡ true =
        subst (λ n. gateway_has_observable_runtime n ≡ true) (ap or_zero f) e in
      let clash : false ≡ true = blank in cc
  | inr (node, f) ↦
      let (named, listed) = h id node f in
      (
        ap (λ found. (or_zero found).id) f ∙ named,
        subst (λ (found : Option TopologyNode). Memᴰ (or_zero found) all) (sym f) listed,
      )
]

keep-IsProbeTarget :
    (topology : Topology) (source : String) (targets : List ProbeGatewayTarget)
    → All (λ target. IsOther topology source target) targets
    → All (IsProbeTarget topology source) (keep (λ target. is_observable topology target) targets)
unfolding is_observable lookup
keep-IsProbeTarget topology source [] h = tt
keep-IsProbeTarget topology source (target ∷ targets) ((other, about), h) =
    let rest = keep-IsProbeTarget topology source targets h in
    elim (Bool-cases (is_observable topology target)) [
      | inr e ↦ rw e rest
      | inl e ↦
          let (named, listed) =
            observable-listed topology.nodes (nodes_of topology) target.global_id
              (index_by_id-AreIndexed topology.nodes [] topology.nodes (λ node m. m)
                (λ id node f. absurd (ground (arith, f))))
              e in
          rw e (
            record {
              other = other;
              gateway = node_at (nodes_of topology) target.global_id;
              listed = listed;
              named = named;
              observable = e;
              about = about;
            },
            rest,
          )
    ]

-- A node of the topology that is observable and not seen.
abbrev IsFresh : Topology → String → TopologyNode → Type 0
IsFresh topology source node =
    (node.id ≢ source) × (gateway_has_observable_runtime node ≡ true) × Memᴰ node topology.nodes

All-insert_gateway :
    (topology : Topology) (P : TopologyNode → Type 0) (node : TopologyNode)
    (nodes : List TopologyNode)
    → P node
    → All P nodes
    → All P (insert_gateway topology node nodes)
unfolding insert_gateway
All-insert_gateway topology P node [] p h = (p, tt)
All-insert_gateway topology P node (x ∷ xs) p (q, h) = elim (Bool-cases (string_ltb x.id node.id)) [
  | inl e ↦ rw e (q, All-insert_gateway topology P node xs p h)
  | inr e ↦ rw e (p, (q, h))
]

other_gateways-IsFresh :
    (topology : Topology) (source : String) (seen : List String) (nodes : List TopologyNode)
    → contains seen source ≡ true
    → ((node : TopologyNode) → Memᴰ node nodes → Memᴰ node topology.nodes)
    → All (IsFresh topology source) (other_gateways topology seen nodes)
unfolding other_gateways
other_gateways-IsFresh topology source seen [] h within = tt
other_gateways-IsFresh topology source seen (node ∷ nodes) h within =
    let rest =
      other_gateways-IsFresh topology source seen nodes h
        (λ other listed. within other (Memᴰ.tail listed)) in
    elim (Bool-cases (gateway_has_observable_runtime node && not (contains seen node.id))) [
      | inr e ↦ rw (e, other_gateways) rest
      | inl e ↦
          rw (e, other_gateways)
            (All-insert_gateway topology (IsFresh topology source) node
              (other_gateways topology seen nodes)
              (
                (λ same.
                    let old = subst (λ (id : String). contains seen id ≡ true) (sym same) h in
                    ground arith),
                ground arith,
                within node (Memᴰ.head refl),
              )
              rest)
    ]

plain_targets-IsProbeTarget :
    (topology : Topology) (source : String) (gateways : List TopologyNode)
    → All (IsFresh topology source) gateways
    → All (IsProbeTarget topology source) (plain_targets topology gateways)
unfolding plain_target
plain_targets-IsProbeTarget topology source [] h = tt
plain_targets-IsProbeTarget topology source (gateway ∷ gateways) ((other, observable, listed), h) =
    (
      record {
        other = other;
        gateway = gateway;
        listed = listed;
        named = refl;
        observable = observable;
        about = (refl, refl, refl);
      },
      plain_targets-IsProbeTarget topology source gateways h,
    )

-- Every target of a probe, whether a link between clusters declares it or not, is a gateway of the
-- topology with an observable runtime, and not the gateway that is probed; its cluster, its local
-- identity and its name are those of the gateway.
pub discover_targets-IsProbeTarget :
    (topology : Topology) (source : String)
    → All (IsProbeTarget topology source) (discover_probe_gateway_targets topology source)
unfolding discover_probe_gateway_targets discover_declared_probe_gateway_targets
discover_targets-IsProbeTarget topology source =
    let found = discover_declared_probe_gateway_targets topology source in
    let declared = keep (λ target. is_observable topology target) found in
    let seen = source ∷ seen_ids topology declared in
    All-append (IsProbeTarget topology source) declared _
      (keep-IsProbeTarget topology source found (
        search_targets-IsOther topology source 4097 _ (source ∷ [])
          (record { seen = ground (arith, eq_refl source); others = tt })))
      (plain_targets-IsProbeTarget topology source (other_gateways topology seen topology.nodes) (
        other_gateways-IsFresh topology source seen topology.nodes (ground (arith, eq_refl source))
          (λ node listed. listed)))
