-- ===== src/Federation/Snapshots/Received.antt =====
-- What the store holds after a snapshot was received.
use gate_lens.Common.{
  ℕ, String, List, [], ◌∷◌, some, ◌≡◌, ◌≢◌, refl, sym, ap, ◌∙◌, subst, ◌⊎◌, inl, inr, ◌==◌, eq_iff,
  not, arith, Bool-cases, All, lookup, insert, lookup-insert, ok, >>=-eq-ok, Result-cases,
  refuse->>-eq-ok,
}
use gate_lens.Domain.Topology.{AgentSnapshot, TopologyNode}
use gate_lens.Federation.Store.{Store, ReceivedSnapshot}
use gate_lens.Federation.Snapshots.{
  cluster_of, or_default, name_cluster, claim_nodes, complete_payload, receive_snapshot,
  node_of_other_cluster,
}

abbrev pub IsOwned : String → List TopologyNode → Type 0
IsOwned cluster nodes = All (λ node. node.cluster_id ≡ cluster) nodes

claim_nodes-IsOwned :
    (cluster : String) (nodes claimed : List TopologyNode)
    → claim_nodes cluster nodes ≡ ok claimed
    → IsOwned cluster claimed
unfolding claim_nodes
claim_nodes-IsOwned cluster [] claimed h =
    let e : [] ≡ claimed = ground arith in subst (IsOwned cluster) e tt
claim_nodes-IsOwned cluster (node ∷ nodes) claimed h =
    let owner = or_default node.cluster_id cluster in
    let (own, h₁) =
      refuse->>-eq-ok (not (owner == cluster)) (node_of_other_cluster node.id owner) _ h in
    let (rest, claims, h₂) = >>=-eq-ok (claim_nodes cluster nodes) _ h₁ in
    let owned = claim_nodes-IsOwned cluster nodes rest claims in
    let e : record node { cluster_id = owner } ∷ rest ≡ claimed = ground arith in
    subst (IsOwned cluster) e (ground (arith, eq_iff owner cluster), owned)

-- Every stored snapshot is filed under its own cluster, which owns all its nodes and agrees with
-- the snapshot's context.
pub record IsFiled (cluster : String) (received : ReceivedSnapshot) : Type 0 where
  pub named : cluster ≢ ""
  pub same_cluster : received.payload.cluster.id ≡ cluster
  pub same_context :
      (received.payload.context.cluster.id ≡ "") ⊎ (received.payload.context.cluster.id ≡ cluster)
  pub owned : IsOwned cluster received.payload.topology.nodes

abbrev pub AreFiled : Store → Type 0
AreFiled s =
    (cluster : String) (received : ReceivedSnapshot)
    → lookup cluster s.snapshots ≡ some received
    → IsFiled cluster received

-- A value that was reported, or else its default.
abbrev pub IsDefaulted : String → String → String → Type 0
IsDefaulted reported fallback value =
    ((reported ≢ "") × (value ≡ reported)) ⊎ ((reported ≡ "") × (value ≡ fallback))

or_default-IsDefaulted :
    (reported fallback : String) → IsDefaulted reported fallback (or_default reported fallback)
unfolding or_default
or_default-IsDefaulted reported fallback = elim (Bool-cases (reported == "")) [
  | inl e ↦ inr ((eq_iff reported "").0 e, rw e refl)
  | inr e ↦ inl (ground (arith, e, eq_iff reported ""), rw e refl)
]

-- The same nodes, each of which named no cluster or this one before, and names this one now.
pub data AreClaimed (cluster : String) : List TopologyNode → List TopologyNode → Type 0 where
  no_nodes : AreClaimed cluster [] []
  claim :
      {nodes claimed : List TopologyNode} (node : TopologyNode)
      → (node.cluster_id ≡ "") ⊎ (node.cluster_id ≡ cluster)
      → AreClaimed cluster nodes claimed
      → AreClaimed cluster (node ∷ nodes) (record node { cluster_id = cluster } ∷ claimed)

claim_nodes-AreClaimed :
    (cluster : String) (nodes claimed : List TopologyNode)
    → claim_nodes cluster nodes ≡ ok claimed
    → AreClaimed cluster nodes claimed
unfolding claim_nodes
claim_nodes-AreClaimed cluster [] claimed h =
    let e : [] ≡ claimed = ground arith in subst (AreClaimed cluster []) e no_nodes
claim_nodes-AreClaimed cluster (node ∷ nodes) claimed h =
    let owner = or_default node.cluster_id cluster in
    let (own, h₁) =
      refuse->>-eq-ok (not (owner == cluster)) (node_of_other_cluster node.id owner) _ h in
    let (rest, claims, h₂) = >>=-eq-ok (claim_nodes cluster nodes) _ h₁ in
    let mine : owner ≡ cluster = ground (arith, eq_iff owner cluster) in
    let e : record node { cluster_id = owner } ∷ rest ≡ claimed = ground arith in
    let was : (node.cluster_id ≡ "") ⊎ (node.cluster_id ≡ cluster) =
      elim (or_default-IsDefaulted node.cluster_id cluster) [
        | inl (named, same) ↦ inr (sym same ∙ mine)
        | inr (nameless, same) ↦ inl nameless
      ] in
    subst (AreClaimed cluster (node ∷ nodes))
      (ap (λ (o : String). record node { cluster_id = o } ∷ rest) (sym mine) ∙ e)
      (claim node was (claim_nodes-AreClaimed cluster nodes rest claims))

-- What the server stores of an agent's snapshot: all of it, with the cluster filled in.
pub record IsStored (format_time : ℕ → String) (now : ℕ) (payload : AgentSnapshot)
    (received : ReceivedSnapshot) : Type 0 where
  pub at : received.received_at ≡ now
  pub nodes : AreClaimed (cluster_of payload) payload.topology.nodes received.payload.topology.nodes
  pub topology :
      received.payload.topology
      ≡ record (payload.topology) { nodes = received.payload.topology.nodes }
  pub context : received.payload.context ≡ payload.context
  pub findings : received.payload.findings ≡ payload.findings
  pub resources : received.payload.resources ≡ payload.resources
  pub sent_at : IsDefaulted payload.sent_at (format_time now) received.payload.sent_at
  pub name : IsDefaulted payload.cluster.name (cluster_of payload) received.payload.cluster.name
  pub connection :
      IsDefaulted payload.cluster.connection_state "connected"
        received.payload.cluster.connection_state
  pub environment : received.payload.cluster.environment ≡ payload.cluster.environment
  pub version : received.payload.cluster.version ≡ payload.cluster.version
  pub namespaces : received.payload.cluster.namespaces ≡ payload.cluster.namespaces
  pub snapshot :
      ((payload.cluster.snapshot.id ≢ "")
        × (received.payload.cluster.snapshot ≡ payload.cluster.snapshot))
      ⊎ ((payload.cluster.snapshot.id ≡ "")
          × (received.payload.cluster.snapshot ≡ payload.context.snapshot))

-- The store `t` after the payload was received at `now` is `s` with the payload's snapshot.
abbrev Received : (ℕ → String) → Store → AgentSnapshot → ℕ → Store → Type 0
Received format_time s payload now t =
    AreFiled t
    × ((received : ReceivedSnapshot) × IsStored format_time now payload received
        × (t ≡ record s { snapshots = insert (cluster_of payload) received s.snapshots }))

module _ (format_time : ℕ → String) where
  receive_parts :
      (s t : Store) (now : ℕ) (payload : AgentSnapshot)
      → receive_snapshot format_time s now payload ≡ ok t
      → let cluster = cluster_of payload in
        (cluster ≢ "")
        × ((payload.context.cluster.id ≡ "") ⊎ (payload.context.cluster.id ≡ cluster))
        × ((nodes : List TopologyNode) × (claim_nodes cluster payload.topology.nodes ≡ ok nodes)
            × (record s {
              snapshots =
                  insert cluster
                    (record {
                      payload = complete_payload format_time payload cluster nodes now;
                      received_at = now;
                    })
                    s.snapshots;
            }
                ≡ t))
  unfolding receive_snapshot
  receive_parts s t now payload h =
      let cluster = cluster_of payload in
      elim (Result-cases (claim_nodes cluster payload.topology.nodes)) [
        | inl (nodes, claimed) ↦ (
          ground (arith, eq_iff cluster ""),
          ground (
            arith,
            eq_iff payload.context.cluster.id "",
            eq_iff payload.context.cluster.id cluster,
          ),
          (nodes, claimed, ground arith),
        )
        | inr (e, failed) ↦ absurd (ground arith)
      ]

  complete_payload-IsFiled :
      (payload : AgentSnapshot) (cluster : String) (nodes : List TopologyNode) (now : ℕ)
      → cluster ≢ ""
      → (payload.context.cluster.id ≡ "") ⊎ (payload.context.cluster.id ≡ cluster)
      → claim_nodes cluster payload.topology.nodes ≡ ok nodes
      → IsFiled cluster (record {
        payload = complete_payload format_time payload cluster nodes now;
        received_at = now;
      })
  unfolding complete_payload name_cluster
  complete_payload-IsFiled payload cluster nodes now named context claimed = record {
    named = named;
    same_cluster = refl;
    same_context = context;
    owned = claim_nodes-IsOwned cluster payload.topology.nodes nodes claimed;
  }

  complete_payload-IsStored :
      (payload : AgentSnapshot) (nodes : List TopologyNode) (now : ℕ)
      → claim_nodes (cluster_of payload) payload.topology.nodes ≡ ok nodes
      → IsStored format_time now payload (record {
        payload = complete_payload format_time payload (cluster_of payload) nodes now;
        received_at = now;
      })
  unfolding complete_payload name_cluster
  complete_payload-IsStored payload nodes now claimed = record {
    at = refl;
    nodes = claim_nodes-AreClaimed (cluster_of payload) payload.topology.nodes nodes claimed;
    topology = refl;
    context = refl;
    findings = refl;
    resources = refl;
    sent_at = or_default-IsDefaulted payload.sent_at (format_time now);
    name = or_default-IsDefaulted payload.cluster.name (cluster_of payload);
    connection = or_default-IsDefaulted payload.cluster.connection_state "connected";
    environment = refl;
    version = refl;
    namespaces = refl;
    snapshot = elim (Bool-cases (payload.cluster.snapshot.id == "")) [
      | inl e ↦ inr ((eq_iff payload.cluster.snapshot.id "").0 e, rw e refl)
      | inr e ↦ inl (ground (arith, e, eq_iff payload.cluster.snapshot.id ""), rw e refl)
    ];
  }

  -- If every stored snapshot is filed under its own cluster, which owns its nodes, this still holds
  -- once a snapshot was received. The store is then as it was, but has for that cluster a snapshot
  -- with the time of receipt and all that the agent reported: the same topology, whose nodes now name
  -- the cluster, and named none or this one before, the same context, findings and resources, and
  -- the same cluster, whose name, connection state and snapshot have their defaults where the agent
  -- left them empty, as has the time of sending.
  pub receive_snapshot-AreFiled :
      (s t : Store) (now : ℕ) (payload : AgentSnapshot)
      → AreFiled s
      → receive_snapshot format_time s now payload ≡ ok t
      → AreFiled t
        × ((received : ReceivedSnapshot) × IsStored format_time now payload received
            × (t ≡ record s { snapshots = insert (cluster_of payload) received s.snapshots }))
  receive_snapshot-AreFiled s t now payload filed h =
      let cluster = cluster_of payload in
      let (named, context, (nodes, claimed, same)) = receive_parts s t now payload h in
      let stored : ReceivedSnapshot = record {
        payload = complete_payload format_time payload cluster nodes now;
        received_at = now;
      } in
      subst (Received format_time s payload now) same (
        (λ other received found. elim (Bool-cases (cluster == other)) [
          | inl mine ↦
              let this : stored ≡ received =
                ground (arith, lookup-insert cluster other stored s.snapshots) in
              subst (λ k. IsFiled k received) ((eq_iff _ _).0 mine)
                (subst (IsFiled cluster) this
                  (complete_payload-IsFiled payload cluster nodes now named context claimed))
          | inr others ↦
              filed other received (ground (arith, lookup-insert cluster other stored s.snapshots))
        ]),
        (stored, complete_payload-IsStored payload nodes now claimed, refl),
      )
