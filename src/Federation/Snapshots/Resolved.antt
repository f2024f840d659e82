-- ===== src/Federation/Snapshots/Resolved.antt =====
-- Which gateways and probe entries a request can name.
use mathlib.Core.List.{Memᴰ}
use gate_lens.Common.{
  String, Bool, true, List, [], ◌∷◌, none, some, ◌≡◌, ◌≢◌, sym, ◌∙◌, ap, subst, ◌⊎◌, inl, inr,
  eq_iff, arith, Bool-cases, Option-cases, Result-cases, find, trim_space, cut, if◌then◌else◌, All,
  lookup, ok,
}
use gate_lens.Domain.Values.{is_valid_probe_scheme}
use gate_lens.Domain.Topology.{ProbeEntry}
use gate_lens.Federation.Store.{Store, ReceivedSnapshot}
use gate_lens.Federation.Snapshots.{
  snapshot_has_gateway, is_entry, find_owner, resolve_gateway, strip_owner, resolve_probe_entry,
}

find_sound {ℓ} :
    {A : Type ℓ} (p : A → Bool) (xs : List A) (x : A)
    → find p xs ≡ some x
    → Memᴰ x xs × (p x ≡ true)
find_sound p [] x h = cc
find_sound p (y ∷ ys) x h = elim (Bool-cases (p y)) [
  | inl hit ↦
      let same : y ≡ x = ground arith in (Memᴰ.head (sym same), subst (λ z. p z ≡ true) same hit)
  | inr miss ↦ let (listed, passed) = find_sound p ys x (ground arith) in (Memᴰ.tail listed, passed)
]

-- What is asked for in a cluster, itself or behind the cluster's own prefix, is this local identity.
pub data IsAsked (cluster asked local : String) : Type 0 where
  plain : cut asked "::" ≡ none → local ≡ asked → IsAsked cluster asked local
  prefixed : cut asked "::" ≡ some (cluster, local) → IsAsked cluster asked local

strip_owner-IsAsked :
    (cluster asked local : String)
    → strip_owner cluster asked ≡ ok local
    → IsAsked cluster asked local
unfolding strip_owner
strip_owner-IsAsked cluster asked local h = elim (Option-cases (cut asked "::")) [
  | inl none_cut ↦ plain none_cut (ground arith)
  | inr ((owner, rest), parts) ↦
      let own : owner ≡ cluster = ground (arith, eq_iff owner cluster) in
      let same : rest ≡ local = ground arith in
      prefixed (
        parts
        ∙ ap (λ (o : String). some (o, rest)) own
        ∙ ap (λ (l : String). some (cluster, l)) same)
]

-- A probe entry that a request may use.
pub record IsResolved (s : Store) (cluster_id gateway_id entry_id cluster gateway : String)
    (entry : ProbeEntry) : Type 0 where
  pub asked_cluster : cluster ≡ trim_space cluster_id
  pub asked_gateway : IsAsked cluster (trim_space gateway_id) gateway
  pub asked_entry : IsAsked cluster (trim_space entry_id) entry.id
  pub received : ReceivedSnapshot
  pub registered : lookup cluster s.snapshots ≡ some received
  pub has_gateway : snapshot_has_gateway received.payload gateway ≡ true
  pub listed : Memᴰ entry received.payload.topology.probe_entries
  pub belongs : entry.gateway_id ≡ gateway
  pub scheme : is_valid_probe_scheme entry.scheme ≡ true

-- A probe entry is resolved only in the registered cluster that was asked for, for the gateway that
-- was asked for, which the cluster's snapshot has, and to the entry that was asked for: one of that
-- snapshot, which belongs to the gateway and has the scheme http or https. The gateway and the entry
-- are asked for by their local identity, or behind the prefix of that very cluster.
pub resolve_probe_entry_sound :
    (s : Store) (cluster_id gateway_id entry_id cluster gateway : String) (entry : ProbeEntry)
    → resolve_probe_entry s cluster_id gateway_id entry_id ≡ ok (cluster, gateway, entry)
    → IsResolved s cluster_id gateway_id entry_id cluster gateway entry
unfolding resolve_probe_entry
resolve_probe_entry_sound s cluster_id gateway_id entry_id cluster gateway entry h =
    let home = trim_space cluster_id in
    elim (Result-cases (strip_owner home (trim_space gateway_id))) [
      | inr (e, failed) ↦ absurd (ground arith)
      | inl (g, own) ↦ elim (Result-cases (strip_owner home (trim_space entry_id))) [
        | inr (e, failed) ↦ absurd (ground arith)
        | inl (id, own_entry) ↦ elim (Option-cases (lookup home s.snapshots)) [
          | inl missing ↦ absurd (ground arith)
          | inr (received, found) ↦
              elim (Option-cases (find (is_entry id g) received.payload.topology.probe_entries)) [
                | inl missing ↦ absurd (ground arith)
                | inr (x, hit) ↦
                    let (listed, match) =
                      find_sound (is_entry id g) received.payload.topology.probe_entries x hit in
                    let same_home : home ≡ cluster = ground arith in
                    let same_gateway : g ≡ gateway = ground arith in
                    let same : x ≡ entry = ground arith in
                    let named : id ≡ entry.id = ground (arith, eq_iff x.id id) in
                    record {
                      asked_cluster = sym same_home;
                      asked_gateway =
                          subst (λ (c : String). IsAsked c (trim_space gateway_id) gateway)
                            same_home
                            (subst (λ (l : String). IsAsked home (trim_space gateway_id) l)
                              same_gateway
                              (strip_owner-IsAsked home (trim_space gateway_id) g own));
                      asked_entry =
                          subst (λ (c : String). IsAsked c (trim_space entry_id) entry.id) same_home
                            (subst (λ (l : String). IsAsked home (trim_space entry_id) l) named
                              (strip_owner-IsAsked home (trim_space entry_id) id own_entry));
                      received = received;
                      registered =
                          ap (λ (k : String). lookup k s.snapshots) (sym same_home) ∙ found;
                      has_gateway = ground arith;
                      listed =
                          subst (λ (y : ProbeEntry). Memᴰ y received.payload.topology.probe_entries)
                            same listed;
                      belongs = ground (arith, eq_iff x.gateway_id g);
                      scheme = ground arith;
                    }
              ]
        ]
      ]
    ]

-- The clusters whose snapshot has the gateway.
abbrev pub owners : String → List (String × ReceivedSnapshot) → List String
owners id [] = []
owners id ((cluster, received) ∷ snapshots) =
    if snapshot_has_gateway received.payload id
    then cluster ∷ owners id snapshots
    else owners id snapshots

find_owner-taken :
    (id owner result : String) (snapshots : List (String × ReceivedSnapshot))
    → owner ≢ ""
    → find_owner id owner snapshots ≡ ok result
    → (owners id snapshots ≡ []) × (owner ≡ result)
unfolding find_owner
find_owner-taken id owner result [] named h = ground (arith, eq_iff owner "")
find_owner-taken id owner result ((cluster, received) ∷ snapshots) named h =
    ground (arith, eq_iff owner "", find_owner-taken id owner result snapshots named)

abbrev pub AreNamed : List (String × ReceivedSnapshot) → Type 0
AreNamed snapshots = All (λ entry. entry.0 ≢ "") snapshots

find_owner-single :
    (id result : String) (snapshots : List (String × ReceivedSnapshot))
    → AreNamed snapshots
    → find_owner id "" snapshots ≡ ok result
    → owners id snapshots ≡ result ∷ []
unfolding find_owner
find_owner-single id result [] named h = cc
find_owner-single id result ((cluster, received) ∷ snapshots) (named, rest) h = ground (
  arith,
  find_owner-taken id cluster result snapshots named,
  find_owner-single id result snapshots rest,
)

-- A gateway is resolved to a registered cluster whose snapshot has it. A federated identity names
-- the cluster; for a local identity the cluster is the only one whose snapshot has that gateway.
-- The condition is that no snapshot is stored under an empty cluster.
pub resolve_gateway_sound :
    (s : Store) (asked cluster local : String)
    → AreNamed s.snapshots
    → resolve_gateway s asked ≡ ok (cluster, local)
    → ((cut (trim_space asked) "::" ≡ some (cluster, local))
        × ((received : ReceivedSnapshot) × (lookup cluster s.snapshots ≡ some received)
            × (snapshot_has_gateway received.payload local ≡ true)))
      ⊎ ((cut (trim_space asked) "::" ≡ none)
          × (local ≡ trim_space asked)
          × (owners local s.snapshots ≡ cluster ∷ []))
unfolding resolve_gateway
resolve_gateway_sound s asked cluster local named h =
    let id = trim_space asked in
    elim (Option-cases (cut id "::")) [
      | inl whole ↦ elim (Result-cases (find_owner id "" s.snapshots)) [
        | inr (e, failed) ↦ absurd (ground arith)
        | inl (owner, found) ↦
            let only = find_owner-single id owner s.snapshots named found in
            let same : id ≡ local = ground arith in
            inr (
              whole,
              sym same,
              ap (λ (k : String). owners k s.snapshots) (sym same) ∙ (only ∙ ground arith),
            )
      ]
      | inr ((c, l), parts) ↦ elim (Option-cases (lookup c s.snapshots)) [
        | inl missing ↦ absurd (ground arith)
        | inr (received, found) ↦
            let same_cluster : c ≡ cluster = ground arith in
            let same_local : l ≡ local = ground arith in
            inl (
              ground arith,
              (
                received,
                ap (λ (k : String). lookup k s.snapshots) (sym same_cluster) ∙ found,
                ground arith,
              ),
            )
      ]
    ]
