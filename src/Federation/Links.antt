-- ===== src/Federation/Links.antt =====
-- Links between clusters, discovered from configuration: internal/federation/link_rules.go and the
-- helpers of internal/federation/store.go.
pub mod Keys
pub mod Matches
pub mod Discovered
mod Examples
use gate_lens.Common.{
  ℕ, String, Bool, true, false, List, [], ◌∷◌, ◌++◌, Option, none, some, ◌==◌, ◌&&◌, ◌||◌, not, any,
  find, is_empty, length, ltb, nat_eq, contains, head?, if◌then◌else◌, ◌+++◌, after_prefix, lookup,
  insert,
}
use gate_lens.Domain.Values.{
  topology_node_kind_gateway, topology_node_kind_listener, topology_node_kind_ingress,
  topology_node_kind_service, topology_node_kind_registry, topology_node_kind_transit_hop,
  status_warning,
}
use gate_lens.Domain.Topology.{TopologyNode, TopologyEdge, Finding}
use gate_lens.Observed.Values.{decimal}

pub record LinkCandidate : Type 0 where
  pub node : TopologyNode
  pub keys : List String
  pub rank : ℕ
  pub evidence : String

pub record LinkTargetMatch : Type 0 where
  pub target : LinkCandidate
  pub key : String

pub record LinkRuleResult : Type 0 where
  pub matches : List LinkTargetMatch
  pub transport : String
  pub evidence : String

pub record LinkRuleContext : Type 0 where
  pub nodes_by_id : List (String × TopologyNode)
  pub edges : List TopologyEdge
  pub entries : List LinkCandidate

-- A rule with its name; `none` says that the candidate is not its own.
pub record LinkRule : Type 0 where
  pub name : String
  pub match : LinkCandidate → LinkRuleContext → Option LinkRuleResult

-- The inner loop of valuesWithPrefixes over the prefixes.
pub strip_prefixes : String → List String → List String
strip_prefixes value [] = []
strip_prefixes value (prefix ∷ prefixes) = elim (after_prefix prefix value) [
  | none ↦ strip_prefixes value prefixes
  | some rest ↦ rest ∷ strip_prefixes value prefixes
]

pub values_with_prefixes : List String → List String → List String
values_with_prefixes [] prefixes = []
values_with_prefixes (value ∷ values) prefixes =
    strip_prefixes value prefixes ++ values_with_prefixes values prefixes

pub transport_of : TopologyNode → String
transport_of node =
    elim (head? (values_with_prefixes node.conditions ("Transport=" ∷ "Protocol=" ∷ []))) [
      | none ↦ "unknown"
      | some value ↦ value
    ]

-- The first of the right keys that is a left key.
unfoldable pub intersect : List String → List String → Option String
intersect left right = find (λ value. contains left value) right

unfoldable pub edge_exists : List TopologyEdge → String → String → Bool
edge_exists edges «from» to =
    any (λ (edge : TopologyEdge). edge.from == «from» && edge.to == to) edges

pub node_location : TopologyNode → String
node_location node =
    node.cluster_id
    +++ "/"
    +++ (if node.namespace == "" then "" else node.namespace +++ "/")
    +++ node.name

pub entry_evidence : TopologyNode → String
entry_evidence node =
    node.kind
    +++ " "
    +++ node_location node
    +++ (if node.source == "" then "" else " (" +++ node.source +++ ")")

-- The test of the loop in bestEntryMatches that skips an entry.
unfoldable pub is_skipped : LinkCandidate → LinkRuleContext → LinkCandidate → Bool
is_skipped candidate context to =
    candidate.node.cluster_id == to.node.cluster_id
    || edge_exists context.edges candidate.node.id to.node.id

-- The key by which an entry matches, if it is not skipped.
unfoldable pub match_key : LinkCandidate → LinkRuleContext → LinkCandidate → Option String
match_key candidate context to =
    if is_skipped candidate context to then none else intersect candidate.keys to.keys

-- The loop of bestEntryMatches, with its variables `bestRank` and `matches`.
unfoldable pub best_from :
    LinkCandidate
    → LinkRuleContext
    → ℕ
    → List LinkTargetMatch
    → List LinkCandidate
    → List LinkTargetMatch
best_from candidate context best matches [] = matches
best_from candidate context best matches (to ∷ entries) = elim (match_key candidate context to) [
  | none ↦ best_from candidate context best matches entries
  | some key ↦
      best_from candidate context (if ltb to.rank best then to.rank else best)
        (if ltb to.rank best
          then record { target = to; key = key } ∷ []
          else if nat_eq to.rank best
          then matches ++ record { target = to; key = key } ∷ []
          else matches)
        entries
]

pub best_entry_matches : LinkCandidate → LinkRuleContext → List LinkTargetMatch
best_entry_matches candidate context = best_from candidate context 99 [] context.entries

-- The edge's source, if it is an Ingress of the registry's cluster.
pub selecting_node : TopologyNode → LinkRuleContext → TopologyEdge → Option TopologyNode
selecting_node registry context edge =
    if not (edge.to == registry.id) || not (edge.relation == "selects")
    then none
    else (elim (lookup edge.from context.nodes_by_id) [
      | none ↦ none
      | some node ↦
          if node.kind == topology_node_kind_ingress && node.cluster_id == registry.cluster_id
          then some node
          else none
    ])

pub select_from : TopologyNode → LinkRuleContext → List TopologyEdge → Option TopologyNode
select_from registry context [] = none
select_from registry context (edge ∷ edges) = elim (selecting_node registry context edge) [
  | none ↦ select_from registry context edges
  | some node ↦ some node
]

pub ingress_selecting_registry : TopologyNode → LinkRuleContext → Option TopologyNode
ingress_selecting_registry registry context = select_from registry context context.edges

abbrev pub or_transport : Option String → String → String
or_transport none transport = transport
or_transport (some value) transport = value

pub match_higress_mcp_bridge : LinkCandidate → LinkRuleContext → Option LinkRuleResult
match_higress_mcp_bridge candidate context =
    let node = candidate.node in
    let matches = best_entry_matches candidate context in
    let declared =
      "auto-discovered by higress-mcpbridge rule: McpBridge registry "
      +++ node_location node
      +++ " declared upstream" in
    if not (node.kind == topology_node_kind_registry)
      || not (node.source == "McpBridge.spec.registries")
    then none
    else some (elim (ingress_selecting_registry node context) [
      | none ↦ record { matches = matches; transport = transport_of node; evidence = declared }
      | some ingress ↦ record {
        matches = matches;
        transport =
            or_transport
              (head?
                (values_with_prefixes ingress.conditions ("higress.io/backend-protocol=" ∷ [])))
              (transport_of node);
        evidence =
            declared
            +++ "; Ingress "
            +++ node_location ingress
            +++ " selected registry "
            +++ node.name;
      }
    ])

pub match_exact_configuration : LinkCandidate → LinkRuleContext → Option LinkRuleResult
match_exact_configuration candidate context = some (record {
  matches = best_entry_matches candidate context;
  transport = transport_of candidate.node;
  evidence = "auto-discovered from configuration";
})

abbrev pub default_link_rules : List LinkRule
default_link_rules =
    record { name = "higress-mcpbridge"; match = match_higress_mcp_bridge }
    ∷ record { name = "exact-configuration-address"; match = match_exact_configuration }
    ∷ []

-- The edge of a unique match.
pub link_to : LinkCandidate → LinkRuleResult → LinkTargetMatch → TopologyEdge
link_to candidate result match =
    let to = match.target.node in
    record {
      «from» = candidate.node.id;
      to = to.id;
      relation = "cross-cluster";
      transport = result.transport;
      destination = to.cluster_id +++ "/" +++ to.namespace +++ "/" +++ to.name;
      state = "resolved";
      evidence =
          result.evidence +++ ": target " +++ match.key +++ " matched " +++ match.target.evidence;
    }

pub ambiguous_finding : LinkCandidate → String → ℕ → Finding
ambiguous_finding candidate rule count = record {
  id = "ambiguous-cluster-link:" +++ candidate.node.id;
  severity = status_warning;
  title = "Cross-cluster target is ambiguous";
  resource = candidate.node.cluster_id +++ "/" +++ candidate.node.name;
  basis = rule +++ " matched " +++ decimal count +++ " remote entries";
  target_id = candidate.node.id;
}

-- What a handled candidate adds to `links` and to `findings`.
pub report :
    LinkCandidate
    → String
    → LinkRuleResult
    → List LinkTargetMatch
    → List TopologyEdge × List Finding
report candidate rule result [] = ([], [])
report candidate rule result (match ∷ []) = (link_to candidate result match ∷ [], [])
report candidate rule result (match ∷ other ∷ matches) =
    ([], ambiguous_finding candidate rule (length (match ∷ other ∷ matches)) ∷ [])

-- The loop over the rules: the first that handles the candidate ends it.
pub apply_rules : LinkCandidate → LinkRuleContext → List LinkRule → List TopologyEdge × List Finding
apply_rules candidate context [] = ([], [])
apply_rules candidate context (rule ∷ rules) = elim (rule.match candidate context) [
  | none ↦ apply_rules candidate context rules
  | some result ↦ report candidate rule.name result result.matches
]

pub link_candidates :
    List LinkCandidate → LinkRuleContext → List LinkRule → List TopologyEdge × List Finding
link_candidates [] context rules = ([], [])
link_candidates (candidate ∷ candidates) context rules =
    let (links, findings) = apply_rules candidate context rules in
    let (more_links, more_findings) = link_candidates candidates context rules in
    (links ++ more_links, findings ++ more_findings)
