-- ===== src/Federation/Associations/Rules.antt =====
-- The rules: their infer methods in internal/federation/probe_association_rules.go, with the tests
-- on a target's addresses, services and aliases of internal/federation/store.go.
pub mod Inferred
mod Examples
use gate_lens.Common.{
  ℕ, zero, suc, ◌+◌, String, ℤ, Bool, true, false, List, [], ◌∷◌, ◌++◌, map, Option, none, some,
  ◌==◌, ◌&&◌, ◌||◌, not, any, all, keep, concat, head?, length, is_empty, is_some, contains, ltb,
  if◌then◌else◌, ◌+++◌, trim_space, trim_suffix, has_suffix, has_prefix, after_prefix, cut, lookup,
  insert,
}
use gate_lens.Domain.Values.{
  ProbeInferenceConfidence, probe_inference_confidence_high, probe_inference_confidence_medium,
  probe_inference_confidence_low, probe_inference_confidence_ambiguous, topology_node_kind_registry,
  topology_node_kind_service, topology_node_kind_gateway,
}
use gate_lens.Domain.Hop.{ObservedHop}
use gate_lens.Domain.Topology.{Topology, TopologyNode, TopologyEdge, ProbeEntry}
use gate_lens.Observed.Values.{decimal}
use gate_lens.Federation.Owner.{node_at}
use gate_lens.Federation.Links.{values_with_prefixes}
use gate_lens.Federation.Probes.{ProbeGatewayTarget}
use gate_lens.Federation.Associations.Hosts.{
  HostLibrary, normalized_upstream_host, upstream_cluster_tokens,
}
use gate_lens.Federation.Associations.{
  Match, Association, Ranked, AssociationContext, entries_of, node_of, forward_edges, owned_nodes,
  strength_host, strength_cluster, strength_declared,
}
use gate_lens.Federation.Associations.Ranking.{offers_of_rule, rank_all}

-- The targets that pass a test, as matches.
pub matching : (ProbeGatewayTarget → Option String) → List ProbeGatewayTarget → List Match
matching basis [] = []
matching basis (target ∷ targets) =
    let rest = matching basis targets in
    elim (basis target) [
      | none ↦ rest
      | some text ↦ record { gateway_id = target.global_id; basis = text } ∷ rest
    ]

abbrev pub basis_if : Bool → String → Option String
basis_if test basis = if test then some basis else none

abbrev pub condition_values : String → List String → List String
condition_values prefix conditions = values_with_prefixes conditions (prefix ∷ [])

-- The keys of gatewayTargetServiceKeys.
pub entry_services : ProbeGatewayTarget → List ProbeEntry → List String
entry_services target [] = []
entry_services target (entry ∷ entries) =
    let rest = entry_services target entries in
    let cluster = if entry.cluster_id == "" then target.cluster_id else entry.cluster_id in
    if not (entry.namespace == "") && not (entry.service_name == "")
    then (cluster +++ "::" +++ entry.namespace +++ "/" +++ entry.service_name) ∷ rest
    else rest

pub condition_services : String → List String → List String
condition_services cluster [] = []
condition_services cluster (condition ∷ conditions) =
    let rest = condition_services cluster conditions in
    elim (after_prefix "Service=" condition) [
      | none ↦ rest
      | some service ↦
          if is_some (cut service "/") then (cluster +++ "::" +++ service) ∷ rest else rest
    ]

pub gateway_target_service_keys : ProbeGatewayTarget → List ProbeEntry → TopologyNode → List String
gateway_target_service_keys target entries gateway =
    entry_services target entries ++ condition_services target.cluster_id gateway.conditions

pub is_observed : AssociationContext → String → Bool
is_observed context gateway = elim (lookup gateway context.observed_gateway_ids) [
  | none ↦ false
  | some seen ↦ seen
]

abbrev pub registry_basis : String → Option String → Option String
registry_basis cluster none = none
registry_basis cluster (some registry) = some (
    "上一跳 upstream_cluster " +++ cluster +++ " 命中 McpBridge registry " +++ registry
    +++ "，并解析到该网关的入口 Service")

-- A registry's service: its key and the registry's text.
pub services_of : AssociationContext → String → List TopologyEdge → List (String × String)
services_of context registry [] = []
services_of context registry (edge ∷ edges) =
    let rest = services_of context registry edges in
    let service = node_of context edge.to in
    if edge.relation == "resolves" && service.kind == topology_node_kind_service
    then (service.cluster_id +++ "::" +++ service.namespace +++ "/" +++ service.name, registry)
      ∷ rest
    else rest

-- The registry of the first resolved service that is among these keys.
pub first_registry : List String → List (String × String) → Option String
first_registry keys [] = none
first_registry keys ((key, registry) ∷ services) =
    let later = first_registry keys services in if contains keys key then some registry else later

-- The loop of the rule on declared targets.
pub declared : AssociationContext → List ProbeGatewayTarget → List Association
declared context [] = []
declared context (target ∷ targets) =
    let rest = declared context targets in
    let destination =
      if trim_space target.destination == ""
      then target.gateway_name
      else trim_space target.destination in
    if target.declared && is_observed context target.predecessor_gateway_id
    then record {
      matches =
          record {
            gateway_id = target.global_id;
            basis = "配置拓扑从已观测网关指向 " +++ destination +++ "；未获得该网关的运行时日志";
          }
          ∷ [];
      confidence = probe_inference_confidence_low;
      strength = strength_declared;
      ambiguous_basis = "";
    }
      ∷ rest
    else rest

module _ (lib : HostLibrary) where
  pub gateway_target_matches_address : List ProbeEntry → TopologyNode → String → Bool
  gateway_target_matches_address entries gateway host =
      any
        (λ (entry : ProbeEntry).
          any (λ address. normalized_upstream_host lib address == host) entry.addresses)
        entries
      || any
          (λ condition. elim (after_prefix "Address=" condition) [
            | none ↦ false
            | some address ↦ normalized_upstream_host lib address == host
          ])
          gateway.conditions

  pub entry_aliases : ProbeEntry → List String
  entry_aliases entry =
      lib.to_lower (trim_suffix entry.dns_name ".")
        ∷ map (λ address. normalized_upstream_host lib address) entry.addresses
      ++ (if not (entry.service_name == "") && not (entry.namespace == "")
          then lib.to_lower (entry.service_name +++ "." +++ entry.namespace +++ ".svc")
            ∷ lib.to_lower (entry.service_name +++ "." +++ entry.namespace)
            ∷ []
          else [])

  pub prefix_aliases : String → List String → List String
  prefix_aliases condition [] = []
  prefix_aliases condition (prefix ∷ prefixes) =
      let rest = prefix_aliases condition prefixes in
      elim (after_prefix prefix condition) [
        | none ↦ rest
        | some value ↦
            let alias = normalized_upstream_host lib value in
            alias
            ∷ (if has_suffix alias ".svc.cluster.local"
                then trim_suffix alias ".cluster.local" ∷ rest
                else rest)
      ]

  pub node_aliases : TopologyNode → List String
  node_aliases node = concat (
      map (λ condition. prefix_aliases condition ("ServiceDNS=" ∷ "Address=" ∷ "Hostname=" ∷ []))
        node.conditions)

  pub names_alias : String → String → Bool
  names_alias token alias =
      not (alias == "")
      && (token == alias || (has_suffix alias ".svc" && has_prefix token (alias +++ ".")))

  pub gateway_target_matches_cluster :
      List ProbeEntry → TopologyNode → List TopologyNode → String → Bool
  gateway_target_matches_cluster entries gateway owned cluster =
      let aliases =
        concat (map (λ entry. entry_aliases entry) entries)
        ++ concat (map (λ node. node_aliases node) (gateway ∷ owned)) in
      any (λ token. any (λ alias. names_alias token alias) aliases)
        (upstream_cluster_tokens lib cluster)

  pub by_host : AssociationContext → List ObservedHop → List Association
  by_host context [] = []
  by_host context (hop ∷ hops) =
      let rest = by_host context hops in
      let host = normalized_upstream_host lib hop.upstream_host in
      let basis = λ (target : ProbeGatewayTarget).
        basis_if
          (gateway_target_matches_address (entries_of context target.global_id)
            (node_of context target.global_id) host)
          ("上一跳 upstream_host " +++ hop.upstream_host +++ " 命中该网关的入口地址") in
      if host == ""
      then rest
      else record {
        matches = matching basis context.targets;
        confidence = probe_inference_confidence_high;
        strength = strength_host;
        ambiguous_basis = ("上一跳 upstream_host " +++ hop.upstream_host +++ " 同时匹配 %d 个网关入口，无法唯一归属");
      }
        ∷ rest

  pub resolved_services :
      AssociationContext → List String → List TopologyNode → List (String × String)
  resolved_services context tokens [] = []
  resolved_services context tokens (node ∷ nodes) =
      let rest = resolved_services context tokens nodes in
      elim (head? (condition_values "Type=" node.conditions)) [
        | none ↦ rest
        | some type ↦
            let name = node.name +++ "." +++ type in
            if node.kind == topology_node_kind_registry
              && contains tokens (lib.normalize_target name)
            then services_of context (node.namespace +++ "/" +++ name)
                (forward_edges context node.id)
              ++ rest
            else rest
      ]

  pub by_registry : AssociationContext → List ObservedHop → List Association
  by_registry context [] = []
  by_registry context (hop ∷ hops) =
      let rest = by_registry context hops in
      let tokens = upstream_cluster_tokens lib hop.upstream_cluster in
      let resolved = resolved_services context tokens context.topology.nodes in
      let basis = λ (target : ProbeGatewayTarget). registry_basis hop.upstream_cluster (
        first_registry
          (gateway_target_service_keys target (entries_of context target.global_id)
            (node_of context target.global_id))
          resolved) in
      if is_empty tokens
      then rest
      else record {
        matches = matching basis context.targets;
        confidence = probe_inference_confidence_medium;
        strength = strength_cluster;
        ambiguous_basis =
            ("上一跳 upstream_cluster " +++ hop.upstream_cluster
              +++ " 经 McpBridge registry 同时匹配 %d 个网关入口 Service，无法唯一归属");
      }
        ∷ rest

  pub by_cluster : AssociationContext → List ObservedHop → List Association
  by_cluster context [] = []
  by_cluster context (hop ∷ hops) =
      let rest = by_cluster context hops in
      let basis = λ (target : ProbeGatewayTarget).
        basis_if
          (gateway_target_matches_cluster (entries_of context target.global_id)
            (node_of context target.global_id) (owned_nodes context target.global_id)
            hop.upstream_cluster)
          ("上一跳 upstream_cluster " +++ hop.upstream_cluster +++ " 命中该网关的入口 Service") in
      if trim_space hop.upstream_cluster == ""
      then rest
      else record {
        matches = matching basis context.targets;
        confidence = probe_inference_confidence_medium;
        strength = strength_cluster;
        ambiguous_basis =
            ("上一跳 upstream_cluster " +++ hop.upstream_cluster +++ " 同时匹配 %d 个网关入口，无法唯一归属");
      }
        ∷ rest

  -- Each rule's name and its associations, in the order of defaultProbeAssociationRules.
  pub default_rules : AssociationContext → List (String × List Association)
  default_rules context =
      ("upstream-host-entry-address", by_host context context.hops)
      ∷ ("higress-mcpbridge-registry-service", by_registry context context.hops)
      ∷ ("upstream-cluster-entry-service", by_cluster context context.hops)
      ∷ ("observed-predecessor-declared-edge", declared context context.targets)
      ∷ []

  pub all_offers : AssociationContext → List (String × Ranked)
  all_offers context = concat (map (offers_of_rule lib.format) (default_rules context))

  -- inferProbeGatewayCandidates; a strength is left in each inference.
  pub infer_probe_gateway_candidates :
      Topology
      → List ProbeGatewayTarget
      → List ObservedHop
      → List (String × Bool)
      → List (String × Ranked)
  infer_probe_gateway_candidates topology targets hops observed =
      rank_all
        (all_offers (record {
          topology = topology;
          targets = targets;
          hops = hops;
          observed_gateway_ids = observed;
        }))
        []
