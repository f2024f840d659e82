-- ===== src/Federation/Associations/Ranking.antt =====
-- The choice among the associations of all rules: inferProbeGatewayCandidatesWithRules and
-- uniqueProbeAssociationMatches of internal/federation/probe_association_rules.go.
pub mod Best
mod Examples
use gate_lens.Common.{
  ℕ, concat, String, List, [], ◌∷◌, map, Option, none, some, ◌==◌, ◌||◌, length, contains, ltb,
  if◌then◌else◌, ◌+++◌, lookup, insert,
}
use gate_lens.Domain.Values.{probe_inference_confidence_ambiguous}
use gate_lens.Observed.Values.{decimal}
use gate_lens.Federation.Associations.{Match, Association, Ranked}

unfoldable pub unique_matches : List String → List Match → List Match
unique_matches seen [] = []
unique_matches seen (found ∷ matches) =
    let repeated = found.gateway_id == "" || contains seen found.gateway_id in
    let rest = unique_matches (if repeated then seen else found.gateway_id ∷ seen) matches in
    if repeated then rest else found ∷ rest

-- `ranked[id]` after a match, which counts only if it is stronger.
unfoldable pub rank : String → Ranked → List (String × Ranked) → List (String × Ranked)
rank gateway offer ranked = elim (lookup gateway ranked) [
  | none ↦ insert gateway offer ranked
  | some current ↦
      if ltb current.strength offer.strength then insert gateway offer ranked else ranked
]

abbrev pub ambiguous_text : (String → ℕ → String) → String → String → ℕ → String
ambiguous_text format rule basis count =
    if basis == ""
    then "关联规则 " +++ rule +++ " 同时匹配 " +++ decimal count +++ " 个网关，无法唯一归属"
    else format basis count

-- The inference from one of an association's unique matches.
unfoldable pub offer_of : (String → ℕ → String) → String → Association → List Match → Match → Ranked
offer_of format rule association matches found =
    let ambiguous = ltb 1 (length matches) in
    record {
      basis =
          if ambiguous
          then ambiguous_text format rule association.ambiguous_basis (length matches)
          else found.basis;
      confidence =
          if ambiguous then probe_inference_confidence_ambiguous else association.confidence;
      strength = association.strength;
    }

-- The gateways and inferences that an association offers.
unfoldable pub offers_of : (String → ℕ → String) → String → Association → List (String × Ranked)
offers_of format rule association =
    let matches = unique_matches [] association.matches in
    map (λ (found : Match). (found.gateway_id, offer_of format rule association matches found))
      matches

-- The offers of a rule, given by its name and its associations.
abbrev pub offers_of_rule :
    (String → ℕ → String) → String × List Association → List (String × Ranked)
offers_of_rule format (rule, associations) =
    concat (map (λ association. offers_of format rule association) associations)

unfoldable pub rank_all : List (String × Ranked) → List (String × Ranked) → List (String × Ranked)
rank_all [] ranked = ranked
rank_all ((gateway, offer) ∷ offers) ranked = rank_all offers (rank gateway offer ranked)
