-- ===== src/Federation/Associations/Rules/Inferred.antt =====
-- What the rules may infer.
use gate_lens.Common.{
  ℕ, ◌≤◌, String, Bool, true, false, List, [], ◌∷◌, ◌++◌, map, concat, Option, some, ◌==◌, ◌≡◌,
  refl, sym, subst, ◌≢◌, ◌⊎◌, inl, inr, All, All-map, All-append, eq_refl, contains, Bool-cases,
  Option-cases, arith, eq_iff, ltb, length, if◌then◌else◌, lookup, ◌||◌, ◌&&◌, trim_space, is_empty,
}
use gate_lens.Domain.Values.{
  probe_inference_confidence_high, probe_inference_confidence_medium,
  probe_inference_confidence_low, probe_inference_confidence_ambiguous,
}
use gate_lens.Domain.Hop.{ObservedHop}
use gate_lens.Domain.Topology.{Topology}
use gate_lens.Federation.Probes.{ProbeGatewayTarget}
use gate_lens.Federation.Associations.{
  Match, Association, Ranked, AssociationContext, strength_host, strength_cluster,
  strength_declared,
}
use gate_lens.Federation.Associations.Hosts.{
  HostLibrary, normalized_upstream_host, upstream_cluster_tokens,
}
use gate_lens.Federation.Associations.Ranking.{unique_matches, offer_of, offers_of, offers_of_rule}
use gate_lens.Federation.Associations.Ranking.Best.{Offer, IsBest, rank_all-IsBest}
use gate_lens.Federation.Associations.Rules.{
  matching, by_host, by_registry, by_cluster, declared, is_observed, default_rules, all_offers,
  infer_probe_gateway_candidates,
}

abbrev pub target_ids : List ProbeGatewayTarget → List String
target_ids targets = map (λ (target : ProbeGatewayTarget). target.global_id) targets

-- The gateway is one of the targets.
abbrev pub IsTarget : List ProbeGatewayTarget → String → Type 0
IsTarget targets gateway = contains (target_ids targets) gateway ≡ true

-- How sure an inference is, by its rule's strength.
pub data IsGraded (inference : Ranked) : Type 0 where
  by_address :
      inference.strength ≡ strength_host
      → (inference.confidence ≡ probe_inference_confidence_high)
        ⊎ (inference.confidence ≡ probe_inference_confidence_ambiguous)
      → IsGraded inference
  by_service :
      inference.strength ≡ strength_cluster
      → (inference.confidence ≡ probe_inference_confidence_medium)
        ⊎ (inference.confidence ≡ probe_inference_confidence_ambiguous)
      → IsGraded inference
  by_declaration :
      inference.strength ≡ strength_declared
      → inference.confidence ≡ probe_inference_confidence_low
      → IsGraded inference

-- An association of targets whose strength and confidence fit.
record IsSound (targets : List ProbeGatewayTarget) (association : Association) : Type 0 where
  targeted : All (λ (found : Match). IsTarget targets found.gateway_id) association.matches
  graded :
      ((association.strength ≡ strength_host)
        × (association.confidence ≡ probe_inference_confidence_high))
      ⊎ ((association.strength ≡ strength_cluster)
          × (association.confidence ≡ probe_inference_confidence_medium))
      ⊎ ((association.strength ≡ strength_declared)
          × (association.confidence ≡ probe_inference_confidence_low)
          × (length association.matches ≡ 1))

-- An offer of a named target.
abbrev pub IsInferred : List ProbeGatewayTarget → Offer → Type 0
IsInferred targets (gateway, inference) =
    (gateway ≢ "") × IsTarget targets gateway × IsGraded inference

matching-IsTarget :
    (basis : ProbeGatewayTarget → Option String) (targets : List ProbeGatewayTarget)
    → All (λ (found : Match). IsTarget targets found.gateway_id) (matching basis targets)
unfolding matching
matching-IsTarget basis [] = tt
matching-IsTarget basis (target ∷ targets) =
    let rest : All (λ (found : Match). IsTarget (target ∷ targets) found.gateway_id)
        (matching basis targets) =
      All-map (matching basis targets)
        (λ (found : Match) (h : IsTarget targets found.gateway_id). ground (arith, h))
        (matching-IsTarget basis targets) in
    elim (Option-cases (basis target)) [
      | inl e ↦ rw (e, matching) rest
      | inr (text, e) ↦ rw (e, matching) (ground (arith, eq_refl target.global_id), rest)
    ]

unique_matches-All :
    (P : Match → Type 0) (seen : List String) (matches : List Match)
    → All P matches
    → All (λ (found : Match). P found × (found.gateway_id ≢ "")) (unique_matches seen matches)
unfolding unique_matches
unique_matches-All P seen [] h = tt
unique_matches-All P seen (found ∷ matches) (p, h) =
    elim (Bool-cases (found.gateway_id == "" || contains seen found.gateway_id)) [
      | inl e ↦ rw e (unique_matches-All P seen matches h)
      | inr e ↦ rw e (
        (p, λ empty. ground (arith, eq_iff found.gateway_id "", empty, e)),
        unique_matches-All P (found.gateway_id ∷ seen) matches h,
      )
    ]

length-unique_matches :
    (seen : List String) (matches : List Match)
    → length (unique_matches seen matches) ≤ length matches
unfolding unique_matches
length-unique_matches seen [] = omega arith
length-unique_matches seen (found ∷ matches) =
    elim (Bool-cases (found.gateway_id == "" || contains seen found.gateway_id)) [
      | inl e ↦ rw e (omega (arith, length-unique_matches seen matches))
      | inr e ↦ rw e (omega (arith, length-unique_matches (found.gateway_id ∷ seen) matches))
    ]

All-of_map {ℓ κ ι} :
    {A : Type ℓ} {B : Type κ} (P : B → Type ι) (f : A → B) (xs : List A)
    → All (λ x. P (f x)) xs
    → All P (map f xs)
All-of_map P f [] h = tt
All-of_map P f (x ∷ xs) (p, h) = (p, All-of_map P f xs h)

All-concat-map {ℓ κ ι} :
    {A : Type ℓ} {B : Type κ} (P : B → Type ι) (f : A → List B) (xs : List A)
    → All (λ x. All P (f x)) xs
    → All P (concat (map f xs))
All-concat-map P f [] h = tt
All-concat-map P f (x ∷ xs) (p, h) =
    All-append P (f x) (concat (map f xs)) p (All-concat-map P f xs h)

sure_or_ambiguous :
    (test : Bool) (confidence sure : String)
    → confidence ≡ sure
    → ((if test then probe_inference_confidence_ambiguous else confidence) ≡ sure)
      ⊎ ((if test then probe_inference_confidence_ambiguous else confidence)
          ≡ probe_inference_confidence_ambiguous)
sure_or_ambiguous true confidence sure e = inr refl
sure_or_ambiguous false confidence sure e = inl e

offer_of-IsGraded :
    (format : String → ℕ → String) (rule : String) (targets : List ProbeGatewayTarget)
    (association : Association) (found : Match)
    → IsSound targets association
    → IsGraded (offer_of format rule association (unique_matches [] association.matches) found)
unfolding offer_of
offer_of-IsGraded format rule targets association found h =
    let matches = unique_matches [] association.matches in
    elim h.graded [
      | inl (strong, sure) ↦
          by_address strong
            (sure_or_ambiguous (ltb 1 (length matches)) association.confidence _ sure)
      | inr (inl (strong, sure)) ↦
          by_service strong
            (sure_or_ambiguous (ltb 1 (length matches)) association.confidence _ sure)
      | inr (inr (strong, sure, single)) ↦
          let few = length-unique_matches [] association.matches in
          by_declaration strong (ground (arith, few, single, sure))
    ]

offers_of-IsInferred :
    (format : String → ℕ → String) (rule : String) (targets : List ProbeGatewayTarget)
    (association : Association)
    → IsSound targets association
    → All (IsInferred targets) (offers_of format rule association)
unfolding offers_of
offers_of-IsInferred format rule targets association h =
    let matches = unique_matches [] association.matches in
    All-of_map (IsInferred targets) _ matches (
      All-map matches
        (λ found (target, named).
          (named, target, offer_of-IsGraded format rule targets association found h))
        (unique_matches-All (λ (found : Match). IsTarget targets found.gateway_id) []
          association.matches h.targeted))

matched-IsSound :
    (context : AssociationContext) (basis : ProbeGatewayTarget → Option String)
    (association : Association)
    → association.matches ≡ matching basis context.targets
    → ((association.strength ≡ strength_host)
        × (association.confidence ≡ probe_inference_confidence_high))
      ⊎ ((association.strength ≡ strength_cluster)
          × (association.confidence ≡ probe_inference_confidence_medium))
    → IsSound context.targets association
matched-IsSound context basis association e graded = record {
  targeted =
      subst (All (λ (found : Match). IsTarget context.targets found.gateway_id)) (sym e)
        (matching-IsTarget basis context.targets);
  graded = elim graded [ inl h ↦ inl h | inr h ↦ inr (inl h) ];
}

declared-IsSound :
    (context : AssociationContext) (all_targets targets : List ProbeGatewayTarget)
    → All (λ (target : ProbeGatewayTarget). IsTarget all_targets target.global_id) targets
    → All (IsSound all_targets) (declared context targets)
unfolding declared
declared-IsSound context all_targets [] h = tt
declared-IsSound context all_targets (target ∷ targets) (p, h) =
    let rest = declared-IsSound context all_targets targets h in
    elim (Bool-cases (target.declared && is_observed context target.predecessor_gateway_id)) [
      | inl e ↦
          rw (e, declared)
            (record { targeted = (p, tt); graded = inr (inr (refl, refl, refl)) }, rest)
      | inr e ↦ rw (e, declared) rest
    ]

All-IsTarget :
    (targets : List ProbeGatewayTarget)
    → All (λ (target : ProbeGatewayTarget). IsTarget targets target.global_id) targets
All-IsTarget [] = tt
All-IsTarget (target ∷ targets) = (
  ground (arith, eq_refl target.global_id),
  All-map targets (λ (x : ProbeGatewayTarget) (h : IsTarget targets x.global_id). ground (arith, h))
      (All-IsTarget targets),
)

module _ (lib : HostLibrary) where
  by_host-IsSound :
      (context : AssociationContext) (hops : List ObservedHop)
      → All (IsSound context.targets) (by_host lib context hops)
  unfolding by_host
  by_host-IsSound context [] = tt
  by_host-IsSound context (hop ∷ hops) =
      let rest = by_host-IsSound context hops in
      elim (Bool-cases (normalized_upstream_host lib hop.upstream_host == "")) [
        | inl e ↦ rw (e, by_host) rest
        | inr e ↦ rw (e, by_host) (matched-IsSound context _ _ refl (inl (refl, refl)), rest)
      ]

  by_registry-IsSound :
      (context : AssociationContext) (hops : List ObservedHop)
      → All (IsSound context.targets) (by_registry lib context hops)
  unfolding by_registry
  by_registry-IsSound context [] = tt
  by_registry-IsSound context (hop ∷ hops) =
      let rest = by_registry-IsSound context hops in
      elim (Bool-cases (is_empty (upstream_cluster_tokens lib hop.upstream_cluster))) [
        | inl e ↦ rw (e, by_registry) rest
        | inr e ↦ rw (e, by_registry) (matched-IsSound context _ _ refl (inr (refl, refl)), rest)
      ]

  by_cluster-IsSound :
      (context : AssociationContext) (hops : List ObservedHop)
      → All (IsSound context.targets) (by_cluster lib context hops)
  unfolding by_cluster
  by_cluster-IsSound context [] = tt
  by_cluster-IsSound context (hop ∷ hops) =
      let rest = by_cluster-IsSound context hops in
      elim (Bool-cases (trim_space hop.upstream_cluster == "")) [
        | inl e ↦ rw (e, by_cluster) rest
        | inr e ↦ rw (e, by_cluster) (matched-IsSound context _ _ refl (inr (refl, refl)), rest)
      ]

  rule-IsInferred :
      (rule : String) (targets : List ProbeGatewayTarget) (associations : List Association)
      → All (IsSound targets) associations
      → All
          (IsInferred targets)
          (concat (map (λ association. offers_of lib.format rule association) associations))
  rule-IsInferred rule targets associations h =
      All-concat-map (IsInferred targets) (λ association. offers_of lib.format rule association)
        associations
        (All-map associations
          (λ association sound. offers_of-IsInferred lib.format rule targets association sound) h)

  all_offers-IsInferred :
      (context : AssociationContext) → All (IsInferred context.targets) (all_offers lib context)
  unfolding all_offers default_rules
  all_offers-IsInferred context =
      let targets = context.targets in
      All-concat-map (IsInferred targets) (offers_of_rule lib.format) (default_rules lib context) (
        rule-IsInferred "upstream-host-entry-address" targets _
            (by_host-IsSound context context.hops),
        (
          rule-IsInferred "higress-mcpbridge-registry-service" targets _
              (by_registry-IsSound context context.hops),
          (
            rule-IsInferred "upstream-cluster-entry-service" targets _
                (by_cluster-IsSound context context.hops),
            (
              rule-IsInferred "observed-predecessor-declared-edge" targets _
                  (declared-IsSound context targets targets (All-IsTarget targets)),
              tt,
            ),
          ),
        ),
      )

  All-within :
      (P : Offer → Type 0) (front : List Offer) (offer : Offer) (back : List Offer)
      → All P (front ++ offer ∷ back)
      → P offer
  All-within P [] offer back (p, h) = p
  All-within P (x ∷ front) offer back (p, h) = All-within P front offer back h

  -- A gateway that the rules infer is one of the targets, and its confidence fits the strength of
  -- the evidence: high or ambiguous for an address, medium or ambiguous for a service, and low for
  -- a declared link.
  pub infer-IsInferred :
      (topology : Topology) (targets : List ProbeGatewayTarget) (hops : List ObservedHop)
      (observed : List (String × Bool)) (gateway : String) (inference : Ranked)
      → lookup gateway (infer_probe_gateway_candidates lib topology targets hops observed)
        ≡ some inference
      → IsInferred targets (gateway, inference)
  unfolding infer_probe_gateway_candidates
  infer-IsInferred topology targets hops observed gateway inference e =
      let context : AssociationContext = record {
        topology = topology;
        targets = targets;
        hops = hops;
        observed_gateway_ids = observed;
      } in
      let offers = all_offers lib context in
      let (front, back, split, _, _) =
        subst (λ kept. IsBest gateway offers kept) e (rank_all-IsBest gateway offers) in
      All-within (IsInferred targets) front (gateway, inference) back
        (subst (All (IsInferred targets)) split (all_offers-IsInferred context))
