-- ===== src/Observed/Attempts/Enrich/Records.antt =====
-- Records by identity, and what the loops of EnrichProbe leave of a segment.
use text.Mathlib.TextLemmas.{append-eq-nil_iff, append_assoc}
use gate_lens.Common.{
  ℕ, ◌+◌, String, true, List, [], ◌∷◌, Option, none, ◌≡◌, ◌≢◌, refl, sym, ◌∙◌, ap, inl, inr, ◌==◌,
  eq_iff, if◌then◌else◌, ◌+++◌, has_prefix, after_prefix, append-after_prefix, arith, Option-cases,
  Bool-cases,
}
use gate_lens.Domain.Values.{probe_attempt_relation_state_linked}
use gate_lens.Domain.Hop.{ObservedHop}
use gate_lens.Domain.Issues.{ProbeIssue}
use gate_lens.Domain.Probe.{ProbeCollection, ProbeSegment}
use gate_lens.Observed.Values.{decimal}
use gate_lens.Observed.Attempts.{
  AttemptGroup, Bucket, attempt_groups, attempt_group, number_groups, fill_buckets, is_settled,
}
use gate_lens.Observed.Attempts.Relation.{local_terminal}
use gate_lens.Observed.Attempts.Enrich.{
  qualify, identify_hop, identify_hops, by_id, set_context, set_contexts, add_group, add_groups,
  reset_segment, segment_groups, relate_segment, enrich_segment,
}

slash-ne-nil : (gateway rest : String) → gateway +++ "/" +++ rest ≢ ""
slash-ne-nil gateway rest e =
    let (_, tail) = append-eq-nil_iff.0 e in
    let (slash, _) = append-eq-nil_iff.0 tail in ground (arith, eq_iff "/" "")

prefix_slash-ne-nil : (gateway id : String) → has_prefix id (gateway +++ "/") ≡ true → id ≢ ""
prefix_slash-ne-nil gateway id h e = elim (Option-cases (after_prefix (gateway +++ "/") id)) [
  | inl missing ↦ cc
  | inr (r, found) ↦
      slash-ne-nil gateway r
        (sym (append_assoc gateway "/" r) ∙ (sym (append-after_prefix _ id r found) ∙ e))
]

-- The empty identity names no record: each is qualified by its gateway.
qualify-ne-nil : (gateway id : String) → qualify gateway id ≢ ""
unfolding qualify
qualify-ne-nil gateway id = elim (Bool-cases (has_prefix id (gateway +++ "/"))) [
  | inl has ↦ rw has (prefix_slash-ne-nil gateway id has)
  | inr hasnt ↦ rw hasnt (slash-ne-nil gateway id)
]

by_id-identify_hops :
    (gateway : String) (index : ℕ) (hops : List ObservedHop)
    → by_id (identify_hops gateway index hops) "" ≡ none
unfolding by_id identify_hops identify_hop
by_id-identify_hops gateway index [] = refl
by_id-identify_hops gateway index (hop ∷ hops) =
    let id = if hop.id == "" then "record-" +++ decimal (index + 1) else hop.id in
    ground (
      arith,
      by_id-identify_hops gateway (index + 1) hops,
      eq_iff (qualify gateway id) "",
      qualify-ne-nil gateway id,
    )

by_id-set_context :
    (context : String) (hops : List ObservedHop) (id key : String)
    → by_id hops key ≡ none
    → by_id (set_context context hops id) key ≡ none
unfolding by_id set_context
by_id-set_context context [] id key h = refl
by_id-set_context context (hop ∷ hops) id key h =
    ground (arith, by_id-set_context context hops id key)

by_id-set_contexts :
    (context : String) (ids : List String) (hops : List ObservedHop) (key : String)
    → by_id hops key ≡ none
    → by_id (set_contexts context ids hops) key ≡ none
unfolding set_contexts
by_id-set_contexts context [] hops key h = h
by_id-set_contexts context (id ∷ ids) hops key h =
    by_id-set_contexts context ids (set_context context hops id) key
      (by_id-set_context context hops id key h)

by_id-add_groups :
    (segment : ProbeSegment) (groups : List AttemptGroup)
    → by_id segment.hops "" ≡ none
    → by_id (add_groups segment groups).hops "" ≡ none
unfolding add_groups add_group
by_id-add_groups segment [] h = h
by_id-add_groups segment (group ∷ groups) h =
    by_id-add_groups (add_group segment group) groups
      (by_id-set_contexts group.id group.hop_ids segment.hops "" h)

by_id-relate_segment :
    (segment : ProbeSegment) (groups : List AttemptGroup)
    → by_id segment.hops "" ≡ none
    → by_id (relate_segment segment groups).hops "" ≡ none
unfolding relate_segment
by_id-relate_segment segment [] h = h
by_id-relate_segment segment (group ∷ groups) h = by_id-add_groups segment (group ∷ groups) h

pub by_id-enrich_segment : (segment : ProbeSegment) → by_id (enrich_segment segment).hops "" ≡ none
unfolding enrich_segment reset_segment
by_id-enrich_segment segment =
    by_id-relate_segment (reset_segment segment) (segment_groups (reset_segment segment))
      (by_id-identify_hops segment.gateway_id 0 segment.hops)

number_groups-single :
    (collection : Option ProbeCollection) (issues : List ProbeIssue) (index : ℕ)
    (buckets : List Bucket) (group : AttemptGroup)
    → number_groups collection issues index buckets ≡ group ∷ []
    → (bucket : Bucket) × (attempt_group collection issues index bucket ≡ group)
unfolding number_groups
number_groups-single collection issues index [] group h = cc
number_groups-single collection issues index (bucket ∷ buckets) group h = (bucket, cc)

-- The only group of a segment is linked and settled if it names a local terminal.
pub segment_groups-terminal :
    (segment : ProbeSegment) (group : AttemptGroup)
    → segment_groups segment ≡ group ∷ []
    → group.local_terminal_hop_id ≢ ""
    → (group.relation_state ≡ probe_attempt_relation_state_linked)
      × (is_settled segment.collection ≡ true)
unfolding segment_groups attempt_groups
segment_groups-terminal segment group alone named =
    let (bucket, same) =
      number_groups-single segment.collection segment.issues 0 (fill_buckets [] segment.hops) group
        alone in
    let (linked, settled, clean, single) =
      local_terminal segment.collection segment.issues 0 bucket
        (λ e. named (ap (λ (g : AttemptGroup). g.local_terminal_hop_id) (sym same) ∙ e)) in
    (ap (λ (g : AttemptGroup). g.relation_state) (sym same) ∙ linked, settled)

gateway_id-add_groups :
    (segment : ProbeSegment) (groups : List AttemptGroup)
    → (add_groups segment groups).gateway_id ≡ segment.gateway_id
unfolding add_groups add_group
gateway_id-add_groups segment [] = refl
gateway_id-add_groups segment (group ∷ groups) =
    gateway_id-add_groups (add_group segment group) groups

gateway_id-relate_segment :
    (segment : ProbeSegment) (groups : List AttemptGroup)
    → (relate_segment segment groups).gateway_id ≡ segment.gateway_id
unfolding relate_segment
gateway_id-relate_segment segment [] = refl
gateway_id-relate_segment segment (group ∷ groups) = gateway_id-add_groups segment (group ∷ groups)

pub gateway_id-enrich_segment :
    (segment : ProbeSegment) → (enrich_segment segment).gateway_id ≡ segment.gateway_id
unfolding enrich_segment reset_segment
gateway_id-enrich_segment segment =
    gateway_id-relate_segment (reset_segment segment) (segment_groups (reset_segment segment))
