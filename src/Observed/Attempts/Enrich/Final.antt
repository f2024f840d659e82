-- ===== src/Observed/Attempts/Enrich/Final.antt =====
-- When EnrichProbe names the record that answered the probe.
use mathlib.Core.List.{Memᴰ}
use gate_lens.Common.{
  String, true, List, [], ◌∷◌, some, ◌≡◌, ◌≢◌, refl, sym, ◌∙◌, ap, subst, ◌⊎◌, inl, inr, eq_iff,
  ◌&&◌, is_positive, int_eq, int_eq_iff, arith, Option-cases, Bool-cases,
}
use gate_lens.Domain.Values.{probe_attempt_relation_state_linked, probe_execution_state_completed}
use gate_lens.Domain.Hop.{ObservedHop}
use gate_lens.Domain.Probe.{ProbeSegment, ProbeExecution}
use gate_lens.Observed.Attempts.{AttemptGroup, is_settled}
use gate_lens.Observed.Attempts.Enrich.{
  by_id, reset_segment, segment_groups, may_conclude, is_exact, set_final, conclude, enrich_segment,
  conclude_segments, enrich_probe,
}
use gate_lens.Observed.Attempts.Enrich.Records.{
  by_id-enrich_segment, segment_groups-terminal, gateway_id-enrich_segment,
}

-- What must hold of a segment whose record `id` is the probe's final response.
pub record IsConclusive (execution : ProbeExecution) (segment : ProbeSegment) (id : String)
    : Type 0 where
  pub completed : execution.state ≡ probe_execution_state_completed
  pub no_error : execution.error ≡ ""
  pub answered : is_positive execution.response_code ≡ true
  pub own_gateway : segment.gateway_id ≡ execution.gateway_id
  pub clean : (enrich_segment segment).issues ≡ []
  pub group : AttemptGroup
  pub alone : segment_groups (reset_segment segment) ≡ group ∷ []
  pub linked : group.relation_state ≡ probe_attempt_relation_state_linked
  pub settled : is_settled (reset_segment segment).collection ≡ true
  pub hop : ObservedHop
  pub found : by_id (enrich_segment segment).hops group.local_terminal_hop_id ≡ some hop
  pub same_code : hop.response_code ≡ execution.response_code
  pub exact : is_exact (enrich_segment segment).hops group.hop_ids ≡ true
  pub named : id ≡ hop.id

pub conclude_cases :
    (execution : ProbeExecution) (segment : ProbeSegment) (groups : List AttemptGroup)
    → (conclude execution segment groups ≡ execution)
      ⊎ ((group : AttemptGroup) × (groups ≡ group ∷ [])
          × ((hop : ObservedHop) × (by_id segment.hops group.local_terminal_hop_id ≡ some hop)
              × (may_conclude execution segment ≡ true)
              × (is_exact segment.hops group.hop_ids ≡ true)
              × (int_eq hop.response_code execution.response_code ≡ true)
              × (conclude execution segment groups ≡ set_final execution hop)))
unfolding conclude
conclude_cases execution segment [] = inl refl
conclude_cases execution segment (group ∷ []) =
    elim (Option-cases (by_id segment.hops group.local_terminal_hop_id)) [
      | inl missing ↦ inl (rw (missing, conclude))
      | inr (hop, found) ↦
          elim (Bool-cases (
            may_conclude execution segment
            && is_exact segment.hops group.hop_ids
            && int_eq hop.response_code execution.response_code)) [
              | inl passed ↦ inr (
                group,
                refl,
                (
                  hop,
                  found,
                  ground arith,
                  ground arith,
                  ground arith,
                  rw (found, conclude) (rw passed),
                ),
              )
              | inr failed ↦ inl (rw (found, conclude) (rw failed))
            ]
    ]
conclude_cases execution segment (_ ∷ _ ∷ _) = inl refl

may_conclude-parts :
    (execution : ProbeExecution) (segment : ProbeSegment)
    → may_conclude execution segment ≡ true
    → (execution.state ≡ probe_execution_state_completed)
      × (execution.error ≡ "")
      × (is_positive execution.response_code ≡ true)
      × (segment.gateway_id ≡ execution.gateway_id)
      × (segment.issues ≡ [])
unfolding may_conclude
may_conclude-parts execution segment h = ground (
  arith,
  eq_iff execution.state probe_execution_state_completed,
  eq_iff execution.error "",
  eq_iff segment.gateway_id execution.gateway_id,
)

pub conclude-IsConclusive :
    (execution : ProbeExecution) (segment : ProbeSegment)
    → let after =
        conclude execution (enrich_segment segment) (segment_groups (reset_segment segment)) in
      (after ≡ execution)
      ⊎ ((hop : ObservedHop) × (after ≡ set_final execution hop)
          × IsConclusive execution segment hop.id)
conclude-IsConclusive execution segment =
    elim (conclude_cases execution (enrich_segment segment)
      (segment_groups (reset_segment segment))) [
        | inl unchanged ↦ inl unchanged
        | inr (group, alone, (hop, found, may, exact, code, set)) ↦
            let (completed, no_error, answered, own, clean) = may_conclude-parts _ _ may in
            let named : group.local_terminal_hop_id ≢ "" =
              λ e. let missing = by_id-enrich_segment segment in cc in
            let (linked, settled) =
              segment_groups-terminal (reset_segment segment) group alone named in
            inr (
              hop,
              set,
              record {
                completed = completed;
                no_error = no_error;
                answered = answered;
                own_gateway = sym (gateway_id-enrich_segment segment) ∙ own;
                clean = clean;
                group = group;
                alone = alone;
                linked = linked;
                settled = settled;
                hop = hop;
                found = found;
                same_code = (int_eq_iff _ _).0 code;
                exact = exact;
                named = refl;
              },
            )
      ]

abbrev pub with_finals : ProbeExecution → String → String → ProbeExecution
with_finals execution response upstream = record execution {
  final_response_hop_id = response;
  final_upstream_hop_id = upstream;
}

-- The final references play no part in whether a segment is conclusive.
IsConclusive-with_finals :
    {execution : ProbeExecution} {segment : ProbeSegment} {id : String} (response upstream : String)
    → IsConclusive (with_finals execution response upstream) segment id
    → IsConclusive execution segment id
IsConclusive-with_finals response upstream c = record {
  completed = c.completed;
  no_error = c.no_error;
  answered = c.answered;
  own_gateway = c.own_gateway;
  clean = c.clean;
  group = c.group;
  alone = c.alone;
  linked = c.linked;
  settled = c.settled;
  hop = c.hop;
  found = c.found;
  same_code = c.same_code;
  exact = c.exact;
  named = c.named;
}

-- What the loop over the segments may have done to the final references.
abbrev Concludes : ProbeExecution → List ProbeSegment → ProbeExecution → Type 0
Concludes before segments after =
    ((after.final_response_hop_id ≡ before.final_response_hop_id)
      × (after.final_upstream_hop_id ≡ before.final_upstream_hop_id))
    ⊎ ((segment : ProbeSegment) × Memᴰ segment segments
        × IsConclusive before segment after.final_response_hop_id)

conclude_segments-Concludes :
    (execution : ProbeExecution) (segments : List ProbeSegment)
    → Concludes execution segments (conclude_segments execution segments)
unfolding conclude_segments set_final
conclude_segments-Concludes execution [] = inl (refl, refl)
conclude_segments-Concludes execution (segment ∷ segments) =
    step (conclude-IsConclusive execution segment) (
      conclude_segments-Concludes
        (conclude execution (enrich_segment segment) (segment_groups (reset_segment segment)))
        segments)
  where
    after : ProbeExecution
    after = conclude execution (enrich_segment segment) (segment_groups (reset_segment segment))

    step :
        (after ≡ execution)
          ⊎ ((hop : ObservedHop) × (after ≡ set_final execution hop)
              × IsConclusive execution segment hop.id)
        → Concludes after segments (conclude_segments after segments)
        → Concludes execution (segment ∷ segments) (conclude_segments after segments)
    step (inl same) (inl (a, b)) = inl (
      a ∙ ap (λ (e : ProbeExecution). e.final_response_hop_id) same,
      b ∙ ap (λ (e : ProbeExecution). e.final_upstream_hop_id) same,
    )
    step (inl same) (inr (s, m, c)) = inr (
      s,
      Memᴰ.tail m,
      subst (λ e. IsConclusive e s (conclude_segments after segments).final_response_hop_id) same c,
    )
    step (inr (hop, set, c)) (inl (a, b)) = inr (
      segment,
      Memᴰ.head refl,
      subst (λ id. IsConclusive execution segment id)
          (sym (a ∙ ap (λ (e : ProbeExecution). e.final_response_hop_id) set)) c,
    )
    step (inr (hop, set, c)) (inr (s, m, d)) = inr (
      s,
      Memᴰ.tail m,
      IsConclusive-with_finals _ _ (
          subst (λ e. IsConclusive e s (conclude_segments after segments).final_response_hop_id) set
            d),
    )

-- If an enriched probe names a final response, then some segment is conclusive for it: the probe
-- completed with a response and no error, the segment is the probed gateway's, it has no issue and
-- one group, which is linked and settled, every record of the group matched by probe identity, and
-- the named record is the group's terminal with the response code that the agent measured.
pub final_response-IsConclusive :
    (execution : ProbeExecution)
    → (enrich_probe execution).final_response_hop_id ≢ ""
    → (segment : ProbeSegment) × Memᴰ segment execution.segments
      × IsConclusive execution segment (enrich_probe execution).final_response_hop_id
unfolding enrich_probe
final_response-IsConclusive execution set =
    elim (conclude_segments-Concludes (with_finals execution "" "") execution.segments) [
      | inl (a, b) ↦ absurd (set a)
      | inr (segment, listed, c) ↦ (segment, listed, IsConclusive-with_finals "" "" c)
    ]
