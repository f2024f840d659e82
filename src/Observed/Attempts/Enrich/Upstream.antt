-- ===== src/Observed/Attempts/Enrich/Upstream.antt =====
-- When EnrichProbe names the record of the final upstream.
use gate_lens.Common.{
  suc, List, [], ◌∷◌, map, ◌≡◌, ◌≢◌, refl, sym, ◌∙◌, ap, subst, ◌⊎◌, inl, inr, length, arith,
}
use gate_lens.Domain.Hop.{ObservedHop}
use gate_lens.Domain.Probe.{ProbeSegment, ProbeExecution}
use gate_lens.Observed.Attempts.{AttemptGroup}
use gate_lens.Observed.Attempts.Enrich.{
  reset_segment, segment_groups, set_final, conclude, enrich_segment, conclude_segments,
  enrich_probe,
}
use gate_lens.Observed.Attempts.Enrich.Final.{
  IsConclusive, conclude_cases, conclude-IsConclusive, with_finals,
}

-- The final upstream is unset, or it is the final response of the only segment.
abbrev IsWholePath : ProbeExecution → Type 0
IsWholePath execution =
    (execution.final_upstream_hop_id ≡ "")
    ⊎ ((length execution.segments ≡ 1)
        × (execution.issues ≡ [])
        × (execution.final_upstream_hop_id ≡ execution.final_response_hop_id))

set_final-IsWholePath :
    (execution : ProbeExecution) (hop : ObservedHop)
    → IsWholePath execution
    → IsWholePath (set_final execution hop)
unfolding set_final
set_final-IsWholePath execution hop p = ground arith

conclude_segments-IsWholePath :
    (execution : ProbeExecution) (segments : List ProbeSegment)
    → IsWholePath execution
    → IsWholePath (conclude_segments execution segments)
unfolding conclude_segments
conclude_segments-IsWholePath execution [] p = p
conclude_segments-IsWholePath execution (segment ∷ segments) p =
    conclude_segments-IsWholePath
      (conclude execution (enrich_segment segment) (segment_groups (reset_segment segment)))
      segments (step (conclude-IsConclusive execution segment))
  where
    after : ProbeExecution
    after = conclude execution (enrich_segment segment) (segment_groups (reset_segment segment))

    step :
        (after ≡ execution)
          ⊎ ((hop : ObservedHop) × (after ≡ set_final execution hop)
              × IsConclusive execution segment hop.id)
        → IsWholePath after
    step (inl same) = subst IsWholePath (sym same) p
    step (inr (hop, set, c)) = subst IsWholePath (sym set) (set_final-IsWholePath execution hop p)

conclude-segments :
    (execution : ProbeExecution) (segment : ProbeSegment) (groups : List AttemptGroup)
    → (conclude execution segment groups).segments ≡ execution.segments
unfolding set_final
conclude-segments execution segment groups = elim (conclude_cases execution segment groups) [
  | inl same ↦ ap (λ (e : ProbeExecution). e.segments) same
  | inr (group, alone, (hop, found, may, exact, code, set)) ↦
      ap (λ (e : ProbeExecution). e.segments) set
]

conclude_segments-segments :
    (execution : ProbeExecution) (segments : List ProbeSegment)
    → (conclude_segments execution segments).segments ≡ execution.segments
unfolding conclude_segments
conclude_segments-segments execution [] = refl
conclude_segments-segments execution (segment ∷ segments) =
    conclude_segments-segments
      (conclude execution (enrich_segment segment) (segment_groups (reset_segment segment)))
      segments
    ∙ conclude-segments execution (enrich_segment segment) (segment_groups (reset_segment segment))

length-map {ℓ κ} :
    {A : Type ℓ} {B : Type κ} (f : A → B) (xs : List A) → length (map f xs) ≡ length xs
length-map f [] = refl
length-map f (x ∷ xs) = ap suc (length-map f xs)

-- If an enriched probe names a final upstream, it has one segment and no issue of its own, and the
-- final upstream is the final response.
pub final_upstream-single :
    (execution : ProbeExecution)
    → let after = enrich_probe execution in
      after.final_upstream_hop_id ≢ ""
      → (length after.segments ≡ 1)
        × (after.issues ≡ [])
        × (after.final_upstream_hop_id ≡ after.final_response_hop_id)
unfolding enrich_probe
final_upstream-single execution set =
    let base = with_finals execution "" "" in
    elim (conclude_segments-IsWholePath base execution.segments (inl refl)) [
      | inl unset ↦ absurd (set unset)
      | inr (one, clean, same) ↦ (
        length-map enrich_segment execution.segments
            ∙ (ap length (sym (conclude_segments-segments base execution.segments)) ∙ one),
        clean,
        same,
      )
    ]
