-- ===== src/Federation/Probes/Completion/Justified.antt =====
-- Why a segment is part of a probe.
use mathlib.Core.List.{Memᴰ}
use gate_lens.Common.{
  none, ap, ℕ, suc, String, ℤ, pos, true, false, List, [], ◌∷◌, some, ◌≡◌, refl, subst, inl, inr,
  All, is_empty, Bool-cases, Option-cases, arith, lookup,
}
use gate_lens.Domain.Issues.{append_probe_issue}
use gate_lens.Domain.Topology.{Topology}
use gate_lens.Domain.Probe.{ProbeSegment, ProbeExecution}
use gate_lens.Federation.Probes.{ProbeGatewayTarget}
use gate_lens.Federation.Associations.{Ranked}
use gate_lens.Federation.Associations.Hosts.{HostLibrary}
use gate_lens.Federation.Probes.Completion.{
  missing_evidence, Observed, has_protocol_failure, candidate, settle_segment, settle_segments,
  comes_before, insert_segment, sort_segments, number_segments, inferences_of, complete_segments,
}

-- Why a segment is kept, and what it is: that of one of the targets, with the number aside. It has
-- records; or it has none, and the gateway of its target is inferred; or it has none, its gateway is
-- not inferred, and it reports an agent of another protocol.
pub data IsJustified (inferences : List (String × Ranked)) (results : List Observed)
    (kept : ProbeSegment) : Type 0 where
  recorded :
      (target : ProbeGatewayTarget) (segment : ProbeSegment)
      → Memᴰ (target, segment) results
      → is_empty segment.hops ≡ false
      → kept ≡ record segment { index = kept.index }
      → IsJustified inferences results kept
  incompatible :
      (target : ProbeGatewayTarget) (segment : ProbeSegment)
      → Memᴰ (target, segment) results
      → is_empty segment.hops ≡ true
      → lookup target.global_id inferences ≡ none
      → has_protocol_failure segment ≡ true
      → kept ≡ record segment { index = kept.index }
      → IsJustified inferences results kept
  inferred :
      (target : ProbeGatewayTarget) (segment : ProbeSegment)
      → Memᴰ (target, segment) results
      → is_empty segment.hops ≡ true
      → (inference : Ranked) → lookup target.global_id inferences ≡ some inference
      → kept ≡ record segment {
        index = kept.index;
        inference_basis = inference.basis;
        inference_confidence = inference.confidence;
        issues = append_probe_issue segment.issues missing_evidence;
      }
      → IsJustified inferences results kept

-- The segments are numbered from this number on.
abbrev pub Indexed : ℕ → List ProbeSegment → Type 0
Indexed index [] = Unit
Indexed index (segment ∷ segments) = (segment.index ≡ pos index) × Indexed (suc index) segments

settle_segment-IsJustified :
    (inferences : List (String × Ranked)) (results : List Observed) (target : ProbeGatewayTarget)
    (segment kept : ProbeSegment)
    → Memᴰ (target, segment) results
    → settle_segment segment (lookup target.global_id inferences) ≡ some kept
    → IsJustified inferences results kept
unfolding settle_segment candidate
settle_segment-IsJustified inferences results target segment kept listed e =
    let Goal : ProbeSegment → Type 0 = IsJustified inferences results in
    elim (Option-cases (lookup target.global_id inferences)) [
      | inl f ↦ elim (Bool-cases (is_empty segment.hops)) [
        | inr g ↦
            let same : segment ≡ kept = ground arith in
            subst Goal same (recorded target segment listed g refl)
        | inl g ↦ elim (Bool-cases (has_protocol_failure segment)) [
          | inl h ↦
              let same : segment ≡ kept = ground arith in
              subst Goal same (incompatible target segment listed g f h refl)
          | inr h ↦ absurd (ground arith)
        ]
      ]
      | inr (inference, f) ↦ elim (Bool-cases (is_empty segment.hops)) [
        | inr g ↦
            let same : segment ≡ kept = ground arith in
            subst Goal same (recorded target segment listed g refl)
        | inl g ↦
            let same : candidate inference segment ≡ kept = ground arith in
            subst Goal same (inferred target segment listed g inference f refl)
      ]
    ]

settle_segments-IsJustified :
    (inferences : List (String × Ranked)) (all results : List Observed)
    → ((result : Observed) → Memᴰ result results → Memᴰ result all)
    → All (IsJustified inferences all) (settle_segments inferences results)
unfolding settle_segments
settle_segments-IsJustified inferences all [] within = tt
settle_segments-IsJustified inferences all ((target, segment) ∷ results) within =
    let rest =
      settle_segments-IsJustified inferences all results
        (λ result listed. within result (Memᴰ.tail listed)) in
    elim (Option-cases (settle_segment segment (lookup target.global_id inferences))) [
      | inl e ↦ rw (e, settle_segments) rest
      | inr (kept, e) ↦
          rw (e, settle_segments)
            (
              settle_segment-IsJustified inferences all target segment kept
                  (within (target, segment) (Memᴰ.head refl)) e,
              rest,
            )
    ]

All-insert_segment :
    (P : ProbeSegment → Type 0) (segment : ProbeSegment) (segments : List ProbeSegment)
    → P segment
    → All P segments
    → All P (insert_segment segment segments)
unfolding insert_segment
All-insert_segment P segment [] p h = (p, tt)
All-insert_segment P segment (x ∷ xs) p (q, h) = elim (Bool-cases (comes_before x segment)) [
  | inl e ↦ rw e (q, All-insert_segment P segment xs p h)
  | inr e ↦ rw e (p, (q, h))
]

All-sort_segments :
    (P : ProbeSegment → Type 0) (segments : List ProbeSegment)
    → All P segments
    → All P (sort_segments segments)
unfolding sort_segments
All-sort_segments P [] h = tt
All-sort_segments P (segment ∷ segments) (p, h) =
    All-insert_segment P segment (sort_segments segments) p (All-sort_segments P segments h)

renumbered :
    (inferences : List (String × Ranked)) (results : List Observed) (index : ℤ)
    (segment : ProbeSegment)
    → IsJustified inferences results segment
    → IsJustified inferences results (record segment { index = index })
renumbered inferences results index kept (recorded t segment m g e) =
    recorded t segment m g (ap (λ (x : ProbeSegment). record x { index = index }) e)
renumbered inferences results index kept (incompatible t segment m g f h e) =
    incompatible t segment m g f h (ap (λ (x : ProbeSegment). record x { index = index }) e)
renumbered inferences results index kept (inferred t segment m g inference f e) =
    inferred t segment m g inference f (ap (λ (x : ProbeSegment). record x { index = index }) e)

number_segments-IsJustified :
    (inferences : List (String × Ranked)) (results : List Observed) (index : ℕ)
    (segments : List ProbeSegment)
    → All (IsJustified inferences results) segments
    → All (IsJustified inferences results) (number_segments index segments)
unfolding number_segments
number_segments-IsJustified inferences results index [] h = tt
number_segments-IsJustified inferences results index (segment ∷ segments) (p, h) = (
  renumbered inferences results (pos index) segment p,
  number_segments-IsJustified inferences results (suc index) segments h,
)

number_segments-Indexed :
    (index : ℕ) (segments : List ProbeSegment) → Indexed index (number_segments index segments)
unfolding number_segments
number_segments-Indexed index [] = tt
number_segments-Indexed index (segment ∷ segments) =
    (refl, number_segments-Indexed (suc index) segments)

-- The segments of a probe are numbered 1, 2, and so on; the first is the probed gateway's, and each
-- other one is that of a target: it has records; or it has none and the rules infer the gateway of
-- that target, then with the basis and the confidence of this inference and the issue that evidence
-- is missing; or it has none, and reports an agent of another protocol.
pub complete_segments-IsJustified :
    (lib : HostLibrary) (topology : Topology) (execution : ProbeExecution) (source : ProbeSegment)
    (results : List Observed)
    → Indexed 1 (complete_segments lib topology execution source results)
      × ((others : List ProbeSegment) × (complete_segments lib topology execution source results
            ≡ record source { index = pos 1 } ∷ others)
          × All (IsJustified (inferences_of lib topology execution source results) results) others)
unfolding complete_segments number_segments
complete_segments-IsJustified lib topology execution source results =
    let inferences = inferences_of lib topology execution source results in
    let settled = sort_segments (settle_segments inferences results) in
    (
      number_segments-Indexed 1 (source ∷ settled),
      (
        number_segments 2 settled,
        refl,
        number_segments-IsJustified inferences results 2 settled (
            All-sort_segments (IsJustified inferences results) (settle_segments inferences results)
              (settle_segments-IsJustified inferences results results (λ result listed. listed))),
      ),
    )
