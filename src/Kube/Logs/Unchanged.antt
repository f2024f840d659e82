-- ===== src/Kube/Logs/Unchanged.antt =====
-- A merging that reports no change adds no record.
use gate_lens.Common.{
  ℕ, String, false, List, [], ◌∷◌, ◌≡◌, refl, sym, subst, ◌∙◌, inl, inr, Option-cases, arith,
  lookup, split_lines,
}
use gate_lens.Domain.Hop.{ObservedHop}
use gate_lens.Kube.Logs.{
  LogSnapshot, LogCache, Collector, Scan, keep_record, scan_matched, read_line, scan_line,
  scan_lines, scan_snapshot, merge,
}

abbrev Kept : Scan → Scan → Type 0
Kept before after = (before.changed ≡ false) × (after.hops ≡ before.hops)

keep_record-Kept :
    (snapshot : LogSnapshot) (key : String) (hop : ObservedHop) (s : Scan)
    → (keep_record snapshot key hop s).changed ≡ false
    → Kept s (keep_record snapshot key hop s)
unfolding keep_record
keep_record-Kept snapshot key hop s e = elim (Option-cases (lookup key s.seen)) [
  | inl f ↦ absurd (ground arith)
  | inr (_, f) ↦ ground arith
]

scan_matched-Kept :
    (c : Collector) (snapshot : LogSnapshot) (generation : ℕ) (line : String) (hop : ObservedHop)
    (s : Scan)
    → (scan_matched c snapshot generation line hop s).changed ≡ false
    → Kept s (scan_matched c snapshot generation line hop s)
unfolding scan_matched
scan_matched-Kept c snapshot generation line hop s e = keep_record-Kept snapshot _ hop s e

scan_line-Kept :
    (c : Collector) (snapshot : LogSnapshot) (generation : ℕ) (line : String) (s : Scan)
    → (scan_line c snapshot generation line s).changed ≡ false
    → Kept s (scan_line c snapshot generation line s)
unfolding scan_line
scan_line-Kept c snapshot generation line s e =
    elim (Option-cases (read_line c snapshot s.position line)) [
      | inl f ↦ ground arith
      | inr (hop, f) ↦
          let matched = scan_matched c snapshot generation line hop s in
          let same : scan_line c snapshot generation line s ≡ matched = ground arith in
          subst (λ (t : Scan). t.changed ≡ false → Kept s t) (sym same)
            (scan_matched-Kept c snapshot generation line hop s) e
    ]

scan_lines-Kept :
    (c : Collector) (snapshot : LogSnapshot) (generation : ℕ) (lines : List String) (s : Scan)
    → (scan_lines c snapshot generation lines s).changed ≡ false
    → Kept s (scan_lines c snapshot generation lines s)
unfolding scan_lines
scan_lines-Kept c snapshot generation [] s e = (e, refl)
scan_lines-Kept c snapshot generation (line ∷ lines) s e =
    let next = scan_line c snapshot generation line s in
    let (same, hops) = scan_lines-Kept c snapshot generation lines next e in
    let (before, first) = scan_line-Kept c snapshot generation line s same in (before, hops ∙ first)

pub merge-unchanged :
    (c : Collector) (snapshot : LogSnapshot) (cache : LogCache)
    → (merge c snapshot cache).1 ≡ false
    → (merge c snapshot cache).0.hops ≡ cache.hops
unfolding merge scan_snapshot
merge-unchanged c snapshot cache e =
    (scan_lines-Kept c snapshot _ (split_lines snapshot.content) _ e).1
