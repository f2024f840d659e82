-- ===== src/Kube/Logs/Merged.antt =====
-- What every merging keeps.
use gate_lens.Common.{
  ℕ, ◌+◌, String, Bool, true, false, List, [], ◌∷◌, Option, none, some, ◌==◌, ◌≡◌, refl, ap, subst,
  ◌≢◌, sym, ◌∙◌, inl, inr, length, All, All-append, All-map, eq_iff, Bool-cases, Option-cases,
  arith, lookup, insert, lookup-insert, lookup-insert_self, split_lines,
}
use gate_lens.Domain.Values.{
  is_valid_probe_issue_code, probe_issue_scope_collection, ProbeIssueCode,
}
use gate_lens.Domain.Hop.{ObservedHop}
use gate_lens.Domain.Issues.{ProbeIssue}
use gate_lens.Domain.Issues.Laws.{OncePerIdentity, append_probe_issue_once}
use gate_lens.Domain.Validate.Accepted.{IsAcceptedHop}
use gate_lens.Observed.Log.Line.Evidence.{IsEvidence, parse_line-IsEvidence}
use gate_lens.Observed.Log.ExtProc.Outcome.{Concluded-IsValid}
use gate_lens.Kube.Logs.{
  LogSnapshot, LogSource, LogCache, Collector, Scan, placed, keep_record, scan_matched, read_line,
  scan_line, scan_lines, scan_snapshot, start_scan, open_source, open_issues, close_source, merge,
  note, note_if, source_in, empty_source, empty_cache, collection_issue, line_key, count_of,
  identity_line,
}
use gate_lens.Kube.Logs.Records.{
  Numbered, Numbered-snoc, record_name-ne, sequences_of, sequences_of-next, sequences_of-other,
  numbers, record_name,
}

-- A record of a cache: the server accepts it, but for its being distinct, and its source is known.
pub record IsKept (cluster : String) (hop : ObservedHop) : Type 0 where
  pub accepted : IsAcceptedHop cluster hop
  pub sourced : hop.evidence_source ≡ hop.log_source_id

-- An issue of a collection that names no record.
pub record IsNote (issue : ProbeIssue) : Type 0 where
  pub scoped : issue.scope ≡ probe_issue_scope_collection
  pub unnamed : issue.hop_id ≡ ""
  pub coded : is_valid_probe_issue_code issue.code ≡ true

pub record Noted (issues : List ProbeIssue) : Type 0 where
  pub notes : All IsNote issues
  pub once : OncePerIdentity issues

-- The records of the cache are named by their places, are acceptable records of the cluster, and
-- those of each source are numbered 1, 2, and so on up to the source's counter, in their order;
-- the issues are notes of which no identity stands twice.
pub record IsOrderly (cluster : String) (cache : LogCache) : Type 0 where
  pub numbered : Numbered 0 cache.hops
  pub kept : All (IsKept cluster) cache.hops
  pub ordered :
      (name : String)
      → sequences_of name cache.hops ≡ numbers 0 (source_in name cache.sources).sequence
  pub noted : Noted cache.issues

-- The same within the loop over a snapshot's lines, from the records `before` on.
record IsOrderlyScan (cluster name : String) (before : List ObservedHop) (s : Scan) : Type 0 where
  numbered : Numbered 0 s.hops
  kept : All (IsKept cluster) s.hops
  ordered : sequences_of name s.hops ≡ numbers 0 s.sequence
  others : (other : String) → other ≢ name → sequences_of other s.hops ≡ sequences_of other before

pub empty_cache-IsOrderly : (cluster : String) → IsOrderly cluster empty_cache
unfolding lookup
empty_cache-IsOrderly cluster = record {
  numbered = tt;
  kept = tt;
  ordered = λ name. refl;
  noted = record { notes = tt; once = tt };
}

pub note-Noted :
    (code : ProbeIssueCode) (message : String) (issues : List ProbeIssue)
    → is_valid_probe_issue_code code ≡ true
    → Noted issues
    → Noted (note code message issues)
unfolding note
note-Noted code message issues valid h =
    let issue = collection_issue code message in
    let (once, _, which) = append_probe_issue_once issues issue h.once in
    let is_note : IsNote issue = record { scoped = refl; unnamed = refl; coded = valid } in
    elim which [
      | inl (_, same) ↦ record { notes = subst (All IsNote) (sym same) h.notes; once = once }
      | inr (_, longer) ↦ record {
        notes =
            subst (All IsNote) (sym longer)
              (All-append IsNote issues (issue ∷ []) h.notes (is_note, tt));
        once = once;
      }
    ]

note_if-Noted :
    (test : Bool) (code : ProbeIssueCode) (message : String) (issues : List ProbeIssue)
    → is_valid_probe_issue_code code ≡ true
    → Noted issues
    → Noted (note_if test code message issues)
unfolding note_if
note_if-Noted true code message issues valid h = note-Noted code message issues valid h
note_if-Noted false code message issues valid h = h

placed-IsKept :
    (c : Collector) (snapshot : LogSnapshot) (index sequence : ℕ) (hop : ObservedHop)
    → IsEvidence c.lib c.cluster_id snapshot.pod snapshot.source hop
    → IsKept c.cluster_id (placed snapshot index sequence hop)
unfolding placed
placed-IsKept c snapshot index sequence hop e = record {
  accepted = record {
    identified = record_name-ne index;
    owned = e.owned;
    correlated = inr e.correlated;
    observed = e.observed;
    processed = All-map hop.ext_procs (Concluded-IsValid c.lib) e.processed;
  };
  sourced = e.sourced;
}

keep_record-IsOrderly :
    (c : Collector) (snapshot : LogSnapshot) (key : String) (hop : ObservedHop)
    (before : List ObservedHop) (s : Scan)
    → IsEvidence c.lib c.cluster_id snapshot.pod snapshot.source hop
    → IsOrderlyScan c.cluster_id snapshot.source before s
    → IsOrderlyScan c.cluster_id snapshot.source before (keep_record snapshot key hop s)
unfolding keep_record placed
keep_record-IsOrderly c snapshot key hop before s e o = elim (Option-cases (lookup key s.seen)) [
  | inr (_, f) ↦ rw (f, keep_record) o
  | inl f ↦
      rw (f, keep_record)
        (let new = placed snapshot (length s.hops) (s.sequence + 1) hop in
          record {
            numbered =
                Numbered-snoc 0 s.hops new o.numbered
                  (ap record_name {y = 0 + length s.hops} (omega arith));
            kept =
                All-append (IsKept c.cluster_id) s.hops (new ∷ []) o.kept
                  (placed-IsKept c snapshot _ _ hop e, tt);
            ordered = sequences_of-next snapshot.source s.hops new s.sequence refl refl o.ordered;
            others = λ other apart.
                sequences_of-other other s.hops new (λ same. apart (sym same))
                ∙ o.others other apart;
          })
]

read_line-IsEvidence :
    (c : Collector) (snapshot : LogSnapshot) (position : ℕ) (line : String) (hop : ObservedHop)
    → read_line c snapshot position line ≡ some hop
    → IsEvidence c.lib c.cluster_id snapshot.pod snapshot.source hop
unfolding read_line
read_line-IsEvidence c snapshot position line hop e =
    parse_line-IsEvidence c.lib (c.now position) line c.probe_id c.trace_id c.cluster_id
      snapshot.pod snapshot.source hop e

scan_line-IsOrderly :
    (c : Collector) (snapshot : LogSnapshot) (generation : ℕ) (line : String)
    (before : List ObservedHop) (s : Scan)
    → IsOrderlyScan c.cluster_id snapshot.source before s
    → IsOrderlyScan c.cluster_id snapshot.source before (scan_line c snapshot generation line s)
unfolding scan_line scan_matched
scan_line-IsOrderly c snapshot generation line before s o =
    elim (Option-cases (read_line c snapshot s.position line)) [
      | inl f ↦
          rw (f, scan_line)
            (record {
              numbered = o.numbered;
              kept = o.kept;
              ordered = o.ordered;
              others = o.others;
            })
      | inr (hop, f) ↦
          let fingerprint = c.digest (identity_line line) in
          let key =
            line_key snapshot.file_info generation s.position fingerprint
              (count_of fingerprint s.occurrences + 1) in
          let kept =
            keep_record-IsOrderly c snapshot key hop before s
              (read_line-IsEvidence c snapshot s.position line hop f) o in
          rw (f, scan_line)
            (record {
              numbered = kept.numbered;
              kept = kept.kept;
              ordered = kept.ordered;
              others = kept.others;
            })
    ]

scan_lines-IsOrderly :
    (c : Collector) (snapshot : LogSnapshot) (generation : ℕ) (lines : List String)
    (before : List ObservedHop) (s : Scan)
    → IsOrderlyScan c.cluster_id snapshot.source before s
    → IsOrderlyScan c.cluster_id snapshot.source before (scan_lines c snapshot generation lines s)
unfolding scan_lines
scan_lines-IsOrderly c snapshot generation [] before s o = o
scan_lines-IsOrderly c snapshot generation (line ∷ lines) before s o =
    scan_lines-IsOrderly c snapshot generation lines before _
      (scan_line-IsOrderly c snapshot generation line before s o)

open_issues-Noted :
    (c : Collector) (snapshot : LogSnapshot) (source : LogSource) (issues : List ProbeIssue)
    → Noted issues
    → Noted (open_issues c snapshot source issues)
unfolding open_issues is_valid_probe_issue_code
open_issues-Noted c snapshot source issues h =
    note_if-Noted _ _ _ _ refl (note_if-Noted _ _ _ _ refl h)

source_in-own :
    (name : String) (source : LogSource) (sources : List (String × LogSource))
    → source_in name (insert name source sources) ≡ source
source_in-own name source sources = ground (arith, lookup-insert_self name source sources)

source_in-other :
    (name other : String) (source : LogSource) (sources : List (String × LogSource))
    → (name == other) ≡ false
    → source_in other (insert name source sources) ≡ source_in other sources
source_in-other name other source sources e =
    ap (λ (found : Option LogSource). elim found [ none ↦ empty_source | some source ↦ source ])
      {x = lookup other (insert name source sources)} {y = lookup other sources}
      (ground (arith, lookup-insert name other source sources))

-- Whatever snapshot is merged, an orderly cache stays orderly.
pub merge-IsOrderly :
    (c : Collector) (snapshot : LogSnapshot) (cache : LogCache)
    → IsOrderly c.cluster_id cache
    → IsOrderly c.cluster_id ((merge c snapshot cache).0)
unfolding merge scan_snapshot close_source open_source is_valid_probe_issue_code
merge-IsOrderly c snapshot cache h =
    let found = source_in snapshot.source cache.sources in
    let source = open_source c snapshot found in
    let start = start_scan snapshot source cache.hops in
    let after =
      scan_lines-IsOrderly c snapshot source.generation (split_lines snapshot.content) cache.hops
        start
        (record {
          numbered = h.numbered;
          kept = h.kept;
          ordered = h.ordered snapshot.source;
          others = λ other apart. refl;
        }) in
    let s = scan_snapshot c snapshot source cache.hops in
    let closed = close_source source s in
    let sources = insert snapshot.source closed cache.sources in
    record {
      numbered = after.numbered;
      kept = after.kept;
      ordered = λ name. elim (Bool-cases (snapshot.source == name)) [
        | inl e ↦
            subst (λ (n : String). sequences_of n s.hops ≡ numbers 0 (source_in n sources).sequence)
              ((eq_iff snapshot.source name).0 e)
              (after.ordered
                ∙ ap (λ (x : LogSource). numbers 0 x.sequence)
                    (sym (source_in-own snapshot.source closed cache.sources)))
        | inr e ↦
            after.others name (λ same. ground (arith, eq_iff snapshot.source name, sym same))
            ∙ h.ordered name
            ∙ ap (λ (x : LogSource). numbers 0 x.sequence)
                (sym (source_in-other snapshot.source name closed cache.sources e))
      ];
      noted = note_if-Noted _ _ _ _ refl (open_issues-Noted c snapshot found cache.issues h.noted);
    }
