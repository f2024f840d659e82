-- ===== src/Kube/Logs.antt =====
-- The records of a gateway that belong to a probe: internal/kube/probe_logs.go. The identity of
-- files, the digest of a line and the clock are arguments.
pub mod Records
pub mod Samples
mod Examples
pub mod Merged
pub mod Unchanged
pub mod Window
use gate_lens.Common.{
  ℕ, zero, suc, ◌+◌, String, ℤ, pos, Bool, true, false, List, [], ◌∷◌, ◌++◌, Option, none, some,
  ◌==◌, ◌&&◌, ◌||◌, not, any, length, is_empty, ltb, nat_eq, if◌then◌else◌, ◌+++◌, trim_space,
  split_lines, byte_length, lookup, insert,
}
use gate_lens.Domain.Values.{
  ProbeIssueCode, ProbeCollectionState, probe_issue_scope_collection,
  probe_issue_code_log_source_rotated, probe_issue_code_log_window_truncated,
  probe_issue_code_log_order_unconfirmed,
}
use gate_lens.Domain.Hop.{ObservedHop}
use gate_lens.Domain.Issues.{ProbeIssue, append_probe_issue, breaks_log_order}
use gate_lens.Observed.Values.{decimal}
use gate_lens.Observed.Log.{LogLibrary}
use gate_lens.Observed.Log.Line.{from_brace, parse_higress_line_for_probe}

-- os.FileInfo: what tells files apart, and the size.
pub record FileInfo : Type 0 where
  pub file : String
  pub size : ℕ

pub record LogSnapshot : Type 0 where
  pub source : String
  pub runtime : String
  pub pod : String
  pub content : String
  pub file_info : Option FileInfo
  pub offset : ℕ
  pub incomplete : Bool

-- probeLogSourceCache
pub record LogSource : Type 0 where
  pub seen : List (String × ℕ)
  pub previous : List String
  pub file_info : Option FileInfo
  pub generation : ℕ
  pub sequence : ℕ
  pub uncertain : Bool

-- probeLogCache
pub record LogCache : Type 0 where
  pub sources : List (String × LogSource)
  pub hops : List ObservedHop
  pub issues : List ProbeIssue

-- The arguments of the collection: the probe, the cluster and what the libraries do.
pub record Collector : Type 0 where
  pub lib : LogLibrary
  pub same_file : FileInfo → FileInfo → Bool
  pub digest : String → String
  pub now : ℕ → String
  pub probe_id : String
  pub trace_id : String
  pub cluster_id : String

abbrev pub empty_source : LogSource
empty_source = record {
  seen = [];
  previous = [];
  file_info = none;
  generation = 0;
  sequence = 0;
  uncertain = false;
}

abbrev pub empty_cache : LogCache
empty_cache = record { sources = []; hops = []; issues = [] }

abbrev pub collection_issue : ProbeIssueCode → String → ProbeIssue
collection_issue code message = record {
  scope = probe_issue_scope_collection;
  code = code;
  message = message;
  context_id = "";
  hop_id = "";
}

-- The method addIssue, on the issues.
pub note : ProbeIssueCode → String → List ProbeIssue → List ProbeIssue
note code message issues = append_probe_issue issues (collection_issue code message)

pub note_if : Bool → ProbeIssueCode → String → List ProbeIssue → List ProbeIssue
note_if test code message issues = if test then note code message issues else issues

abbrev pub source_in : String → List (String × LogSource) → LogSource
source_in name sources = elim (lookup name sources) [ none ↦ empty_source | some source ↦ source ]

-- The state of the loop over the lines.
pub record Scan : Type 0 where
  pub occurrences : List (String × ℕ)
  pub current : List String
  pub changed : Bool
  pub position : ℕ
  pub seen : List (String × ℕ)
  pub sequence : ℕ
  pub hops : List ObservedHop

abbrev pub count_of : String → List (String × ℕ) → ℕ
count_of key counts = elim (lookup key counts) [ none ↦ 0 | some n ↦ n ]

pub line_key : Option FileInfo → ℕ → ℕ → String → ℕ → String
line_key none generation position fingerprint occurrence =
    fingerprint +++ "/" +++ decimal occurrence
line_key (some _) generation position fingerprint occurrence =
    decimal generation +++ "/" +++ decimal position +++ "/" +++ fingerprint

-- A CRI prefix is no part of the line's identity.
pub identity_line : String → String
identity_line line =
    let trimmed = trim_space line in elim (from_brace trimmed) [ none ↦ trimmed | some json ↦ json ]

-- The record with its place in the cache and in its source.
pub placed : LogSnapshot → ℕ → ℕ → ObservedHop → ObservedHop
placed snapshot index sequence hop = record hop {
  id = "record-" +++ decimal (index + 1);
  log_source_id = snapshot.source;
  runtime_source = snapshot.runtime;
  log_sequence = pos sequence;
}

-- The end of a round for a key: a key that is seen already changes nothing more.
pub keep_record : LogSnapshot → String → ObservedHop → Scan → Scan
keep_record snapshot key hop s = elim (lookup key s.seen) [
  | some _ ↦ s
  | none ↦ record s {
    changed = true;
    seen = insert key (length s.hops) s.seen;
    sequence = s.sequence + 1;
    hops = s.hops ++ placed snapshot (length s.hops) (s.sequence + 1) hop ∷ [];
  }
]

-- The tests of the files' identity and size.
unfoldable pub is_rotated : (FileInfo → FileInfo → Bool) → Option FileInfo → Option FileInfo → Bool
is_rotated same_file none before = false
is_rotated same_file (some info) none = false
is_rotated same_file (some info) (some before) =
    not (same_file info before) || ltb info.size before.size

-- Does the second list begin with the first one?
pub begins_with : List String → List String → Bool
begins_with [] keys = true
begins_with (x ∷ xs) [] = false
begins_with (x ∷ xs) (key ∷ keys) = key == x && begins_with xs keys

abbrev pub start_scan : LogSnapshot → LogSource → List ObservedHop → Scan
start_scan snapshot source hops = record {
  occurrences = [];
  current = [];
  changed = false;
  position = snapshot.offset;
  seen = source.seen;
  sequence = source.sequence;
  hops = hops;
}

-- The end of merge: the keys seen before must come first again.
pub close_source : LogSource → Scan → LogSource
close_source source s = record source {
  seen = s.seen;
  sequence = s.sequence;
  previous = s.current;
  uncertain = source.uncertain || not (begins_with source.previous s.current);
}

module _ (c : Collector) where
  pub scan_matched : LogSnapshot → ℕ → String → ObservedHop → Scan → Scan
  scan_matched snapshot generation line hop s =
      let fingerprint = c.digest (identity_line line) in
      let occurrence = count_of fingerprint s.occurrences + 1 in
      let key = line_key snapshot.file_info generation s.position fingerprint occurrence in
      let kept = keep_record snapshot key hop s in
      record kept {
        occurrences = insert fingerprint occurrence s.occurrences;
        current = s.current ++ key ∷ [];
        position = s.position + (byte_length line + 1);
      }

  pub read_line : LogSnapshot → ℕ → String → Option ObservedHop
  read_line snapshot position line =
      parse_higress_line_for_probe c.lib (c.now position) line c.probe_id c.trace_id c.cluster_id
        snapshot.pod snapshot.source

  pub scan_line : LogSnapshot → ℕ → String → Scan → Scan
  scan_line snapshot generation line s = elim (read_line snapshot s.position line) [
    | none ↦ record s { position = s.position + (byte_length line + 1) }
    | some hop ↦ scan_matched snapshot generation line hop s
  ]

  pub scan_lines : LogSnapshot → ℕ → List String → Scan → Scan
  scan_lines snapshot generation [] s = s
  scan_lines snapshot generation (line ∷ lines) s =
      scan_lines snapshot generation lines (scan_line snapshot generation line s)

  -- The source and the issues before the loop.
  pub open_source : LogSnapshot → LogSource → LogSource
  open_source snapshot source =
      let rotated = is_rotated c.same_file snapshot.file_info source.file_info in
      record source {
        file_info = snapshot.file_info;
        generation = if rotated then source.generation + 1 else source.generation;
        uncertain = source.uncertain || rotated || snapshot.incomplete;
      }

  pub open_issues : LogSnapshot → LogSource → List ProbeIssue → List ProbeIssue
  open_issues snapshot source issues =
      note_if snapshot.incomplete probe_issue_code_log_window_truncated "日志读取窗口被截断，来源连续性未确认" (
        note_if (is_rotated c.same_file snapshot.file_info source.file_info)
          probe_issue_code_log_source_rotated "访问日志文件发生轮转或截断，来源连续性未确认" issues)

  -- The records of a snapshot, from the source as it is before the loop.
  pub scan_snapshot : LogSnapshot → LogSource → List ObservedHop → Scan
  scan_snapshot snapshot source hops =
      scan_lines snapshot source.generation (split_lines snapshot.content)
        (start_scan snapshot source hops)

  pub merge : LogSnapshot → LogCache → LogCache × Bool
  merge snapshot cache =
      let found = source_in snapshot.source cache.sources in
      let source = open_source snapshot found in
      let s = scan_snapshot snapshot source cache.hops in
      (
        record {
          sources = insert snapshot.source (close_source source s) cache.sources;
          hops = s.hops;
          issues =
              note_if (not (begins_with source.previous s.current))
                probe_issue_code_log_order_unconfirmed "日志快照发生截断或重叠无法定位，来源顺序未确认"
                (open_issues snapshot found cache.issues);
        },
        s.changed,
      )
