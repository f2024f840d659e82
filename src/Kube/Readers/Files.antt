-- ===== src/Kube/Readers/Files.antt =====
-- What is read of a file of logs.
use gate_lens.Common.{
  ℕ, ◌-◌, ◌≤◌, String, Bool, false, [], ◌∷◌, none, some, ◌≡◌, inl, inr, refl, ltb, ltb→lt,
  Bool-cases, Option-cases, true, ◌||◌, ◌+◌, ◌<◌, arith,
}
use gate_lens.Kube.Logs.{FileInfo, LogSnapshot, Collector, is_rotated}
use gate_lens.Kube.Readers.{
  Bytes, drop, read_limited, max_probe_log_bytes, FileState, opened, Reading, Reader, restart,
  tail_offset, file_snapshot, log_source, read_file,
}
use gate_lens.Kube.Readers.Tails.{read_limited-IsPart, IsPart}

-- Where the reading begins: at the kept offset, or, with a mark, 8 MiB before the end.
pub data IsPlace (size start offset : ℕ) (skipped : Bool) : Type 0 where
  at_start :
      skipped ≡ false
      → offset ≡ start
      → size - start ≤ max_probe_log_bytes
      → IsPlace size start offset skipped
  near_end :
      skipped ≡ true
      → offset + max_probe_log_bytes ≡ size
      → start < offset
      → IsPlace size start offset skipped

tail_offset-IsPlace :
    (size start : ℕ)
    → start ≤ size
    → let (offset, skipped) = tail_offset size start in IsPlace size start offset skipped
unfolding tail_offset
tail_offset-IsPlace size start h = elim (Bool-cases (ltb max_probe_log_bytes (size - start))) [
  | inl e ↦
      let long = ltb→lt max_probe_log_bytes (size - start) e in
      near_end (ground (arith, e)) (ground (arith, e, long)) (ground (arith, e, long))
  | inr e ↦ at_start (ground (arith, e)) (ground (arith, e)) (ground (arith, e))
]

-- The file that was read before is another one, or was longer.
pub data IsReplaced (same_file : FileInfo → FileInfo → Bool) (info before : FileInfo) : Type 0 where
  other_file : same_file info before ≡ false → IsReplaced same_file info before
  shorter : info.size < before.size → IsReplaced same_file info before

-- The kept offset, against the one before. At a first reading there is no file to compare with.
pub data IsKept (same_file : FileInfo → FileInfo → Bool) (info : FileInfo) (s : FileState)
    (offset : ℕ) : Type 0 where
  too_short : offset ≡ 0 → info.size < s.offset → IsKept same_file info s offset
  replaced :
      (before : FileInfo)
      → s.previous ≡ some before
      → IsReplaced same_file info before
      → offset ≡ 0
      → IsKept same_file info s offset
  first :
      s.previous ≡ none → s.offset ≤ info.size → offset ≡ s.offset → IsKept same_file info s offset
  followed :
      (before : FileInfo)
      → s.previous ≡ some before
      → same_file info before ≡ true
      → before.size ≤ info.size
      → s.offset ≤ info.size
      → offset ≡ s.offset
      → IsKept same_file info s offset

restart-IsKept :
    (same_file : FileInfo → FileInfo → Bool) (info : FileInfo) (s : FileState)
    → let next = restart same_file info s in
      (next.offset ≤ info.size) × (next.previous ≡ some info) × IsKept same_file info s next.offset
unfolding restart is_rotated
restart-IsKept same_file info s = elim (Bool-cases (ltb info.size s.offset)) [
  | inl e ↦ (ground (arith, e), refl, too_short (ground (arith, e)) (ltb→lt info.size s.offset e))
  | inr e ↦ elim (Option-cases s.previous) [
    | inl f ↦ (ground (arith, e, f), refl, first f (ground (arith, e)) (ground (arith, e, f)))
    | inr (before, f) ↦ elim (Bool-cases (same_file info before)) [
      | inr other ↦ (
        ground (arith, e, f, other),
        refl,
        replaced before f (other_file other) (ground (arith, e, f, other)),
      )
      | inl same ↦ elim (Bool-cases (ltb info.size before.size)) [
        | inl less ↦ (
          ground (arith, e, f, same, less),
          refl,
          replaced before f (shorter (ltb→lt info.size before.size less))
              (ground (arith, e, f, same, less)),
        )
        | inr more ↦ (
          ground (arith, e, f, same, more),
          refl,
          followed before f same (ground (arith, more)) (ground (arith, e))
              (ground (arith, e, f, same, more)),
        )
      ]
    ]
  ]
]

-- A snapshot of a file that is read from this offset on.
pub record IsTail (text : Bytes → String) (info : FileInfo) (start : ℕ) (bytes : Bytes)
    (snapshot : LogSnapshot) : Type 0 where
  pub unnamed : snapshot.runtime ≡ ""
  pub of_file : snapshot.file_info ≡ some info
  pub skipped : Bool
  pub place : IsPlace info.size start snapshot.offset skipped
  pub content : Bytes
  pub more : Bool
  pub part : IsPart max_probe_log_bytes (drop snapshot.offset bytes) content more
  pub shown : snapshot.content ≡ text content
  pub marked : snapshot.incomplete ≡ (more || skipped)

file_snapshot-IsTail :
    (text : Bytes → String) (source : String) (info : FileInfo) (start : ℕ) (bytes : Bytes)
    → start ≤ info.size
    → IsTail text info start bytes (file_snapshot text source info start bytes)
unfolding file_snapshot
file_snapshot-IsTail text source info start bytes h =
    let (offset, skipped) = tail_offset info.size start in
    let (content, more) = read_limited max_probe_log_bytes (drop offset bytes) in
    record {
      unnamed = refl;
      of_file = refl;
      skipped = (tail_offset info.size start).1;
      place = tail_offset-IsPlace info.size start h;
      content = (read_limited max_probe_log_bytes (drop offset bytes)).0;
      more = (read_limited max_probe_log_bytes (drop offset bytes)).1;
      part = read_limited-IsPart max_probe_log_bytes (drop offset bytes);
      shown = refl;
      marked = refl;
    }

-- The one snapshot of a file, and the offset that is kept.
pub record IsFileTail (c : Collector) (r : Reader) (info : FileInfo) (bytes : Bytes) (s : FileState)
    (reading : Reading) (next : FileState) : Type 0 where
  pub snapshot : LogSnapshot
  pub only : reading.snapshots ≡ snapshot ∷ []
  pub no_error : reading.error ≡ none
  pub tail : IsTail r.text info next.offset bytes snapshot
  pub remembered : next.previous ≡ some info
  pub kept : IsKept c.same_file info s next.offset

-- A file that can be read yields one snapshot, without a runtime. It begins at the kept offset, or,
-- if more than 8 MiB of the size that the file had lie behind that offset, 8 MiB before that size;
-- it has all bytes from there on, or the first 8 MiB of them if there are more, and it is marked as
-- incomplete exactly if bytes are passed over or left. The kept offset is 0 if the one
-- before lies behind the end, or if the file that was read before is another one or was longer; else
-- it is the one before, also at a first reading, which has no file to compare with.
pub read_file-IsTail :
    (c : Collector) (r : Reader) (info : FileInfo) (bytes : Bytes) (s : FileState)
    → let (reading, next) = read_file c r (opened info bytes) s in
      IsFileTail c r info bytes s reading next
unfolding read_file
read_file-IsTail c r info bytes s =
    let (fits, previous, kept) = restart-IsKept c.same_file info s in
    let next = restart c.same_file info s in
    record {
      snapshot = file_snapshot r.text (log_source c r) info next.offset bytes;
      only = refl;
      no_error = refl;
      tail = file_snapshot-IsTail r.text (log_source c r) info next.offset bytes fits;
      remembered = previous;
      kept = kept;
    }
