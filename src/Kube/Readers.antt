-- ===== src/Kube/Readers.antt =====
-- What a round reads: observeProbeWindow of internal/kube/probe_logs.go. What the file system and
-- the cluster answer, the texts of bytes and quoted paths are arguments.
pub mod Tails
pub mod Files
pub mod Pods
mod Examples
use gate_lens.Common.{
  ℕ, zero, suc, ◌+◌, ◌-◌, ◌*◌, String, Bool, true, false, List, [], ◌∷◌, Option, none, some, ◌==◌,
  ◌||◌, length, ltb, if◌then◌else◌, ◌+++◌,
}
use gate_lens.Kube.Logs.{FileInfo, LogSnapshot, Collector, is_rotated}
use gate_lens.Kube.Logs.Window.{WindowContext, Round, LogResult, collect_probe_window}
use gate_lens.Kube.Probe.{ProxyPod, GatewayRuntime}

abbrev pub max_probe_log_bytes : ℕ
max_probe_log_bytes = 8 * 1024 * 1024

abbrev pub Bytes : Type 0
Bytes = List ℕ

pub take : ℕ → Bytes → Bytes
take zero bytes = []
take (suc n) [] = []
take (suc n) (byte ∷ bytes) = byte ∷ take n bytes

pub drop : ℕ → Bytes → Bytes
drop zero bytes = bytes
drop (suc n) [] = []
drop (suc n) (byte ∷ bytes) = drop n bytes

-- Reading with the limit of a byte more than the maximum, and whether there is more than that.
pub read_limited : ℕ → Bytes → Bytes × Bool
read_limited max bytes =
    let content = take (suc max) bytes in
    if ltb max (length content) then (take max content, true) else (content, false)

-- os.Open, Stat, Seek and ReadAll on the file: the first error, or the file's bytes.
pub data FileAccess : Type 0 where
  open_failed stat_failed : String → FileAccess
  seek_failed content_failed : FileInfo → String → FileAccess
  opened : FileInfo → Bytes → FileAccess

-- The variables fileOffset and previousFile.
pub record FileState : Type 0 where
  pub offset : ℕ
  pub previous : Option FileInfo

-- What the closure `read` returns.
pub record Reading : Type 0 where
  pub snapshots : List LogSnapshot
  pub error : Option String

abbrev pub failed : String → Reading
failed error = record { snapshots = []; error = some error }

-- The file is read from its start once it is another file or a shorter one.
pub restart : (FileInfo → FileInfo → Bool) → FileInfo → FileState → FileState
restart same_file info s = record {
  offset =
      if ltb info.size s.offset || is_rotated same_file (some info) s.previous then 0 else s.offset;
  previous = some info;
}

-- The offset of the last bytes that fit, and whether that passes over others.
pub tail_offset : ℕ → ℕ → ℕ × Bool
tail_offset size offset =
    if ltb max_probe_log_bytes (size - offset)
    then (size - max_probe_log_bytes, true)
    else (offset, false)

-- A file alone does not tell the container, so the snapshot has no runtime.
pub file_snapshot : (Bytes → String) → String → FileInfo → ℕ → Bytes → LogSnapshot
file_snapshot text source info start bytes =
    let (offset, skipped) = tail_offset info.size start in
    let (content, more) = read_limited max_probe_log_bytes (drop offset bytes) in
    record {
      source = source;
      runtime = "";
      pod = "";
      content = text content;
      file_info = some info;
      offset = offset;
      incomplete = more || skipped;
    }

-- The stream of a container's log: no stream, or its bytes and an error behind them.
pub data PodAccess : Type 0 where
  stream_failed : String → PodAccess
  streamed : Bytes → Option String → PodAccess

abbrev pub pod_name : ProxyPod → String
pod_name pod = pod.namespace +++ "/" +++ pod.name

pub pod_identity : String → ProxyPod → String
pod_identity cluster_id pod =
    cluster_id +++ "/" +++ pod_name pod +++ "/" +++ pod.uid +++ "/" +++ pod.container

pub pod_snapshot : (Bytes → String) → String → ProxyPod → Bytes → LogSnapshot
pod_snapshot text cluster_id pod bytes =
    let identity = pod_identity cluster_id pod in
    let (content, more) = read_limited max_probe_log_bytes bytes in
    record {
      source = identity;
      runtime = identity;
      pod = pod_name pod;
      content = text content;
      file_info = none;
      offset = 0;
      incomplete = more;
    }

abbrev pub read_error : ProxyPod → String → String
read_error pod error = pod_name pod +++ ": " +++ error

abbrev pub note_error : ProxyPod → Option String → List String → List String
note_error pod none errors = errors
note_error pod (some error) errors = read_error pod error ∷ errors

-- A pod's share of the snapshots and the errors, in front of those of the pods behind it.
pub add_pod :
    (Bytes → String)
    → String
    → ProxyPod
    → PodAccess
    → List LogSnapshot × List String
    → List LogSnapshot × List String
add_pod text cluster_id pod (stream_failed error) (snapshots, errors) =
    (snapshots, read_error pod error ∷ errors)
add_pod text cluster_id pod (streamed bytes error) (snapshots, errors) =
    (pod_snapshot text cluster_id pod bytes ∷ snapshots, note_error pod error errors)

-- The loop over the pods.
pub read_pods :
    (Bytes → String)
    → String
    → (ProxyPod → PodAccess)
    → List ProxyPod
    → List LogSnapshot × List String
read_pods text cluster_id access [] = ([], [])
read_pods text cluster_id access (pod ∷ pods) =
    add_pod text cluster_id pod (access pod) (read_pods text cluster_id access pods)

-- strings.Join with a semicolon.
join_errors : String → List String → String
join_errors error [] = error
join_errors error (next ∷ errors) = error +++ "; " +++ join_errors next errors

pub errors_of : List String → Option String
errors_of [] = none
errors_of (error ∷ errors) = some ("读取 Gateway Pod 日志失败: " +++ join_errors error errors)

pub read_runtime : (Bytes → String) → String → (ProxyPod → PodAccess) → GatewayRuntime → Reading
read_runtime text cluster_id access runtime =
    let (snapshots, errors) = read_pods text cluster_id access runtime.pods in
    record { snapshots = snapshots; error = errors_of errors }

-- The arguments of the reader: the texts of bytes, quoting, and the path of the file, empty
-- without one.
pub record Reader : Type 0 where
  pub text : Bytes → String
  pub quote : String → String
  pub probe_log_file : String

-- What one call of the closure meets, with what its round sees besides.
pub record View : Type 0 where
  pub before : WindowContext
  pub file : FileAccess
  pub pod : ProxyPod → PodAccess
  pub after : WindowContext
  pub late : WindowContext
  pub now : ℕ
  pub printed : String

module _ (c : Collector) (r : Reader) where
  pub log_source : String
  log_source = if r.probe_log_file == "" then "kubernetes-pod-log" else "file:" +++ r.probe_log_file

  -- Reading from the file, with the variables after it; they change before the file is sought.
  pub read_file : FileAccess → FileState → Reading × FileState
  read_file (open_failed error) s =
      (failed ("读取访问日志文件 " +++ r.quote r.probe_log_file +++ ": " +++ error), s)
  read_file (stat_failed error) s = (failed error, s)
  read_file (seek_failed info error) s = (failed error, restart c.same_file info s)
  read_file (content_failed info error) s = (failed error, restart c.same_file info s)
  read_file (opened info bytes) s =
      let next = restart c.same_file info s in
      (
        record {
          snapshots = file_snapshot r.text log_source info next.offset bytes ∷ [];
          error = none;
        },
        next,
      )

  -- The closure `read`.
  pub read_logs : GatewayRuntime → View → FileState → Reading × FileState
  read_logs runtime view s =
      if r.probe_log_file == ""
      then (read_runtime r.text c.cluster_id view.pod runtime, s)
      else read_file view.file s

  abbrev pub round_of : View → Reading → Round
  round_of view reading = record {
    before = view.before;
    snapshots = reading.snapshots;
    error = reading.error;
    after = view.after;
    late = view.late;
    now = view.now;
    printed = view.printed;
  }

  -- The rounds that meet the views, one after the other.
  pub rounds_of : GatewayRuntime → List View → FileState → List Round
  rounds_of runtime [] s = []
  rounds_of runtime (view ∷ views) s =
      let (reading, next) = read_logs runtime view s in
      round_of view reading ∷ rounds_of runtime views next

  -- The settling time is 500 milliseconds.
  pub observe_probe_window : GatewayRuntime → ℕ → List View → Option LogResult
  observe_probe_window runtime offset views =
      collect_probe_window c 500
        (rounds_of runtime views (record { offset = offset; previous = none }))
