-- ===== src/Kube/Readers/Examples.antt =====
-- A file that is followed, and two pods of which one does not answer.
use gate_lens.Common.{String, List, [], ◌∷◌, none, some, ◌==◌, ◌≡◌, refl, ◌+++◌, pos, if◌then◌else◌}
use gate_lens.Kube.Logs.{FileInfo, LogSnapshot, is_rotated}
use gate_lens.Kube.Logs.Samples.{sample_collector}
use gate_lens.Kube.Probe.{ProxyPod, GatewayRuntime}
use gate_lens.Kube.Readers.{
  Bytes, FileState, opened, Reader, Reading, PodAccess, stream_failed, streamed, read_file,
  read_runtime, take, drop, read_limited, restart, tail_offset, file_snapshot, log_source,
  errors_of, join_errors, read_pods, add_pod,
}
use gate_lens.Kube.Readers.Files.{IsFileTail, read_file-IsTail}

abbrev length_text : Bytes → String
length_text [] = "empty"
length_text (_ ∷ []) = "one"
length_text (_ ∷ _ ∷ []) = "two"
length_text (_ ∷ _ ∷ _ ∷ _) = "more"

abbrev sample_reader : Reader
sample_reader = record { text = length_text; quote = λ path. path; probe_log_file = "/logs/access" }

abbrev sample_file : FileInfo
sample_file = record { file = "f1"; size = 5 }

abbrev sample_bytes : Bytes
sample_bytes = 1 ∷ 2 ∷ 3 ∷ 4 ∷ 5 ∷ []

abbrev followed : FileState
followed = record { offset = 3; previous = some (record { file = "f1"; size = 4 }) }

abbrev rotated : FileState
rotated = record { offset = 3; previous = some (record { file = "f0"; size = 4 }) }

abbrev content_of : List LogSnapshot → List String
content_of [] = []
content_of (snapshot ∷ snapshots) = snapshot.content ∷ content_of snapshots

abbrev reading_of : FileState → Reading
reading_of s = (read_file sample_collector sample_reader (opened sample_file sample_bytes) s).0

reads_on : content_of (reading_of followed).snapshots ≡ "two" ∷ []
unfolding read_file restart is_rotated file_snapshot tail_offset read_limited take drop log_source
reads_on = refl

reads_again : content_of (reading_of rotated).snapshots ≡ "more" ∷ []
unfolding read_file restart is_rotated file_snapshot tail_offset read_limited take drop log_source
reads_again = refl

read_file-IsTail_example :
    let (reading, next) =
      read_file sample_collector sample_reader (opened sample_file sample_bytes) followed in
    IsFileTail sample_collector sample_reader sample_file sample_bytes followed reading next
read_file-IsTail_example =
    read_file-IsTail sample_collector sample_reader sample_file sample_bytes followed

abbrev pod_named : String → ProxyPod
pod_named name = record {
  name = name;
  namespace = "ns";
  uid = "u-" +++ name;
  container = "envoy";
  admin_port = pos 15000;
  labels = [];
}

abbrev sample_runtime : GatewayRuntime
sample_runtime = record {
  gateway_id = "g";
  controller = "higress";
  workload_id = "w";
  workload_name = "w";
  namespace = "ns";
  pods = pod_named "a" ∷ pod_named "b" ∷ [];
}

abbrev answers : ProxyPod → PodAccess
answers pod = if pod.name == "a" then stream_failed "not found" else streamed (7 ∷ []) none

names_the_pod :
    (read_runtime length_text "c1" answers sample_runtime).error
    ≡ some "读取 Gateway Pod 日志失败: ns/a: not found"
unfolding read_runtime read_pods add_pod errors_of join_errors
names_the_pod = refl
