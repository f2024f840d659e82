-- ===== src/Kube/Readers/Pods.antt =====
-- What is read of the containers of a runtime.
use gate_lens.Common.{String, List, [], ◌∷◌, Option, none, ◌≡◌}
use gate_lens.Kube.Logs.{LogSnapshot}
use gate_lens.Kube.Probe.{ProxyPod}
use gate_lens.Kube.Readers.{
  Bytes, pod_name, max_probe_log_bytes, PodAccess, stream_failed, streamed, pod_identity,
}
use gate_lens.Kube.Readers.Tails.{IsPart}

-- The snapshot of a stream, under the pod's identity: its first bytes, from the start.
pub record IsHead (text : Bytes → String) (cluster_id : String) (pod : ProxyPod) (bytes : Bytes)
    (snapshot : LogSnapshot) : Type 0 where
  pub source : snapshot.source ≡ pod_identity cluster_id pod
  pub runtime : snapshot.runtime ≡ pod_identity cluster_id pod
  pub named : snapshot.pod ≡ pod_name pod
  pub no_file : snapshot.file_info ≡ none
  pub from_start : snapshot.offset ≡ 0
  pub content : Bytes
  pub shown : snapshot.content ≡ text content
  pub part : IsPart max_probe_log_bytes bytes content snapshot.incomplete

-- The snapshots of the pods whose streams open, in the order of the pods.
pub data AreHeads (text : Bytes → String) (cluster_id : String) (access : ProxyPod → PodAccess)
    : List ProxyPod → List LogSnapshot → Type 0 where
  no_pods : AreHeads text cluster_id access [] []
  unread :
      {pod : ProxyPod} {pods : List ProxyPod} {snapshots : List LogSnapshot}
      → (error : String) → access pod ≡ stream_failed error
      → AreHeads text cluster_id access pods snapshots
      → AreHeads text cluster_id access (pod ∷ pods) snapshots
  read :
      {pod : ProxyPod} {pods : List ProxyPod} {snapshots : List LogSnapshot}
      → (snapshot : LogSnapshot) (bytes : Bytes) (error : Option String)
      → access pod ≡ streamed bytes error
      → IsHead text cluster_id pod bytes snapshot
      → AreHeads text cluster_id access pods snapshots
      → AreHeads text cluster_id access (pod ∷ pods) (snapshot ∷ snapshots)

-- A pod whose whole stream is read.
abbrev pub StreamsWell : (ProxyPod → PodAccess) → ProxyPod → Type 0
StreamsWell access pod = (bytes : Bytes) × (access pod ≡ streamed bytes none)
