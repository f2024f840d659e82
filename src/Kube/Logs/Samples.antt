-- ===== src/Kube/Logs/Samples.antt =====
-- A collection from one gateway, for the tests.
use gate_lens.Common.{false, none, ◌==◌}
use gate_lens.Kube.Logs.{LogSnapshot, Collector}
use gate_lens.Observed.Log.Samples.{sample_library}

abbrev pub sample_collector : Collector
sample_collector = record {
  lib = sample_library;
  same_file = λ a b. a.file == b.file;
  digest = λ line. line;
  now = λ position. "now";
  probe_id = "p1";
  trace_id = "t1";
  cluster_id = "c1";
}

abbrev pub sample_snapshot : LogSnapshot
sample_snapshot = record {
  source = "c1/ns/pod";
  runtime = "c1/ns/pod";
  pod = "ns/pod";
  content = "started\nF {}";
  file_info = none;
  offset = 0;
  incomplete = false;
}
