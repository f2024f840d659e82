-- ===== src/Kube/Logs/Examples.antt =====
-- The first snapshot of a gateway's log.
use gate_lens.Kube.Logs.{empty_cache, merge}
use gate_lens.Kube.Logs.Merged.{IsOrderly, merge-IsOrderly, empty_cache-IsOrderly}
use gate_lens.Kube.Logs.Samples.{sample_collector, sample_snapshot}

merge-IsOrderly_example : IsOrderly "c1" ((merge sample_collector sample_snapshot empty_cache).0)
merge-IsOrderly_example =
    merge-IsOrderly sample_collector sample_snapshot empty_cache (empty_cache-IsOrderly "c1")
