-- ===== src/Observed/Log/ExtProc/Examples.antt =====
-- The ext_proc fields of an entry whose call failed open.
use gate_lens.Common.{◌≡◌, ◌↔◌}
use gate_lens.Domain.Values.{ext_proc_outcome_fail_open}
use gate_lens.Domain.Hop.{ExtProcObservation}
use gate_lens.Observed.Log.Samples.{sample_entry, sample_library}
use gate_lens.Observed.Log.ExtProc.{gather, outcome_of}
use gate_lens.Observed.Log.ExtProc.Outcome.{HasOutcome, outcome_of_iff}

abbrev sample_observation : ExtProcObservation
sample_observation = gather sample_library sample_entry "" ""

outcome_of_iff_example :
    (outcome_of sample_library sample_observation ≡ ext_proc_outcome_fail_open)
    ↔ HasOutcome sample_library sample_observation ext_proc_outcome_fail_open
outcome_of_iff_example = outcome_of_iff sample_library sample_observation ext_proc_outcome_fail_open
