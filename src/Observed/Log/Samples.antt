-- ===== src/Observed/Log/Samples.antt =====
-- A decoder of one line, for the tests: any JSON is the same entry.
use gate_lens.Common.{pos, true, [], none, some, ◌==◌, if◌then◌else◌}
use gate_lens.Observed.Log.{HigressAccessLog, LogLibrary}
use gate_lens.Observed.Log.ExtProc.{no_entry}

abbrev pub sample_entry : HigressAccessLog
sample_entry = record no_entry {
  gatelens_probe_id = "p1";
  authority = "api.example";
  method = "GET";
  path = "/v1?token=x";
  start_time = "2026-01-01T00:00:00Z";
  downstream_remote_address = "10.0.0.9:4711";
  response_code = "200";
  ext_proc_processor = "router";
  ext_proc_failed_open = true;
}

abbrev pub sample_library : LogLibrary
sample_library = record {
  decode_string = λ raw. some raw;
  decode_number = λ raw. some raw;
  decode_bool = λ raw. none;
  decode_raw = λ raw. some [];
  decode_object = λ raw. none;
  decode_entry = λ scalar bool json. some sample_entry;
  parse_int = λ value. if value == "200" then pos 200 else pos 0;
  format_int = λ n. "";
  equal_fold = λ a b. a == b;
  to_lower = λ value. value;
}
