-- ===== src/Observed/Log/Line.antt =====
-- One line of a log: ParseHigressLineForProbe, ParseHigressLinesForProbe and parseAIRouting of
-- internal/observed/higress_log.go.
pub mod Evidence
mod Examples
use Prim.Native.Char.{code}
use Prim.Native.String
use gate_lens.Common.{
  ℕ, zero, suc, String, ℤ, Bool, true, false, List, [], ◌∷◌, map, Option, none, some, ◌==◌, ◌&&◌,
  ◌||◌, not, nat_eq, is_some, if◌then◌else◌, trim_space, has_prefix, cut, lookup, pos,
}
use gate_lens.Domain.Values.{
  ProbeCorrelation, probe_correlation_probe_id, probe_correlation_trace_id,
  observation_confidence_observed,
}
use gate_lens.Domain.Hop.{AiRoutingSummary, ObservedHop}
use gate_lens.Observed.Values.{valid_log_value, is_internal_redirect}
use gate_lens.Observed.Log.{HigressAccessLog, LogLibrary, unmarshal_scalar, unmarshal_bool, integer}
use gate_lens.Observed.Log.ExtProc.{parse_ext_proc_observations}

-- The text from the first `{` on, if there is one.
unfoldable pub from_brace : String → Option String
from_brace String.[] = none
from_brace (String.◌∷◌ c s) =
    let later = from_brace s in if nat_eq (code c) b'{' then some (String.◌∷◌ c s) else later

pub redact_query : String → String
redact_query path = elim (cut path "?") [ none ↦ path | some (front, query) ↦ front ]

-- The first so many runes.
pub take_runes : ℕ → String → String
take_runes zero s = ""
take_runes (suc n) String.[] = ""
take_runes (suc n) (String.◌∷◌ c s) = String.◌∷◌ c (take_runes n s)

abbrev pub is_blank_routing : AiRoutingSummary → Bool
is_blank_routing summary =
    summary.provider == ""
    && summary.request_model == ""
    && summary.upstream_model == ""
    && summary.response_model == ""

abbrev pub or_no_fields : Option (List (String × String)) → List (String × String)
or_no_fields none = []
or_no_fields (some fields) = fields

module _ (lib : LogLibrary) where
  -- The closure `read`.
  pub read_routing : List (String × String) → String → String
  read_routing fields key = elim (lookup key fields) [
    | none ↦ ""
    | some raw ↦ elim (lib.decode_string raw) [ none ↦ "" | some value ↦ take_runes 1024 value ]
  ]

  pub parse_ai_routing : String → Option AiRoutingSummary
  parse_ai_routing value = elim (lib.decode_raw value) [
    | none ↦ none
    | some fields ↦
        let summary : AiRoutingSummary = record {
          provider = read_routing fields "provider";
          request_model = read_routing fields "request_model";
          upstream_model = read_routing fields "upstream_model";
          response_model = read_routing fields "response_model";
        } in
        if is_blank_routing summary then none else some summary
  ]

  -- The probe's own identity decides, if it is logged; otherwise the trace does.
  unfoldable pub correlate : String → String → HigressAccessLog → ProbeCorrelation
  correlate probe_id trace_id entry =
      let logged = valid_log_value entry.gatelens_probe_id in
      if not (logged == "")
      then (if not (valid_log_value probe_id == "") && logged == probe_id
          then probe_correlation_probe_id
          else "")
      else if not (valid_log_value trace_id == "")
          && not (valid_log_value entry.trace_id == "")
          && lib.equal_fold (trim_space entry.trace_id) (trim_space trace_id)
      then probe_correlation_trace_id
      else ""

  -- The record of a line that belongs to the probe; `now` is the clock, printed.
  unfoldable pub hop_of :
      String
      → String
      → String
      → String
      → ProbeCorrelation
      → HigressAccessLog
      → List (String × String)
      → ObservedHop
  hop_of now cluster pod source correlation entry fields = record {
    context_id = "";
    id = "";
    runtime_source = "";
    log_source_id = "";
    log_sequence = pos 0;
    request_start_time = valid_log_value entry.start_time;
    internal_redirect = is_internal_redirect entry.response_code_details;
    ai_routing = parse_ai_routing entry.ai_log;
    observed_at = if entry.start_time == "" then now else entry.start_time;
    cluster_id = cluster;
    pod = pod;
    authority = entry.authority;
    method = entry.method;
    path = redact_query entry.path;
    protocol = entry.protocol;
    route_name = entry.route_name;
    upstream_cluster = entry.upstream_cluster;
    upstream_host = entry.upstream_host;
    upstream_local_address = entry.upstream_local_address;
    downstream_remote_address = entry.downstream_remote_address;
    downstream_local_address = entry.downstream_local_address;
    response_code = integer lib entry.response_code;
    response_flags = entry.response_flags;
    response_code_details = entry.response_code_details;
    duration_millis = integer lib entry.duration;
    upstream_service_time_millis = integer lib entry.upstream_service_time;
    upstream_transport_failure = entry.upstream_transport_failure;
    ai_log = entry.ai_log;
    ext_procs = parse_ext_proc_observations lib entry fields;
    evidence_source = source;
    correlation = correlation;
    confidence = observation_confidence_observed;
  }

  -- The part behind the decoding.
  unfoldable pub match_entry :
      String
      → String
      → String
      → String
      → String
      → String
      → HigressAccessLog
      → List (String × String)
      → Option ObservedHop
  match_entry now probe_id trace_id cluster pod source entry fields =
      let correlation = correlate probe_id trace_id entry in
      if is_some (lookup "ai_usage_record" fields) || correlation == ""
      then none
      else some (hop_of now cluster pod source correlation entry fields)

  unfoldable pub parse_higress_line_for_probe :
      String → String → String → String → String → String → String → Option ObservedHop
  parse_higress_line_for_probe now line probe_id trace_id cluster pod source =
      elim (from_brace (trim_space line)) [
        | none ↦ none
        | some json ↦ elim (lib.decode_entry (unmarshal_scalar lib) (unmarshal_bool lib) json) [
          | none ↦ none
          | some entry ↦
              match_entry now probe_id trace_id cluster pod source entry
                (or_no_fields (lib.decode_raw json))
        ]
      ]
