-- ===== src/Observed/Log/ExtProc.antt =====
-- The ext_proc fields of a line: parseExtProcObservations of internal/observed/higress_log.go.
pub mod Outcome
mod Examples
use gate_lens.Common.{
  ℕ, String, ℤ, pos, Bool, true, false, List, [], ◌∷◌, ◌++◌, map, Option, none, some, ◌==◌, ◌&&◌,
  ◌||◌, not, any, if◌then◌else◌, trim_space, trim_prefix, has_prefix, has_suffix, trim_suffix,
  ◌+++◌, string_ltb, is_some, int_eq, is_positive, int_add, lookup,
}
use gate_lens.Domain.Values.{
  ExtProcOutcome, ext_proc_outcome_success, ext_proc_outcome_timeout, ext_proc_outcome_error,
  ext_proc_outcome_fail_open, ext_proc_outcome_immediate_response, ext_proc_outcome_unknown,
}
use gate_lens.Domain.Hop.{ExtProcObservation}
use gate_lens.Observed.Log.{
  HigressAccessLog, Value, LogLibrary, integer, scalar_text, scalar_int, scalar_bool,
}

abbrev pub or_text : String → String → String
or_text value fallback = if value == "" then fallback else value

abbrev pub or_int : ℤ → ℤ → ℤ
or_int value fallback = if int_eq value (pos 0) then fallback else value

-- A call that left a latency or a status was one call at least.
pub count_call : ℤ → ℤ → Option ℤ → ℤ
count_call calls latency status =
    if int_eq calls (pos 0) && (is_positive latency || is_some status) then pos 1 else calls

-- The five local variables on call statuses, with their flags.
pub record CallStatuses : Type 0 where
  pub request_header : Option ℤ
  pub request_body : Option ℤ
  pub response_header : Option ℤ
  pub response_body : Option ℤ
  pub before_first_call : Option ℤ

pub nonzero : Option ℤ → Option ℤ
nonzero none = none
nonzero (some status) = if int_eq status (pos 0) then none else some status

pub has_telemetry : String → ExtProcObservation → Bool
has_telemetry raw o =
    not (raw == "")
    || not (o.processor == "")
    || not (o.rule_id == "")
    || not (o.selected_pool == "")
    || not (o.selected_endpoint == "")
    || not (o.reason_code == "")
    || is_positive o.request_header_calls
    || is_positive o.request_body_calls
    || is_positive o.response_header_calls
    || is_positive o.response_body_calls
    || is_positive o.request_header_latency_us
    || is_positive o.request_body_latency_us
    || is_positive o.response_header_latency_us
    || is_positive o.response_body_latency_us
    || not (o.grpc_status == "")
    || o.failure_mode_allowed
    || o.failed_open
    || o.message_timeout
    || o.http_error
    || o.received_immediate_response

pub is_invoked : ExtProcObservation → Bool
is_invoked o =
    is_positive (
      int_add
        (int_add (int_add o.request_header_calls o.request_body_calls) o.response_header_calls)
        o.response_body_calls)
    || not (o.grpc_status == "")
    || o.http_error
    || o.message_timeout
    || o.received_immediate_response

pub is_flat_ext_proc_field : String → Bool
is_flat_ext_proc_field key =
    any (λ suffix. key == "ext_proc_" +++ suffix)
      ("processor" ∷ "rule_id" ∷ "selected_pool" ∷ "selected_endpoint" ∷ "reason_code"
        ∷ "grpc_status" ∷ "request_header_call_count" ∷ "request_body_call_count"
        ∷ "response_header_call_count" ∷ "response_body_call_count" ∷ "request_header_latency_us"
        ∷ "request_header_call_status" ∷ "request_body_latency_us" ∷ "request_body_total_latency_us"
        ∷ "request_body_last_call_status" ∷ "response_header_latency_us"
        ∷ "response_header_call_status" ∷ "response_body_latency_us"
        ∷ "response_body_total_latency_us" ∷ "response_body_last_call_status"
        ∷ "failure_mode_allowed" ∷ "failed_open" ∷ "message_timeout" ∷ "http_not_ok_resp_received"
        ∷ "received_immediate_response" ∷ "grpc_status_before_first_call" ∷ [])

-- sort.Strings
pub insert_text : String → List String → List String
insert_text key [] = key ∷ []
insert_text key (x ∷ xs) = if string_ltb x key then x ∷ insert_text key xs else key ∷ x ∷ xs

pub sort_texts : List String → List String
sort_texts [] = []
sort_texts (key ∷ keys) = insert_text key (sort_texts keys)

-- The entry without any field.
abbrev pub no_entry : HigressAccessLog
no_entry = record {
  ai_log = "";
  authority = "";
  downstream_remote_address = "";
  downstream_local_address = "";
  duration = "";
  method = "";
  path = "";
  protocol = "";
  gatelens_probe_id = "";
  response_code = "";
  response_code_details = "";
  response_flags = "";
  route_name = "";
  start_time = "";
  trace_id = "";
  upstream_cluster = "";
  upstream_host = "";
  upstream_local_address = "";
  upstream_service_time = "";
  upstream_transport_failure = "";
  ext_proc = "";
  ext_proc_processor = "";
  ext_proc_rule_id = "";
  ext_proc_selected_pool = "";
  ext_proc_selected_endpoint = "";
  ext_proc_reason_code = "";
  ext_proc_header_calls = "";
  ext_proc_body_calls = "";
  ext_proc_response_header_calls = "";
  ext_proc_response_body_calls = "";
  ext_proc_header_latency_us = "";
  ext_proc_body_latency_us = "";
  ext_proc_header_call_status = "";
  ext_proc_body_total_latency_us = "";
  ext_proc_body_last_call_status = "";
  ext_proc_response_header_latency_us = "";
  ext_proc_response_body_latency_us = "";
  ext_proc_response_header_call_status = "";
  ext_proc_response_body_total_latency_us = "";
  ext_proc_response_body_last_call_status = "";
  ext_proc_grpc_status = "";
  ext_proc_failure_mode_allowed = false;
  ext_proc_failed_open = false;
  ext_proc_message_timeout = false;
  ext_proc_http_error = false;
  ext_proc_received_immediate_response = false;
  ext_proc_grpc_status_before_first_call = "";
}

abbrev pub cons_some : Option ExtProcObservation → List ExtProcObservation → List ExtProcObservation
cons_some none os = os
cons_some (some o) os = o ∷ os

module _ (lib : LogLibrary) where
  abbrev pub or_no_values : Option (List (String × Value)) → List (String × Value)
  or_no_values none = []
  or_no_values (some values) = values

  -- The local variable `values`: an object, or an object in a string.
  pub values_of : String → List (String × Value)
  values_of raw = if raw == "" || raw == "null" then [] else (elim (lib.decode_object raw) [
    | some structured ↦ structured
    | none ↦ elim (lib.decode_string raw) [
      | none ↦ []
      | some encoded ↦ or_no_values (lib.decode_object encoded)
    ]
  ])

  -- The closures `getString`, `getInt`, `getIntValue` and `getBool`.
  pub get_string : List (String × Value) → List String → String
  get_string values [] = ""
  get_string values (key ∷ keys) = elim (lookup key values) [
    | none ↦ get_string values keys
    | some value ↦ or_text (scalar_text lib value) (get_string values keys)
  ]

  pub get_int : List (String × Value) → List String → ℤ
  get_int values [] = pos 0
  get_int values (key ∷ keys) = elim (lookup key values) [
    | none ↦ get_int values keys
    | some value ↦ or_int (scalar_int lib value) (get_int values keys)
  ]

  pub get_int_value : List (String × Value) → List String → Option ℤ
  get_int_value values [] = none
  get_int_value values (key ∷ keys) = elim (lookup key values) [
    | none ↦ get_int_value values keys
    | some value ↦ some (scalar_int lib value)
  ]

  abbrev pub or_next : Option Bool → Bool → Bool
  or_next none next = next
  or_next (some value) next = value

  pub get_bool : List (String × Value) → List String → Bool
  get_bool values [] = false
  get_bool values (key ∷ keys) = elim (lookup key values) [
    | none ↦ get_bool values keys
    | some value ↦ or_next (scalar_bool lib value) (get_bool values keys)
  ]

  -- The composite literal and the first counting of calls.
  pub structured_statuses : List (String × Value) → CallStatuses
  structured_statuses values = record {
    request_header =
        get_int_value values ("request_header_call_status" ∷ "requestHeaderCallStatus" ∷ []);
    request_body =
        get_int_value values ("request_body_last_call_status" ∷ "requestBodyLastCallStatus" ∷ []);
    response_header =
        get_int_value values ("response_header_call_status" ∷ "responseHeaderCallStatus" ∷ []);
    response_body =
        get_int_value values ("response_body_last_call_status" ∷ "responseBodyLastCallStatus" ∷ []);
    before_first_call =
        get_int_value values ("grpc_status_before_first_call" ∷ "grpcStatusBeforeFirstCall" ∷ []);
  }

  pub structured : List (String × Value) → ExtProcObservation
  structured values = record {
    processor = get_string values ("processor" ∷ "ext_proc_processor" ∷ []);
    rule_id = get_string values ("rule_id" ∷ "ruleID" ∷ "ext_proc_rule_id" ∷ []);
    selected_pool =
        get_string values ("selected_pool" ∷ "selectedPool" ∷ "ext_proc_selected_pool" ∷ []);
    selected_endpoint =
        get_string values
          ("selected_endpoint" ∷ "selectedEndpoint" ∷ "ext_proc_selected_endpoint" ∷ []);
    reason_code = get_string values ("reason_code" ∷ "reasonCode" ∷ "ext_proc_reason_code" ∷ []);
    request_header_calls =
        get_int values ("request_header_call_count" ∷ "requestHeaderCallCount" ∷ []);
    request_body_calls = get_int values ("request_body_call_count" ∷ "requestBodyCallCount" ∷ []);
    response_header_calls =
        get_int values ("response_header_call_count" ∷ "responseHeaderCallCount" ∷ []);
    response_body_calls =
        get_int values ("response_body_call_count" ∷ "responseBodyCallCount" ∷ []);
    request_header_latency_us =
        get_int values ("request_header_latency_us" ∷ "requestHeaderLatencyUs" ∷ []);
    request_body_latency_us = get_int values (
        "request_body_total_latency_us" ∷ "requestBodyTotalLatencyUs" ∷ "request_body_latency_us"
        ∷ "requestBodyLatencyUs" ∷ []);
    response_header_latency_us =
        get_int values ("response_header_latency_us" ∷ "responseHeaderLatencyUs" ∷ []);
    response_body_latency_us = get_int values (
        "response_body_total_latency_us" ∷ "responseBodyTotalLatencyUs" ∷ "response_body_latency_us"
        ∷ "responseBodyLatencyUs" ∷ []);
    grpc_status = get_string values ("grpc_status" ∷ "grpcStatus" ∷ "status" ∷ []);
    failure_mode_allowed = get_bool values ("failure_mode_allowed" ∷ "failureModeAllowed" ∷ []);
    failed_open = get_bool values ("failed_open" ∷ "failedOpen" ∷ []);
    message_timeout = get_bool values ("message_timeout" ∷ "messageTimeout" ∷ []);
    http_error =
        get_bool values ("http_not_ok_resp_received" ∷ "httpNotOkRespReceived" ∷ "http_error" ∷ []);
    received_immediate_response =
        get_bool values ("received_immediate_response" ∷ "receivedImmediateResponse" ∷ []);
    invoked = false;
    outcome = "";
  }

  pub count_calls : CallStatuses → ExtProcObservation → ExtProcObservation
  count_calls statuses o = record o {
    request_header_calls =
        count_call o.request_header_calls o.request_header_latency_us statuses.request_header;
    response_header_calls =
        count_call o.response_header_calls o.response_header_latency_us statuses.response_header;
  }

  -- The fields that are still empty, from the flat fields of the line.
  pub fill_flat : HigressAccessLog → String → ExtProcObservation → ExtProcObservation
  fill_flat entry hint o = record o {
    processor = or_text (or_text o.processor (trim_space entry.ext_proc_processor)) hint;
    rule_id = or_text o.rule_id (trim_space entry.ext_proc_rule_id);
    selected_pool = or_text o.selected_pool (trim_space entry.ext_proc_selected_pool);
    selected_endpoint = or_text o.selected_endpoint (trim_space entry.ext_proc_selected_endpoint);
    reason_code = or_text o.reason_code (trim_space entry.ext_proc_reason_code);
    request_header_calls = or_int o.request_header_calls (integer lib entry.ext_proc_header_calls);
    request_body_calls = or_int o.request_body_calls (integer lib entry.ext_proc_body_calls);
    response_header_calls =
        or_int o.response_header_calls (integer lib entry.ext_proc_response_header_calls);
    response_body_calls =
        or_int o.response_body_calls (integer lib entry.ext_proc_response_body_calls);
    request_header_latency_us =
        or_int o.request_header_latency_us (integer lib entry.ext_proc_header_latency_us);
    request_body_latency_us = or_int o.request_body_latency_us (
        or_int (integer lib entry.ext_proc_body_total_latency_us)
          (integer lib entry.ext_proc_body_latency_us));
    response_header_latency_us =
        or_int o.response_header_latency_us (integer lib entry.ext_proc_response_header_latency_us);
    response_body_latency_us = or_int o.response_body_latency_us (
        or_int (integer lib entry.ext_proc_response_body_total_latency_us)
          (integer lib entry.ext_proc_response_body_latency_us));
  }

  abbrev pub or_status : Option ℤ → String → Option ℤ
  or_status (some status) flat = some status
  or_status none flat = if flat == "" then none else some (integer lib flat)

  pub fill_statuses : HigressAccessLog → CallStatuses → CallStatuses
  fill_statuses entry statuses = record {
    request_header = or_status statuses.request_header entry.ext_proc_header_call_status;
    request_body = or_status statuses.request_body entry.ext_proc_body_last_call_status;
    response_header = or_status statuses.response_header entry.ext_proc_response_header_call_status;
    response_body = or_status statuses.response_body entry.ext_proc_response_body_last_call_status;
    before_first_call =
        or_status statuses.before_first_call entry.ext_proc_grpc_status_before_first_call;
  }

  -- The loop over the statuses, with the status and the timeout flag so far.
  pub scan_statuses : List (Option ℤ) → String → Bool → String × Bool
  scan_statuses [] status timeout = (status, timeout)
  scan_statuses (none ∷ statuses) status timeout = scan_statuses statuses status timeout
  scan_statuses (some value ∷ statuses) status timeout =
      let failed = not (int_eq value (pos 0)) in
      let status = if status == "" || failed then lib.format_int value else status in
      let timeout = timeout || int_eq value (pos 4) in
      let later = scan_statuses statuses status timeout in
      if failed then (status, timeout) else later

  pub derive_status : HigressAccessLog → CallStatuses → ExtProcObservation → ExtProcObservation
  derive_status entry s o =
      let status = or_text o.grpc_status (trim_space entry.ext_proc_grpc_status) in
      let scanned =
        scan_statuses
          (s.request_header
            ∷ s.request_body
            ∷ s.response_header
            ∷ s.response_body
            ∷ nonzero s.before_first_call
            ∷ [])
          status o.message_timeout in
      if status == ""
      then record o { grpc_status = scanned.0; message_timeout = scanned.1 }
      else record o { grpc_status = status }

  pub fill_flags : HigressAccessLog → ExtProcObservation → ExtProcObservation
  fill_flags entry o = record o {
    failure_mode_allowed = o.failure_mode_allowed || entry.ext_proc_failure_mode_allowed;
    failed_open = o.failed_open || entry.ext_proc_failed_open;
    message_timeout = o.message_timeout || entry.ext_proc_message_timeout;
    http_error = o.http_error || entry.ext_proc_http_error;
    received_immediate_response =
        o.received_immediate_response || entry.ext_proc_received_immediate_response;
  }

  abbrev pub unless_allowed : ExtProcObservation → ExtProcOutcome → ExtProcOutcome
  unless_allowed o outcome = if o.failure_mode_allowed then ext_proc_outcome_fail_open else outcome

  abbrev pub has_bad_status : ExtProcObservation → Bool
  has_bad_status o =
      not (o.grpc_status == "")
      && not (o.grpc_status == "0")
      && not (lib.equal_fold o.grpc_status "ok")

  pub outcome_of : ExtProcObservation → ExtProcOutcome
  outcome_of o =
      if o.failed_open
      then ext_proc_outcome_fail_open
      else if o.message_timeout
      then unless_allowed o ext_proc_outcome_timeout
      else if o.http_error
      then unless_allowed o ext_proc_outcome_error
      else if o.received_immediate_response
      then ext_proc_outcome_immediate_response
      else if has_bad_status o
      then unless_allowed o ext_proc_outcome_error
      else if o.invoked
      then ext_proc_outcome_success
      else ext_proc_outcome_unknown

  -- The observation before the test of `hasTelemetry`.
  pub gather : HigressAccessLog → String → String → ExtProcObservation
  gather entry raw hint =
      let values = values_of raw in
      let found = structured_statuses values in
      let first = fill_flat entry hint (count_calls found (structured values)) in
      let statuses = fill_statuses entry found in
      fill_flags entry (derive_status entry statuses (count_calls statuses first))

  pub conclude_outcome : ExtProcObservation → ExtProcObservation
  conclude_outcome o =
      let known = record o { invoked = is_invoked o } in record known { outcome = outcome_of known }

  pub parse_ext_proc_observation : HigressAccessLog → String → String → Option ExtProcObservation
  parse_ext_proc_observation entry raw hint =
      let o = gather entry raw hint in
      if has_telemetry raw o then some (conclude_outcome o) else none

  abbrev pub is_ext_proc_key : String → Bool
  is_ext_proc_key key =
      let lower = lib.to_lower key in
      not (key == "ext_proc")
      && (has_prefix lower "ext_proc_" || has_suffix lower "_ext_proc")
      && not (is_flat_ext_proc_field lower)

  pub ext_proc_keys : List (String × String) → List String
  ext_proc_keys [] = []
  ext_proc_keys ((key, raw) ∷ fields) =
      let keys = ext_proc_keys fields in if is_ext_proc_key key then key ∷ keys else keys

  abbrev pub or_raw : Option String → String
  or_raw none = ""
  or_raw (some raw) = raw

  pub parse_named : List (String × String) → List String → List ExtProcObservation
  parse_named fields [] = []
  parse_named fields (key ∷ keys) =
      let hint = trim_suffix (trim_prefix (lib.to_lower key) "ext_proc_") "_ext_proc" in
      cons_some (parse_ext_proc_observation no_entry (or_raw (lookup key fields)) hint)
        (parse_named fields keys)

  pub parse_ext_proc_observations :
      HigressAccessLog → List (String × String) → List ExtProcObservation
  parse_ext_proc_observations entry fields =
      cons_some (parse_ext_proc_observation entry entry.ext_proc "")
        (parse_named fields (sort_texts (ext_proc_keys fields)))
