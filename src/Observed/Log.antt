-- ===== src/Observed/Log.antt =====
-- An access-log line of a gateway, and whether it belongs to a probe: ParseHigressLineForProbe of
-- internal/observed/higress_log.go. JSON decoding and the number formats of Go are arguments.
pub mod ExtProc
pub mod Line
pub mod Samples
use gate_lens.Common.{
  ℕ, zero, suc, String, ℤ, Bool, true, false, List, [], ◌∷◌, Option, none, some, ◌==◌, ◌||◌,
  if◌then◌else◌, trim_space, has_prefix,
}

-- accessLogScalar is the text of a number or a string, and a json.RawMessage its bytes.
pub record HigressAccessLog : Type 0 where
  pub ai_log : String
  pub authority : String
  pub downstream_remote_address : String
  pub downstream_local_address : String
  pub duration : String
  pub method : String
  pub path : String
  pub protocol : String
  pub gatelens_probe_id : String
  pub response_code : String
  pub response_code_details : String
  pub response_flags : String
  pub route_name : String
  pub start_time : String
  pub trace_id : String
  pub upstream_cluster : String
  pub upstream_host : String
  pub upstream_local_address : String
  pub upstream_service_time : String
  pub upstream_transport_failure : String
  pub ext_proc : String
  pub ext_proc_processor : String
  pub ext_proc_rule_id : String
  pub ext_proc_selected_pool : String
  pub ext_proc_selected_endpoint : String
  pub ext_proc_reason_code : String
  pub ext_proc_header_calls : String
  pub ext_proc_body_calls : String
  pub ext_proc_response_header_calls : String
  pub ext_proc_response_body_calls : String
  pub ext_proc_header_latency_us : String
  pub ext_proc_body_latency_us : String
  pub ext_proc_header_call_status : String
  pub ext_proc_body_total_latency_us : String
  pub ext_proc_body_last_call_status : String
  pub ext_proc_response_header_latency_us : String
  pub ext_proc_response_body_latency_us : String
  pub ext_proc_response_header_call_status : String
  pub ext_proc_response_body_total_latency_us : String
  pub ext_proc_response_body_last_call_status : String
  pub ext_proc_grpc_status : String
  pub ext_proc_failure_mode_allowed : Bool
  pub ext_proc_failed_open : Bool
  pub ext_proc_message_timeout : Bool
  pub ext_proc_http_error : Bool
  pub ext_proc_received_immediate_response : Bool
  pub ext_proc_grpc_status_before_first_call : String

-- A decoded JSON value of type `any`. A float64 is given by its integer part, the only part used.
pub data Value : Type 0 where
  null other : Value
  boolean : Bool → Value
  number : ℤ → Value
  text : String → Value

-- What the Go libraries do for this file. Decoding fails with `none`, and an absent map is empty.
pub record LogLibrary : Type 0 where
  pub decode_string : String → Option String
  pub decode_number : String → Option String
  pub decode_bool : String → Option Bool
  pub decode_raw : String → Option (List (String × String))
  pub decode_object : String → Option (List (String × Value))
  pub decode_entry :
      (String → Option String) → (String → Option Bool) → String → Option HigressAccessLog
  pub parse_int : String → ℤ
  pub format_int : ℤ → String
  pub equal_fold : String → String → Bool
  pub to_lower : String → String

module _ (lib : LogLibrary) where
  -- accessLogScalar.UnmarshalJSON
  pub unmarshal_scalar : String → Option String
  unmarshal_scalar raw =
      if has_prefix raw "\""
      then lib.decode_string raw
      else if raw == "null"
      then some ""
      else lib.decode_number raw

  abbrev pub is_true_text : String → Bool
  is_true_text value = lib.equal_fold (trim_space value) "true" || trim_space value == "1"

  -- accessLogBool.UnmarshalJSON
  pub unmarshal_bool : String → Option Bool
  unmarshal_bool raw = elim (lib.decode_bool raw) [
    | some value ↦ some value
    | none ↦ elim (lib.decode_string raw) [ none ↦ none | some value ↦ some (is_true_text value) ]
  ]

  -- The functions `integer` and `integer64`; an int has 64 bits.
  pub integer : String → ℤ
  integer value = lib.parse_int (trim_space value)

  pub scalar_text : Value → String
  scalar_text null = ""
  scalar_text other = ""
  scalar_text (boolean true) = "true"
  scalar_text (boolean false) = "false"
  scalar_text (number n) = lib.format_int n
  scalar_text (text value) = trim_space value

  pub scalar_int : Value → ℤ
  scalar_int value = lib.parse_int (scalar_text value)

  pub scalar_bool : Value → Option Bool
  scalar_bool null = none
  scalar_bool other = none
  scalar_bool (boolean value) = some value
  scalar_bool (number n) = none
  scalar_bool (text value) = some (is_true_text value)
