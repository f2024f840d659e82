-- ===== src/Observed/Log/Line/Evidence.antt =====
-- What a record that was read from a line carries.
use gate_lens.Common.{
  String, true, List, none, some, ◌≡◌, refl, ◌≢◌, ◌↔◌, ◌⊎◌, inl, inr, ◌==◌, ◌||◌, cut-before, All,
  Bool-cases, Option-cases, arith, eq_iff, lookup, is_some, cut, subst, trim_space,
}
use gate_lens.Domain.Values.{
  is_valid_probe_correlation, is_valid_observation_confidence, probe_correlation_probe_id,
  probe_correlation_trace_id, ProbeCorrelation,
}
use gate_lens.Domain.Hop.{ObservedHop}
use gate_lens.Observed.Values.{valid_log_value}
use gate_lens.Observed.Log.{HigressAccessLog, LogLibrary, unmarshal_scalar, unmarshal_bool}
use gate_lens.Observed.Log.ExtProc.Outcome.{Concluded, parse_ext_proc_observations-Concluded}
use gate_lens.Observed.Log.Line.{
  from_brace, redact_query, correlate, hop_of, match_entry, or_no_fields,
  parse_higress_line_for_probe,
}

module _ (lib : LogLibrary) where
  -- The entry names the probe.
  abbrev pub NamesProbe : String → HigressAccessLog → Type 0
  NamesProbe probe_id entry =
      (valid_log_value entry.gatelens_probe_id ≢ "")
      × (valid_log_value probe_id ≢ "")
      × (valid_log_value entry.gatelens_probe_id ≡ probe_id)

  -- The entry names no probe, and is of the same trace.
  abbrev pub SharesTrace : String → HigressAccessLog → Type 0
  SharesTrace trace_id entry =
      (valid_log_value entry.gatelens_probe_id ≡ "")
      × (valid_log_value trace_id ≢ "")
      × (valid_log_value entry.trace_id ≢ "")
      × (lib.equal_fold (trim_space entry.trace_id) (trim_space trace_id) ≡ true)

  -- An entry is correlated by the probe's identity exactly if it names the probe, and by the
  -- trace exactly if it names no probe at all and is of the probe's trace.
  pub correlate_iff :
      (probe_id trace_id : String) (entry : HigressAccessLog)
      → ((correlate lib probe_id trace_id entry ≡ probe_correlation_probe_id)
          ↔ NamesProbe probe_id entry)
        × ((correlate lib probe_id trace_id entry ≡ probe_correlation_trace_id)
            ↔ SharesTrace trace_id entry)
  unfolding correlate
  correlate_iff probe_id trace_id entry = ground (
    arith,
    eq_iff (valid_log_value entry.gatelens_probe_id) "",
    eq_iff (valid_log_value probe_id) "",
    eq_iff (valid_log_value entry.gatelens_probe_id) probe_id,
    eq_iff (valid_log_value trace_id) "",
    eq_iff (valid_log_value entry.trace_id) "",
    eq_iff "" probe_correlation_probe_id,
    eq_iff "" probe_correlation_trace_id,
    eq_iff probe_correlation_probe_id probe_correlation_trace_id,
    eq_iff probe_correlation_trace_id probe_correlation_probe_id,
  )

  -- What holds of the record of a matched line.
  pub record IsEvidence (cluster pod source : String) (hop : ObservedHop) : Type 0 where
    pub owned : hop.cluster_id ≡ cluster
    pub emitted : hop.pod ≡ pod
    pub sourced : hop.evidence_source ≡ source
    pub correlated : is_valid_probe_correlation hop.correlation ≡ true
    pub observed : is_valid_observation_confidence hop.confidence ≡ true
    pub redacted : cut hop.path "?" ≡ none
    pub processed : All (Concluded lib) hop.ext_procs

  redact_query-cut : (path : String) → cut (redact_query path) "?" ≡ none
  unfolding redact_query
  redact_query-cut path = elim (Option-cases (cut path "?")) [
    | inl e ↦ ground arith
    | inr ((front, query), e) ↦ let shorter = cut-before "?" path front query e in ground arith
  ]

  correlate-cases :
      (probe_id trace_id : String) (entry : HigressAccessLog)
      → correlate lib probe_id trace_id entry ≢ ""
      → (correlate lib probe_id trace_id entry ≡ probe_correlation_probe_id)
        ⊎ (correlate lib probe_id trace_id entry ≡ probe_correlation_trace_id)
  unfolding correlate
  correlate-cases probe_id trace_id entry e = ground arith

  correlate-is_valid :
      (probe_id trace_id : String) (entry : HigressAccessLog)
      → correlate lib probe_id trace_id entry ≢ ""
      → is_valid_probe_correlation (correlate lib probe_id trace_id entry) ≡ true
  unfolding is_valid_probe_correlation
  correlate-is_valid probe_id trace_id entry e = elim (correlate-cases probe_id trace_id entry e) [
    | inl c ↦ rw c
    | inr c ↦ rw c
  ]

  hop_of-IsEvidence :
      (now cluster pod source : String) (correlation : ProbeCorrelation) (entry : HigressAccessLog)
      (fields : List (String × String))
      → is_valid_probe_correlation correlation ≡ true
      → IsEvidence cluster pod source (hop_of lib now cluster pod source correlation entry fields)
  unfolding hop_of is_valid_observation_confidence
  hop_of-IsEvidence now cluster pod source correlation entry fields valid = record {
    owned = refl;
    emitted = refl;
    sourced = refl;
    correlated = valid;
    observed = refl;
    redacted = redact_query-cut entry.path;
    processed = parse_ext_proc_observations-Concluded lib entry fields;
  }

  match_entry-IsEvidence :
      (now probe_id trace_id cluster pod source : String) (entry : HigressAccessLog)
      (fields : List (String × String)) (hop : ObservedHop)
      → match_entry lib now probe_id trace_id cluster pod source entry fields ≡ some hop
      → IsEvidence cluster pod source hop
  unfolding match_entry
  match_entry-IsEvidence now probe_id trace_id cluster pod source entry fields hop e =
      let correlation = correlate lib probe_id trace_id entry in
      elim (Bool-cases (is_some (lookup "ai_usage_record" fields) || correlation == "")) [
        | inl t ↦ absurd (ground arith)
        | inr t ↦
            let same : hop_of lib now cluster pod source correlation entry fields ≡ hop =
              ground arith in
            subst (IsEvidence cluster pod source) same (
              hop_of-IsEvidence now cluster pod source correlation entry fields (
                correlate-is_valid probe_id trace_id entry (ground (arith, eq_iff correlation ""))))
      ]

  -- A record that is read from a line is of the given cluster, pod and source, has a valid
  -- correlation and confidence and a path without a query, and each of its ext_proc observations
  -- has the outcome of the table.
  pub parse_line-IsEvidence :
      (now line probe_id trace_id cluster pod source : String) (hop : ObservedHop)
      → parse_higress_line_for_probe lib now line probe_id trace_id cluster pod source ≡ some hop
      → IsEvidence cluster pod source hop
  unfolding parse_higress_line_for_probe
  parse_line-IsEvidence now line probe_id trace_id cluster pod source hop e =
      elim (Option-cases (from_brace (trim_space line))) [
        | inl f ↦ absurd (ground arith)
        | inr (json, f) ↦
            let decode = lib.decode_entry (unmarshal_scalar lib) (unmarshal_bool lib) json in
            elim (Option-cases decode) [
              | inl g ↦ absurd (ground arith)
              | inr (entry, g) ↦
                  match_entry-IsEvidence now probe_id trace_id cluster pod source entry
                    (or_no_fields (lib.decode_raw json)) hop (ground arith)
            ]
      ]
