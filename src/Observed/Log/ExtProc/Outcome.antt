-- ===== src/Observed/Log/ExtProc/Outcome.antt =====
-- The outcome of an ext_proc call, as a table.
use gate_lens.Common.{
  String, true, false, List, [], ◌∷◌, Option, none, some, ◌≡◌, refl, ap, subst, ◌∙◌, ◌↔◌, ◌⊎◌, inl,
  inr, if◌then◌else◌, All, Bool-cases, arith,
}
use gate_lens.Domain.Values.{
  ExtProcOutcome, ext_proc_outcome_success, ext_proc_outcome_timeout, ext_proc_outcome_error,
  ext_proc_outcome_fail_open, ext_proc_outcome_immediate_response, ext_proc_outcome_unknown,
  is_valid_ext_proc_outcome,
}
use gate_lens.Domain.Hop.{ExtProcObservation}
use gate_lens.Observed.Log.{HigressAccessLog, LogLibrary}
use gate_lens.Observed.Log.ExtProc.{
  has_bad_status, has_telemetry, outcome_of, gather, conclude_outcome, parse_ext_proc_observation,
  cons_some, parse_named, parse_ext_proc_observations, is_invoked,
}

module _ (lib : LogLibrary) where
  -- The call failed: it timed out, or got an HTTP error, or ended with a bad status.
  abbrev pub Failed : ExtProcObservation → ExtProcOutcome → Type 0
  Failed o cause =
      ((o.message_timeout ≡ true) × (cause ≡ ext_proc_outcome_timeout))
      ⊎ ((o.message_timeout ≡ false)
          × (cause ≡ ext_proc_outcome_error)
          × ((o.http_error ≡ true)
              ⊎ ((o.http_error ≡ false)
                  × (o.received_immediate_response ≡ false)
                  × (has_bad_status lib o ≡ true))))

  -- Nothing went wrong in the call.
  abbrev pub Clean : ExtProcObservation → Type 0
  Clean o = (o.failed_open ≡ false) × (o.message_timeout ≡ false) × (o.http_error ≡ false)

  pub data HasOutcome (o : ExtProcObservation) (outcome : ExtProcOutcome) : Type 0 where
    opened : o.failed_open ≡ true → outcome ≡ ext_proc_outcome_fail_open → HasOutcome o outcome
    allowed :
        (cause : ExtProcOutcome)
        → o.failed_open ≡ false
        → Failed o cause
        → o.failure_mode_allowed ≡ true
        → outcome ≡ ext_proc_outcome_fail_open
        → HasOutcome o outcome
    failed :
        (cause : ExtProcOutcome)
        → o.failed_open ≡ false
        → Failed o cause
        → o.failure_mode_allowed ≡ false
        → outcome ≡ cause
        → HasOutcome o outcome
    immediate :
        Clean o
        → o.received_immediate_response ≡ true
        → outcome ≡ ext_proc_outcome_immediate_response
        → HasOutcome o outcome
    succeeded :
        Clean o
        → o.received_immediate_response ≡ false
        → has_bad_status lib o ≡ false
        → o.invoked ≡ true
        → outcome ≡ ext_proc_outcome_success
        → HasOutcome o outcome
    unknown :
        Clean o
        → o.received_immediate_response ≡ false
        → has_bad_status lib o ≡ false
        → o.invoked ≡ false
        → outcome ≡ ext_proc_outcome_unknown
        → HasOutcome o outcome

  HasOutcome-outcome_of :
      (o : ExtProcObservation) (outcome : ExtProcOutcome)
      → HasOutcome o outcome
      → outcome_of lib o ≡ outcome
  unfolding outcome_of
  HasOutcome-outcome_of o outcome (opened a e) = ground arith
  HasOutcome-outcome_of o outcome (allowed cause a f k e) = ground arith
  HasOutcome-outcome_of o outcome (failed cause a f k e) = ground arith
  HasOutcome-outcome_of o outcome (immediate c i e) = ground arith
  HasOutcome-outcome_of o outcome (succeeded c i b v e) = ground arith
  HasOutcome-outcome_of o outcome (unknown c i b v e) = ground arith

  Failed-HasOutcome :
      (o : ExtProcObservation) (cause outcome : ExtProcOutcome)
      → o.failed_open ≡ false
      → Failed o cause
      → outcome ≡ (if o.failure_mode_allowed then ext_proc_outcome_fail_open else cause)
      → HasOutcome o outcome
  Failed-HasOutcome o cause outcome a f e = elim (Bool-cases o.failure_mode_allowed) [
    | inl k ↦ allowed cause a f k (ground arith)
    | inr k ↦ failed cause a f k (ground arith)
  ]

  Clean-HasOutcome : (o : ExtProcObservation) → Clean o → HasOutcome o (outcome_of lib o)
  unfolding outcome_of
  Clean-HasOutcome o c = elim (Bool-cases o.received_immediate_response) [
    | inl i ↦ immediate c i (ground arith)
    | inr i ↦ elim (Bool-cases (has_bad_status lib o)) [
      | inl b ↦
          Failed-HasOutcome o ext_proc_outcome_error (outcome_of lib o) (c.0)
            (inr (c.1, refl, inr (c.2, i, b))) (ground arith)
      | inr b ↦ elim (Bool-cases o.invoked) [
        | inl v ↦ succeeded c i b v (ground arith)
        | inr v ↦ unknown c i b v (ground arith)
      ]
    ]
  ]

  outcome_of-HasOutcome : (o : ExtProcObservation) → HasOutcome o (outcome_of lib o)
  unfolding outcome_of
  outcome_of-HasOutcome o = elim (Bool-cases o.failed_open) [
    | inl a ↦ opened a (ground arith)
    | inr a ↦ elim (Bool-cases o.message_timeout) [
      | inl t ↦
          Failed-HasOutcome o ext_proc_outcome_timeout (outcome_of lib o) a (inl (t, refl))
            (ground arith)
      | inr t ↦ elim (Bool-cases o.http_error) [
        | inl h ↦
            Failed-HasOutcome o ext_proc_outcome_error (outcome_of lib o) a (inr (t, refl, inl h))
              (ground arith)
        | inr h ↦ Clean-HasOutcome o (a, t, h)
      ]
    ]
  ]

  -- The outcome that is written down is the one of the table, and no other.
  pub outcome_of_iff :
      (o : ExtProcObservation) (outcome : ExtProcOutcome)
      → (outcome_of lib o ≡ outcome) ↔ HasOutcome o outcome
  outcome_of_iff o outcome =
      (λ e. subst (HasOutcome o) e (outcome_of-HasOutcome o), HasOutcome-outcome_of o outcome)

  abbrev pub IsValid : ExtProcOutcome → Type 0
  IsValid outcome = is_valid_ext_proc_outcome outcome ≡ true

  Failed-IsValid :
      (o : ExtProcObservation) (cause : ExtProcOutcome) → Failed o cause → IsValid cause
  unfolding is_valid_ext_proc_outcome
  Failed-IsValid o cause (inl f) = rw (f.1)
  Failed-IsValid o cause (inr f) = rw (f.1)

  HasOutcome-IsValid :
      (o : ExtProcObservation) (outcome : ExtProcOutcome) → HasOutcome o outcome → IsValid outcome
  unfolding is_valid_ext_proc_outcome
  HasOutcome-IsValid o outcome (opened a e) = rw e
  HasOutcome-IsValid o outcome (allowed cause a f k e) = rw e
  HasOutcome-IsValid o outcome (failed cause a f k e) =
      ap is_valid_ext_proc_outcome e ∙ Failed-IsValid o cause f
  HasOutcome-IsValid o outcome (immediate c i e) = rw e
  HasOutcome-IsValid o outcome (succeeded c i b v e) = rw e
  HasOutcome-IsValid o outcome (unknown c i b v e) = rw e

  -- What holds of an observation that a line yields.
  pub Concluded : ExtProcObservation → Type 0
  Concluded o = HasOutcome o o.outcome × IsValid o.outcome × (o.invoked ≡ is_invoked o)

  conclude_outcome-Concluded : (o : ExtProcObservation) → Concluded (conclude_outcome lib o)
  unfolding Concluded conclude_outcome is_invoked outcome_of
  conclude_outcome-Concluded o =
      let known = conclude_outcome lib o in
      (
        outcome_of-HasOutcome known,
        HasOutcome-IsValid known (outcome_of lib known) (outcome_of-HasOutcome known),
        refl,
      )

  cons_some-Concluded :
      (o : Option ExtProcObservation) (os : List ExtProcObservation)
      → ((x : ExtProcObservation) → o ≡ some x → Concluded x)
      → All Concluded os
      → All Concluded (cons_some o os)
  cons_some-Concluded none os f h = h
  cons_some-Concluded (some x) os f h = (f x refl, h)

  parse-Concluded :
      (entry : HigressAccessLog) (raw hint : String) (o : ExtProcObservation)
      → parse_ext_proc_observation lib entry raw hint ≡ some o
      → Concluded o
  unfolding parse_ext_proc_observation
  parse-Concluded entry raw hint o e =
      let found = gather lib entry raw hint in
      elim (Bool-cases (has_telemetry raw found)) [
        | inl t ↦
            let same : conclude_outcome lib found ≡ o = ground arith in
            subst Concluded same (conclude_outcome-Concluded found)
        | inr t ↦ absurd (ground arith)
      ]

  parse_named-Concluded :
      (fields : List (String × String)) (keys : List String)
      → All Concluded (parse_named lib fields keys)
  unfolding parse_named
  parse_named-Concluded fields [] = tt
  parse_named-Concluded fields (key ∷ keys) =
      cons_some-Concluded _ _ (parse-Concluded _ _ _) (parse_named-Concluded fields keys)

  -- Each observation that the fields of a line yield is concluded.
  pub parse_ext_proc_observations-Concluded :
      (entry : HigressAccessLog) (fields : List (String × String))
      → All Concluded (parse_ext_proc_observations lib entry fields)
  unfolding parse_ext_proc_observations
  parse_ext_proc_observations-Concluded entry fields =
      cons_some-Concluded _ _ (parse-Concluded _ _ _) (parse_named-Concluded fields _)

  pub Concluded-IsValid : (o : ExtProcObservation) → Concluded o → IsValid o.outcome
  unfolding Concluded
  Concluded-IsValid o h = h.1
