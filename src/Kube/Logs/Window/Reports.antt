-- ===== src/Kube/Logs/Window/Reports.antt =====
-- What the collection of a gateway's records reports.
use gate_lens.Common.{
  ℕ, ◌+◌, String, Bool, true, List, [], ◌∷◌, Option, none, some, ◌==◌, ◌≡◌, refl, subst, inl, inr,
  All, Bool-cases, Option-cases, leb,
}
use gate_lens.Domain.Values.{
  is_valid_probe_issue_code, is_valid_probe_collection_state, probe_collection_state_settled,
  ProbeIssueCode, ProbeCollectionState,
}
use gate_lens.Domain.Probe.{ProbeCollection}
use gate_lens.Kube.Logs.{LogSnapshot, LogCache, Collector, empty_cache, merge}
use gate_lens.Kube.Logs.Records.{Numbered}
use gate_lens.Kube.Logs.Merged.{
  IsKept, Noted, IsOrderly, note-Noted, merge-IsOrderly, empty_cache-IsOrderly,
}
use gate_lens.Kube.Logs.Window.{
  WindowContext, live, window_over, cancelled, Round, LogResult, RoundOutcome, ended, waiting,
  settled, finish, stopped, read_failed, settle_or_wait, ended_or, resume, merge_all, after_read,
  run_round, collect_from, collect_probe_window, can_settle,
}

-- A report of the cluster's records: they are named by their places, acceptable, and the issues
-- are notes of which no identity stands twice; the collection has ended in a valid state.
pub record IsReport (cluster : String) (result : LogResult) : Type 0 where
  pub numbered : Numbered 0 result.hops
  pub kept : All (IsKept cluster) result.hops
  pub noted : Noted result.issues
  pub collection : ProbeCollection
  pub collected : result.collection ≡ some collection
  pub valid : is_valid_probe_collection_state collection.state ≡ true

-- The outcome of a round: a report, or an orderly cache.
abbrev pub IsOutcome : String → RoundOutcome → Type 0
IsOutcome cluster (ended result) = IsReport cluster result
IsOutcome cluster (waiting cache since) = IsOrderly cluster cache

abbrev pub AllOf {ℓ} : {A : Type 0} → (A → Type ℓ) → Option A → Type ℓ
AllOf P none = Unit
AllOf P (some a) = P a

pub merge_all-IsOrderly :
    (c : Collector) (snapshots : List LogSnapshot) (cache : LogCache)
    → IsOrderly c.cluster_id cache
    → IsOrderly c.cluster_id ((merge_all c snapshots cache).0)
unfolding merge_all
merge_all-IsOrderly c [] cache h = h
merge_all-IsOrderly c (snapshot ∷ snapshots) cache h =
    merge_all-IsOrderly c snapshots ((merge c snapshot cache).0)
      (merge-IsOrderly c snapshot cache h)

finish-IsReport :
    (cluster : String) (state : ProbeCollectionState) (code : ProbeIssueCode)
    (reason printed : String) (cache : LogCache)
    → is_valid_probe_collection_state state ≡ true
    → is_valid_probe_issue_code code ≡ true
    → IsOrderly cluster cache
    → IsReport cluster (finish state code reason printed cache)
unfolding finish
finish-IsReport cluster state code reason printed cache valid coded h = record {
  numbered = h.numbered;
  kept = h.kept;
  noted = elim (Bool-cases (reason == "")) [
    | inl e ↦ rw e h.noted
    | inr e ↦ rw e (note-Noted code reason cache.issues coded h.noted)
  ];
  collection = record { state = state; completed_at = printed };
  collected = refl;
  valid = valid;
}

stopped-IsReport :
    (cluster : String) (context : WindowContext) (reason printed : String) (cache : LogCache)
    → IsOrderly cluster cache
    → AllOf (IsReport cluster) (stopped context reason printed cache)
unfolding stopped is_valid_probe_issue_code is_valid_probe_collection_state
stopped-IsReport cluster live reason printed cache h = tt
stopped-IsReport cluster window_over reason printed cache h =
    finish-IsReport cluster _ _ _ _ cache refl refl h
stopped-IsReport cluster (cancelled cause) reason printed cache h =
    finish-IsReport cluster _ _ _ _ cache refl refl h

read_failed-IsReport :
    (cluster : String) (context : WindowContext) (error printed : String) (cache : LogCache)
    → IsOrderly cluster cache
    → IsReport cluster (read_failed context error printed cache)
unfolding read_failed is_valid_probe_issue_code is_valid_probe_collection_state
read_failed-IsReport cluster live error printed cache h =
    finish-IsReport cluster _ _ _ _ cache refl refl h
read_failed-IsReport cluster window_over error printed cache h =
    finish-IsReport cluster _ _ _ _ cache refl refl h
read_failed-IsReport cluster (cancelled cause) error printed cache h =
    finish-IsReport cluster _ _ _ _ cache refl refl h

ended_or-IsOutcome :
    (cluster : String) (result : Option LogResult) (next : RoundOutcome)
    → AllOf (IsReport cluster) result
    → IsOutcome cluster next
    → IsOutcome cluster (ended_or result next)
ended_or-IsOutcome cluster none next h k = k
ended_or-IsOutcome cluster (some result) next h k = h

settle_or_wait-IsOutcome :
    (cluster : String) (settle : ℕ) (round : Round) (cache : LogCache) (stable : Option ℕ)
    → IsOrderly cluster cache
    → IsOutcome cluster (settle_or_wait settle round cache stable)
unfolding settle_or_wait settled is_valid_probe_collection_state
settle_or_wait-IsOutcome cluster settle round cache none h = elim (Bool-cases (can_settle cache)) [
  | inl e ↦ rw e h
  | inr e ↦ rw e h
]
settle_or_wait-IsOutcome cluster settle round cache (some since) h =
    elim (Bool-cases (can_settle cache)) [
      | inl e ↦ rw e (elim (Bool-cases (leb (since + settle) round.now)) [
        | inl f ↦ rw f (record {
          numbered = h.numbered;
          kept = h.kept;
          noted = h.noted;
          collection = record {
            state = probe_collection_state_settled;
            completed_at = round.printed;
          };
          collected = refl;
          valid = refl;
        })
        | inr f ↦ rw f h
      ])
      | inr e ↦ rw e h
    ]

after_read-IsOutcome :
    (cluster : String) (c : Collector) (settle : ℕ) (round : Round) (cache : LogCache)
    (changed : Bool) (stable : Option ℕ)
    → IsOrderly cluster cache
    → IsOutcome cluster (after_read c settle round cache changed stable)
unfolding after_read
after_read-IsOutcome cluster c settle round cache changed stable h =
    ended_or-IsOutcome cluster _ _ (stopped-IsReport cluster round.after _ round.printed cache h)
      (elim (Option-cases round.error) [
        | inl e ↦ rw e (settle_or_wait-IsOutcome cluster settle round cache _ h)
        | inr (error, e) ↦
            rw e (read_failed-IsReport cluster round.late error round.printed cache h)
      ])

run_round-IsOutcome :
    (c : Collector) (settle : ℕ) (round : Round) (cache : LogCache) (stable : Option ℕ)
    → IsOrderly c.cluster_id cache
    → IsOutcome c.cluster_id (run_round c settle round cache stable)
unfolding run_round
run_round-IsOutcome c settle round cache stable h =
    ended_or-IsOutcome c.cluster_id _ _
      (stopped-IsReport c.cluster_id round.before _ round.printed cache h)
      (after_read-IsOutcome c.cluster_id c settle round _ _ stable
        (merge_all-IsOrderly c round.snapshots cache h))

resume-IsReport :
    (cluster : String) (outcome : RoundOutcome) (next : LogCache → Option ℕ → Option LogResult)
    → IsOutcome cluster outcome
    → ((cache : LogCache) (since : Option ℕ)
        → IsOrderly cluster cache
        → AllOf (IsReport cluster) (next cache since))
    → AllOf (IsReport cluster) (resume outcome next)
resume-IsReport cluster (ended result) next h k = h
resume-IsReport cluster (waiting cache since) next h k = k cache since h

collect_from-IsReport :
    (c : Collector) (settle : ℕ) (rounds : List Round) (cache : LogCache) (stable : Option ℕ)
    → IsOrderly c.cluster_id cache
    → AllOf (IsReport c.cluster_id) (collect_from c settle rounds cache stable)
unfolding collect_from
collect_from-IsReport c settle [] cache stable h = tt
collect_from-IsReport c settle (round ∷ rounds) cache stable h =
    resume-IsReport c.cluster_id (run_round c settle round cache stable)
      (collect_from c settle rounds) (run_round-IsOutcome c settle round cache stable h)
      (λ merged since k. collect_from-IsReport c settle rounds merged since k)

-- A collection that ends reports records which are named by their places, so are distinct, and
-- acceptable to the server for this cluster, and notes of which no identity stands twice; its
-- state is a valid one.
pub collect-IsReport :
    (c : Collector) (settle : ℕ) (rounds : List Round) (result : LogResult)
    → collect_probe_window c settle rounds ≡ some result
    → IsReport c.cluster_id result
unfolding collect_probe_window
collect-IsReport c settle rounds result e =
    subst (AllOf (IsReport c.cluster_id)) e
      (collect_from-IsReport c settle rounds empty_cache none (empty_cache-IsOrderly c.cluster_id))
