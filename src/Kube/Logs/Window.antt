-- ===== src/Kube/Logs/Window.antt =====
-- When a collection may end, and its loop: canSettle and collectProbeWindow of
-- internal/kube/probe_logs.go. What a round sees of the clock, of the context and of the reader
-- is given with the round.
pub mod Reports
pub mod Settling
pub mod Ends
mod Examples
use gate_lens.Common.{
  ℕ, zero, suc, ◌+◌, String, Bool, true, false, List, [], ◌∷◌, ◌++◌, Option, none, some, ◌==◌, ◌&&◌,
  ◌||◌, not, any, all, keep, last?, length, is_empty, leb, nat_eq, if◌then◌else◌, ◌+++◌, trim_space,
  lookup, insert,
}
use gate_lens.Domain.Values.{
  ProbeIssueCode, ProbeCollectionState, probe_collection_state_settled,
  probe_collection_state_window_ended, probe_collection_state_cancelled,
  probe_collection_state_read_error, probe_issue_code_collection_window_ended,
  probe_issue_code_collection_cancelled, probe_issue_code_log_read_error,
}
use gate_lens.Domain.Hop.{ObservedHop}
use gate_lens.Domain.Issues.{ProbeIssue, breaks_log_order}
use gate_lens.Domain.Probe.{ProbeCollection}
use gate_lens.Kube.Logs.{LogSnapshot, LogCache, Collector, empty_cache, note, merge}

pub usable_address : String → Bool
usable_address value = not (trim_space value == "") && not (trim_space value == "-")

pub is_traceable : ObservedHop → Bool
is_traceable hop =
    not (hop.runtime_source == "")
    && not (hop.request_start_time == "")
    && usable_address hop.downstream_remote_address

pub settle_key : ObservedHop → String
settle_key hop =
    hop.runtime_source +++ "\0" +++ hop.request_start_time +++ "\0"
    +++ hop.downstream_remote_address +++ "\0" +++ hop.downstream_local_address

abbrev pub records_in : String → List (String × List ObservedHop) → List ObservedHop
records_in key groups = elim (lookup key groups) [ none ↦ [] | some hops ↦ hops ]

-- The loop that fills `groups`.
pub group_records :
    List (String × List ObservedHop) → List ObservedHop → List (String × List ObservedHop)
group_records groups [] = groups
group_records groups (hop ∷ hops) =
    let key = settle_key hop in
    group_records (insert key (records_in key groups ++ hop ∷ []) groups) hops

abbrev pub ends_redirected : Option ObservedHop → Bool
ends_redirected none = false
ends_redirected (some hop) = hop.internal_redirect

pub is_closed : List ObservedHop → Bool
is_closed hops =
    nat_eq (length (keep (λ (hop : ObservedHop). not hop.internal_redirect) hops)) 1
    && not (ends_redirected (last? hops))

pub can_settle : LogCache → Bool
can_settle cache =
    not (is_empty cache.hops)
    && not (any (λ issue. breaks_log_order issue) cache.issues)
    && all (λ hop. is_traceable hop) cache.hops
    && all (λ (group : String × List ObservedHop). is_closed (group.1))
        (group_records [] cache.hops)

-- probeLogResult
pub record LogResult : Type 0 where
  pub hops : List ObservedHop
  pub collection : Option ProbeCollection
  pub issues : List ProbeIssue

-- What the contexts say: a cancelled caller ends the window too.
pub data WindowContext : Type 0 where
  live window_over : WindowContext
  cancelled : String → WindowContext

-- What one round sees: the contexts at its start, behind the reading and behind an error of the
-- reader, what the reader returns, the clock, and the printed time.
pub record Round : Type 0 where
  pub before : WindowContext
  pub snapshots : List LogSnapshot
  pub error : Option String
  pub after : WindowContext
  pub late : WindowContext
  pub now : ℕ
  pub printed : String

-- The closure `finish` without a reason, and with one.
pub settled : String → LogCache → LogResult
settled printed cache = record {
  hops = cache.hops;
  collection = some (record { state = probe_collection_state_settled; completed_at = printed });
  issues = cache.issues;
}

pub finish : ProbeCollectionState → ProbeIssueCode → String → String → LogCache → LogResult
finish state code reason printed cache = record {
  hops = cache.hops;
  collection = some (record { state = state; completed_at = printed });
  issues = if reason == "" then cache.issues else note code reason cache.issues;
}

abbrev pub cancel : String → String → LogCache → LogResult
cancel cause printed cache =
    finish probe_collection_state_cancelled probe_issue_code_collection_cancelled
      ("日志采集已取消：" +++ cause) printed cache

abbrev pub window_end : String → String → LogCache → LogResult
window_end reason printed cache =
    finish probe_collection_state_window_ended probe_issue_code_collection_window_ended reason
      printed cache

-- A test of the contexts.
unfoldable pub stopped : WindowContext → String → String → LogCache → Option LogResult
stopped live reason printed cache = none
stopped window_over reason printed cache = some (window_end reason printed cache)
stopped (cancelled cause) reason printed cache = some (cancel cause printed cache)

pub read_failed : WindowContext → String → String → LogCache → LogResult
read_failed (cancelled cause) error printed cache = cancel cause printed cache
read_failed live error printed cache =
    finish probe_collection_state_read_error probe_issue_code_log_read_error error printed cache
read_failed window_over error printed cache =
    finish probe_collection_state_read_error probe_issue_code_log_read_error error printed cache

-- A round ends the collection, or leaves the cache and the time since when it is stable.
pub data RoundOutcome : Type 0 where
  ended : LogResult → RoundOutcome
  waiting : LogCache → Option ℕ → RoundOutcome

-- The tests of the settling, with the time since when the cache is stable.
pub settle_or_wait : ℕ → Round → LogCache → Option ℕ → RoundOutcome
settle_or_wait settle round cache none =
    if can_settle cache then waiting cache (some round.now) else waiting cache none
settle_or_wait settle round cache (some since) =
    if can_settle cache
    then (if leb (since + settle) round.now
        then ended (settled round.printed cache)
        else waiting cache (some since))
    else waiting cache (some since)

abbrev pub ended_or : Option LogResult → RoundOutcome → RoundOutcome
ended_or (some result) next = ended result
ended_or none next = next

abbrev pub resume : RoundOutcome → (LogCache → Option ℕ → Option LogResult) → Option LogResult
resume (ended result) next = some result
resume (waiting cache since) next = next cache since

module _ (c : Collector) where
  pub merge_all : List LogSnapshot → LogCache → LogCache × Bool
  merge_all [] cache = (cache, false)
  merge_all (snapshot ∷ snapshots) cache =
      let (merged, changed) = merge c snapshot cache in
      let (all_merged, later) = merge_all snapshots merged in (all_merged, changed || later)

  pub after_read : ℕ → Round → LogCache → Bool → Option ℕ → RoundOutcome
  after_read settle round cache changed stable =
      ended_or (stopped round.after "日志采集窗口已结束，读取受剩余时间限制" round.printed cache) (elim round.error [
        | some error ↦ ended (read_failed round.late error round.printed cache)
        | none ↦
            settle_or_wait settle round cache
              (if changed || not (can_settle cache) then none else stable)
      ])

  unfoldable pub run_round : ℕ → Round → LogCache → Option ℕ → RoundOutcome
  run_round settle round cache stable =
      let (merged, changed) = merge_all round.snapshots cache in
      ended_or (stopped round.before "日志采集窗口已结束，未确认稳定终止记录" round.printed cache)
        (after_read settle round merged changed stable)

  -- The loop from a cache on; without a result, the rounds do not suffice.
  unfoldable pub collect_from : ℕ → List Round → LogCache → Option ℕ → Option LogResult
  collect_from settle [] cache stable = none
  collect_from settle (round ∷ rounds) cache stable =
      resume (run_round settle round cache stable) (collect_from settle rounds)

  unfoldable pub collect_probe_window : ℕ → List Round → Option LogResult
  collect_probe_window settle rounds = collect_from settle rounds empty_cache none
