-- ===== src/Kube/Logs/Window/Settling.antt =====
-- When a collection is settled.
use gate_lens.Common.{
  ℕ, ◌+◌, ◌≤◌, String, Bool, true, false, List, [], ◌∷◌, Option, none, some, ◌==◌, ◌≡◌, refl, ap,
  subst, sym, ◌∙◌, ◌⊎◌, inl, inr, Bool-cases, Option-cases, arith, leb, leb→le, not, ◌||◌, eq_iff,
}
use gate_lens.Domain.Values.{ProbeCollectionState, ProbeIssueCode, probe_collection_state_settled}
use gate_lens.Domain.Probe.{ProbeCollection}
use gate_lens.Kube.Logs.{LogSnapshot, LogCache, Collector, empty_cache, merge}
use gate_lens.Kube.Logs.Unchanged.{merge-unchanged}
use gate_lens.Kube.Logs.Window.{
  WindowContext, live, window_over, cancelled, Round, LogResult, RoundOutcome, ended, waiting,
  settled, finish, stopped, read_failed, settle_or_wait, ended_or, resume, merge_all, after_read,
  run_round, collect_from, collect_probe_window, can_settle,
}

merge_all-unchanged :
    (c : Collector) (snapshots : List LogSnapshot) (cache : LogCache)
    → (merge_all c snapshots cache).1 ≡ false
    → (merge_all c snapshots cache).0.hops ≡ cache.hops
unfolding merge_all
merge_all-unchanged c [] cache e = refl
merge_all-unchanged c (snapshot ∷ snapshots) cache e =
    merge_all-unchanged c snapshots ((merge c snapshot cache).0) (ground arith)
    ∙ merge-unchanged c snapshot cache (ground arith)

module _ (c : Collector) where
  abbrev pub read_round : Round → LogCache → LogCache
  read_round round cache = (merge_all c round.snapshots cache).0

  -- Further rounds add no record and leave the cache able to settle, up to a round at this time
  -- or later, which leaves the last cache.
  pub data IsQuiet (time : ℕ) : List Round → LogCache → LogCache → Type 0 where
    last :
        (round : Round) (rounds : List Round) (cache : LogCache)
        → (read_round round cache).hops ≡ cache.hops
        → can_settle (read_round round cache) ≡ true
        → time ≤ round.now
        → IsQuiet time (round ∷ rounds) cache (read_round round cache)
    wait :
        (round : Round) (rounds : List Round) (cache final : LogCache)
        → (read_round round cache).hops ≡ cache.hops
        → can_settle (read_round round cache) ≡ true
        → IsQuiet time rounds (read_round round cache) final
        → IsQuiet time (round ∷ rounds) cache final

  -- Some round leaves a cache that can settle, and the rounds behind it are quiet for so long.
  pub data IsSettling (settle : ℕ) : List Round → LogCache → LogCache → Type 0 where
    now :
        (round : Round) (rounds : List Round) (cache final : LogCache)
        → can_settle (read_round round cache) ≡ true
        → IsQuiet (round.now + settle) rounds (read_round round cache) final
        → IsSettling settle (round ∷ rounds) cache final
    later :
        (round : Round) (rounds : List Round) (cache final : LogCache)
        → IsSettling settle rounds (read_round round cache) final
        → IsSettling settle (round ∷ rounds) cache final

  -- From a cache that has been able to settle since a time, if there is one.
  abbrev Continues : ℕ → Option ℕ → List Round → LogCache → LogCache → Type 0
  Continues settle none rounds cache final = IsSettling settle rounds cache final
  Continues settle (some since) rounds cache final =
      IsQuiet (since + settle) rounds cache final ⊎ IsSettling settle rounds cache final

  -- The result says settled.
  abbrev pub SaysSettled : LogResult → Type 0
  SaysSettled result =
      (collection : ProbeCollection) × (result.collection ≡ some collection)
      × (collection.state ≡ probe_collection_state_settled)

  -- What a round leaves: a settled report of its cache, or a cache and how long it is stable.
  data Leaves (settle : ℕ) (round : Round) (cache merged : LogCache) (stable : Option ℕ)
      : RoundOutcome → Type 0 where
    reports :
        (since : ℕ) (result : LogResult)
        → stable ≡ some since
        → merged.hops ≡ cache.hops
        → can_settle merged ≡ true
        → since + settle ≤ round.now
        → result.hops ≡ merged.hops
        → Leaves settle round cache merged stable (ended result)
    fails :
        (result : LogResult)
        → (¬ SaysSettled result)
        → Leaves settle round cache merged stable (ended result)
    unstable : Leaves settle round cache merged stable (waiting merged none)
    starts :
        can_settle merged ≡ true
        → Leaves settle round cache merged stable (waiting merged (some round.now))
    keeps :
        (since : ℕ)
        → stable ≡ some since
        → merged.hops ≡ cache.hops
        → can_settle merged ≡ true
        → Leaves settle round cache merged stable (waiting merged (some since))

  finish-fails :
      (state : ProbeCollectionState) (code : ProbeIssueCode) (reason printed : String)
      (cache : LogCache)
      → (state == probe_collection_state_settled) ≡ false
      → ¬ SaysSettled (finish state code reason printed cache)
  unfolding finish
  finish-fails state code reason printed cache e (collection, found, says) =
      let same : state ≡ collection.state = ground arith in
      ground (arith, eq_iff state probe_collection_state_settled, same ∙ says)

  stopped-Leaves :
      (settle : ℕ) (round : Round) (cache merged : LogCache) (stable : Option ℕ)
      (context : WindowContext) (reason : String) (ended_cache : LogCache) (next : RoundOutcome)
      → Leaves settle round cache merged stable next
      → Leaves settle round cache merged stable
          (ended_or (stopped context reason round.printed ended_cache) next)
  unfolding stopped
  stopped-Leaves settle round cache merged stable live reason ended_cache next h = h
  stopped-Leaves settle round cache merged stable window_over reason ended_cache next h =
      fails _ (finish-fails _ _ _ _ _ refl)
  stopped-Leaves settle round cache merged stable (cancelled cause) reason ended_cache next h =
      fails _ (finish-fails _ _ _ _ _ refl)

  read_failed-fails :
      (context : WindowContext) (error printed : String) (cache : LogCache)
      → ¬ SaysSettled (read_failed context error printed cache)
  unfolding read_failed
  read_failed-fails live error printed cache = finish-fails _ _ _ _ _ refl
  read_failed-fails window_over error printed cache = finish-fails _ _ _ _ _ refl
  read_failed-fails (cancelled cause) error printed cache = finish-fails _ _ _ _ _ refl

  settle_or_wait-none :
      (settle : ℕ) (round : Round) (cache merged : LogCache) (stable : Option ℕ)
      → Leaves settle round cache merged stable (settle_or_wait settle round merged none)
  unfolding settle_or_wait
  settle_or_wait-none settle round cache merged stable = elim (Bool-cases (can_settle merged)) [
    | inl e ↦ rw e (starts e)
    | inr e ↦ rw e unstable
  ]

  settle_or_wait-some :
      (settle : ℕ) (round : Round) (cache merged : LogCache) (stable : Option ℕ)
      → merged.hops ≡ cache.hops
      → can_settle merged ≡ true
      → Leaves settle round cache merged stable (settle_or_wait settle round merged stable)
  unfolding settle_or_wait settled
  settle_or_wait-some settle round cache merged none same e =
      settle_or_wait-none settle round cache merged none
  settle_or_wait-some settle round cache merged (some since) same e =
      rw e (elim (Bool-cases (leb (since + settle) round.now)) [
        | inl f ↦ rw f (reports since _ refl same e (leb→le _ _ f) refl)
        | inr f ↦ rw f (keeps since refl same e)
      ])

  after_read-Leaves :
      (settle : ℕ) (round : Round) (cache merged : LogCache) (changed : Bool) (stable : Option ℕ)
      → (changed ≡ false → merged.hops ≡ cache.hops)
      → Leaves settle round cache merged stable (after_read c settle round merged changed stable)
  unfolding after_read
  after_read-Leaves settle round cache merged changed stable same =
      stopped-Leaves settle round cache merged stable round.after _ merged _
        (elim (Option-cases round.error) [
          | inr (error, e) ↦
              simp e (fails _ (read_failed-fails round.late error round.printed merged))
          | inl e ↦ simp e (elim (Bool-cases (changed || not (can_settle merged))) [
            | inl f ↦ rw f (settle_or_wait-none settle round cache merged stable)
            | inr f ↦ rw f (
                settle_or_wait-some settle round cache merged stable (same (ground arith))
                  (ground arith))
          ])
        ])

  run_round-Leaves :
      (settle : ℕ) (round : Round) (cache : LogCache) (stable : Option ℕ)
      → Leaves settle round cache
          (read_round round cache)
          stable
          (run_round c settle round cache stable)
  unfolding run_round
  run_round-Leaves settle round cache stable =
      stopped-Leaves settle round cache _ stable round.before _ cache _ (
        after_read-Leaves settle round cache _ _ stable
          (merge_all-unchanged c round.snapshots cache))

  -- The result's records are those of a last cache, which can settle after a quiet time.
  abbrev EndsSettled : ℕ → Option ℕ → List Round → LogCache → LogResult → Type 0
  EndsSettled settle stable rounds cache result =
      (final : LogCache) × Continues settle stable rounds cache final
      × (can_settle final ≡ true)
      × (result.hops ≡ final.hops)

  Continues-later :
      (settle : ℕ) (stable : Option ℕ) (rounds : List Round) (cache final : LogCache)
      → IsSettling settle rounds cache final
      → Continues settle stable rounds cache final
  Continues-later settle none rounds cache final h = h
  Continues-later settle (some since) rounds cache final h = inr h

  resume-EndsSettled :
      (settle : ℕ) (round : Round) (rounds : List Round) (cache : LogCache) (stable : Option ℕ)
      (result : LogResult) (outcome : RoundOutcome)
      → Leaves settle round cache (read_round round cache) stable outcome
      → resume outcome (collect_from c settle rounds) ≡ some result
      → SaysSettled result
      → ((since : Option ℕ)
          → collect_from c settle rounds (read_round round cache) since ≡ some result
          → EndsSettled settle since rounds (read_round round cache) result)
      → EndsSettled settle stable (round ∷ rounds) cache result
  resume-EndsSettled settle round rounds cache stable result _
        (reports since reported stable_since same able passed its) e says next =
      let merged = read_round round cache in
      let quiet = last round rounds cache same able passed in
      let equal : result ≡ reported = ground arith in
      (
        merged,
        subst (λ s. Continues settle s (round ∷ rounds) cache merged) (sym stable_since)
            (inl quiet),
        able,
        ap (λ (r : LogResult). r.hops) equal ∙ its,
      )
  resume-EndsSettled settle round rounds cache stable result _ (fails failed not_settled) e says
        next =
      let equal : result ≡ failed = ground arith in
      absurd (not_settled (subst SaysSettled equal says))
  resume-EndsSettled settle round rounds cache stable result _ unstable e says next =
      let (final, settling, able, its) = next none e in
      (
        final,
        Continues-later settle stable (round ∷ rounds) cache final
            (later round rounds cache final settling),
        able,
        its,
      )
  resume-EndsSettled settle round rounds cache stable result _ (starts able) e says next =
      let (final, continues, final_able, its) = next (some round.now) e in
      (
        final,
        Continues-later settle stable (round ∷ rounds) cache final (elim continues [
          | inl quiet ↦ now round rounds cache final able quiet
          | inr settling ↦ later round rounds cache final settling
        ]),
        final_able,
        its,
      )
  resume-EndsSettled settle round rounds cache stable result _ (keeps since stable_since same able)
        e says next =
      let (final, continues, final_able, its) = next (some since) e in
      (
        final,
        subst (λ s. Continues settle s (round ∷ rounds) cache final) (sym stable_since)
            (elim continues [
              | inl quiet ↦ inl (wait round rounds cache final same able quiet)
              | inr settling ↦ inr (later round rounds cache final settling)
            ]),
        final_able,
        its,
      )

  collect_from-EndsSettled :
      (settle : ℕ) (rounds : List Round) (cache : LogCache) (stable : Option ℕ) (result : LogResult)
      → collect_from c settle rounds cache stable ≡ some result
      → SaysSettled result
      → EndsSettled settle stable rounds cache result
  unfolding collect_from
  collect_from-EndsSettled settle [] cache stable result e says = absurd (ground arith)
  collect_from-EndsSettled settle (round ∷ rounds) cache stable result e says =
      resume-EndsSettled settle round rounds cache stable result _
        (run_round-Leaves settle round cache stable) e says
        (λ since f.
          collect_from-EndsSettled settle rounds (read_round round cache) since result f says)

  -- A collection that says settled reports the records of a last cache, which can settle: from
  -- some round on the cache could settle in every round, no round added a record, and the settling
  -- time passed between that round and the last one.
  pub collect-settled :
      (settle : ℕ) (rounds : List Round) (result : LogResult)
      → collect_probe_window c settle rounds ≡ some result
      → SaysSettled result
      → (final : LogCache) × IsSettling settle rounds empty_cache final
        × (can_settle final ≡ true)
        × (result.hops ≡ final.hops)
  unfolding collect_probe_window
  collect-settled settle rounds result e says =
      collect_from-EndsSettled settle rounds empty_cache none result e says
