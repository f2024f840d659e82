-- ===== src/Kube/Logs/Window/Ends.antt =====
-- The end of a collection.
use gate_lens.Common.{ℕ, String, List, ◌∷◌, Option, none, some, ◌≡◌, refl, ◌≢◌}
use gate_lens.Kube.Logs.{LogCache, Collector, empty_cache}
use gate_lens.Kube.Logs.Window.{
  WindowContext, live, window_over, cancelled, Round, LogResult, RoundOutcome, ended, waiting,
  stopped, ended_or, resume, run_round, collect_from, collect_probe_window,
}

-- Some round starts behind the end of the window, or of the caller.
pub data HasEnd : List Round → Type 0 where
  here : (round : Round) (rounds : List Round) → round.before ≢ live → HasEnd (round ∷ rounds)
  there : (round : Round) (rounds : List Round) → HasEnd rounds → HasEnd (round ∷ rounds)

module _ (c : Collector) where
  abbrev Returns : ℕ → List Round → LogCache → Option ℕ → Type 0
  Returns settle rounds cache stable =
      (result : LogResult) × (collect_from c settle rounds cache stable ≡ some result)

  stopped_returns :
      (context : WindowContext) (reason : String) (printed : String) (cache : LogCache)
      (next : RoundOutcome) (go_on : LogCache → Option ℕ → Option LogResult)
      → context ≢ live
      → (result : LogResult) × (resume (ended_or (stopped context reason printed cache) next) go_on
          ≡ some result)
  unfolding stopped
  stopped_returns live reason printed cache next go_on h = absurd (h refl)
  stopped_returns window_over reason printed cache next go_on h = (_, refl)
  stopped_returns (cancelled cause) reason printed cache next go_on h = (_, refl)

  resume_returns :
      (outcome : RoundOutcome) (go_on : LogCache → Option ℕ → Option LogResult)
      → ((cache : LogCache) (since : Option ℕ)
          → (result : LogResult) × (go_on cache since ≡ some result))
      → (result : LogResult) × (resume outcome go_on ≡ some result)
  resume_returns (ended result) go_on h = (result, refl)
  resume_returns (waiting cache since) go_on h = h cache since

  collect_from-Returns :
      (settle : ℕ) (rounds : List Round) (cache : LogCache) (stable : Option ℕ)
      → HasEnd rounds
      → Returns settle rounds cache stable
  unfolding collect_from run_round
  collect_from-Returns settle _ cache stable (here round rounds over) =
      stopped_returns round.before _ _ cache _ (collect_from c settle rounds) over
  collect_from-Returns settle _ cache stable (there round rounds h) =
      resume_returns (run_round c settle round cache stable) (collect_from c settle rounds)
        (λ merged since. collect_from-Returns settle rounds merged since h)

  -- Rounds of which one starts behind the end of the window, or of the caller, are enough for the
  -- collection to return.
  pub collect_ends :
      (settle : ℕ) (rounds : List Round)
      → HasEnd rounds
      → (result : LogResult) × (collect_probe_window c settle rounds ≡ some result)
  unfolding collect_probe_window
  collect_ends settle rounds h = collect_from-Returns settle rounds empty_cache none h
