-- ===== src/Federation/Commands/Delivery.antt =====
-- Which commands an agent is handed.
use mathlib.Core.List.{Memᴰ}
use gate_lens.Common.{
  ℕ, zero, suc, length, is_some, ◌≤◌, String, true, false, List, [], ◌∷◌, ◌++◌, Option, some, ◌≡◌,
  ◌≢◌, refl, sym, ◌∙◌, ap, subst, ◌⊎◌, inl, inr, eq_iff, eq_refl, ◌||◌, not, trim_space, lookup, ok,
  All, arith, Bool-cases, Option-cases,
}
use gate_lens.Domain.Command.{AgentCommand}
use gate_lens.Federation.Store.{Store, PendingCommand}
use gate_lens.Federation.Commands.{
  set_queue, queue_of, poll, next_agent_command, is_expired, is_awaited,
}
use gate_lens.Federation.Commands.Calls.{next-polls, queue_of-set_queue}

is_awaited-eq-true :
    (s : Store) (cluster : String) (command : AgentCommand)
    → is_awaited s cluster command ≡ true
    → (pending : PendingCommand) × (lookup command.id s.pending_commands ≡ some pending)
      × (pending.cluster_id ≡ cluster)
unfolding is_awaited
is_awaited-eq-true s cluster command h =
    elim (Option-cases (lookup command.id s.pending_commands)) [
      | inl missing ↦ absurd (ground arith)
      | inr (pending, found) ↦ (pending, found, ground (arith, eq_iff pending.cluster_id cluster))
    ]

module _ (parse_time : String → Option ℕ) where
  -- A command that `poll` passes over: its deadline is past, or nobody of the cluster awaits it.
  abbrev pub IsStale : Store → ℕ → String → AgentCommand → Type 0
  IsStale s now cluster command =
      (is_expired parse_time now command ≡ true) ⊎ (is_awaited s cluster command ≡ false)

  abbrev pub IsDelivered : Store → ℕ → String → AgentCommand → Type 0
  IsDelivered s now cluster command =
      (is_expired parse_time now command ≡ false)
      × ((pending : PendingCommand) × (lookup command.id s.pending_commands ≡ some pending)
          × (pending.cluster_id ≡ cluster))

  poll_first :
      (s : Store) (now : ℕ) (cluster : String) (rounds : ℕ) (queue : List AgentCommand)
      (command : AgentCommand)
      → (poll parse_time s now cluster rounds queue).1 ≡ some command
      → (passed : List AgentCommand) × (queue
          ≡ passed ++ command ∷ (poll parse_time s now cluster rounds queue).0)
        × All (IsStale s now cluster) passed
        × IsDelivered s now cluster command
  unfolding poll
  poll_first s now cluster zero queue command h = cc
  poll_first s now cluster (suc rounds) [] command h = cc
  poll_first s now cluster (suc rounds) (c ∷ queue) command h =
      elim (Bool-cases (is_expired parse_time now c || not (is_awaited s cluster c))) [
        | inl stale ↦
            let later = rw (stale, poll) at h in
            let (passed, split, old, delivered) =
              poll_first s now cluster rounds queue command later in
            (
              c ∷ passed,
              rw stale (ap (λ (q : List AgentCommand). c ∷ q) split),
              (ground arith, old),
              delivered,
            )
        | inr fresh ↦
            let same : some c ≡ some command = rw (fresh, poll) at h in
            let this : c ≡ command = ground arith in
            (
              [],
              rw fresh (ap (λ (x : AgentCommand). x ∷ queue) this),
              tt,
              subst (IsDelivered s now cluster) this
                  (ground arith, is_awaited-eq-true s cluster c (ground arith)),
            )
      ]

  -- A poll that hands out a command took it from the queue of the cluster that asked: the commands
  -- before it, which are dropped, are past their deadline or no longer awaited, those behind it stay
  -- queued in order, and it is itself not past its deadline and awaited by a request to this cluster.
  pub next_delivers :
      (s t : Store) (now rounds : ℕ) (asked : String) (command : AgentCommand)
      → next_agent_command parse_time s now rounds asked ≡ ok (t, some command)
      → let cluster = trim_space asked in
        (passed : List AgentCommand) × (queue_of s cluster ≡ passed ++ command ∷ queue_of t cluster)
        × All (IsStale s now cluster) passed
        × IsDelivered s now cluster command
  next_delivers s t now rounds asked command h =
      let cluster = trim_space asked in
      let (registered, same, delivered) =
        next-polls parse_time s t now rounds asked (some command) h in
      let (passed, split, old, good) =
        poll_first s now cluster rounds (queue_of s cluster) command delivered in
      let left : (poll parse_time s now cluster rounds (queue_of s cluster)).0
          ≡ queue_of t cluster =
        sym (
          ap (λ (u : Store). queue_of u cluster) (sym same)
          ∙ (queue_of-set_queue s cluster cluster _ ∙ rw eq_refl)) in
      (passed, split ∙ ap (λ (q : List AgentCommand). passed ++ command ∷ q) left, old, good)

  abbrev pub CanServe : Store → ℕ → String → AgentCommand → Type 0
  CanServe s now cluster command =
      (is_expired parse_time now command ≡ false) × (is_awaited s cluster command ≡ true)

  not_first :
      (s : Store) (now : ℕ) (cluster : String) {c command : AgentCommand}
      {queue : List AgentCommand}
      → Memᴰ command (c ∷ queue)
      → CanServe s now cluster command
      → (is_expired parse_time now c || not (is_awaited s cluster c)) ≡ true
      → Memᴰ command queue
  not_first s now cluster (Memᴰ.head e) can stale =
      let same = subst (CanServe s now cluster) e can in absurd (ground arith)
  not_first s now cluster (Memᴰ.tail listed) can stale = listed

  poll_serves :
      (s : Store) (now : ℕ) (cluster : String) (rounds : ℕ) (queue : List AgentCommand)
      (command : AgentCommand)
      → Memᴰ command queue
      → CanServe s now cluster command
      → length queue ≤ rounds
      → (served : AgentCommand) × ((poll parse_time s now cluster rounds queue).1 ≡ some served)
  unfolding poll
  poll_serves s now cluster rounds [] command listed can enough = elim listed [ ]
  poll_serves s now cluster zero (c ∷ queue) command listed can enough = absurd (omega arith)
  poll_serves s now cluster (suc rounds) (c ∷ queue) command listed can enough =
      elim (Bool-cases (is_expired parse_time now c || not (is_awaited s cluster c))) [
        | inl stale ↦ rw stale (
            poll_serves s now cluster rounds queue command
              (not_first s now cluster listed can stale) can (omega arith))
        | inr fresh ↦ rw fresh (c, refl)
      ]

  -- If a command that is not past its deadline and is awaited by a request to the cluster waits in
  -- the cluster's queue, and the poll of that cluster, which is registered, is not ended before it
  -- has taken every queued command, then the poll succeeds and hands out a command.
  pub next_serves :
      (s : Store) (now rounds : ℕ) (asked : String) (command : AgentCommand)
      → trim_space asked ≢ ""
      → is_some (lookup (trim_space asked) s.snapshots) ≡ true
      → Memᴰ command (queue_of s (trim_space asked))
      → CanServe s now (trim_space asked) command
      → length (queue_of s (trim_space asked)) ≤ rounds
      → (t : Store) × (served : AgentCommand) × (next_agent_command parse_time s now rounds asked
          ≡ ok (t, some served))
  unfolding next_agent_command
  next_serves s now rounds asked command named registered listed can enough =
      let cluster = trim_space asked in
      let queue = queue_of s cluster in
      let (served, found) = poll_serves s now cluster rounds queue command listed can enough in
      let polled = poll parse_time s now cluster rounds queue in
      (set_queue s cluster polled.0, served, ground (arith, eq_iff cluster ""))
