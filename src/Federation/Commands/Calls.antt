-- ===== src/Federation/Commands/Calls.antt =====
-- What a call that succeeds has found and done.
use gate_lens.Common.{
  ℕ, String, List, Option, none, some, ◌≡◌, ◌≢◌, ◌⊎◌, Bool, sym, ◌∙◌, ap, subst, inl, inr, ◌==◌,
  eq_iff, if◌then◌else◌, trim_space, lookup, lookup-insert, ok, arith, Bool-cases, Option-cases,
}
use gate_lens.Domain.Command.{AgentCommand, AgentCommandResult}
use gate_lens.Federation.Store.{Store, PendingCommand}
use gate_lens.Federation.Commands.{
  queue_of, set_queue, poll, next_agent_command, answer, answer_forgotten, find_pending,
  send_result, trimmed,
}

pub queue_of-set_queue :
    (s : Store) (cluster other : String) (queue : List AgentCommand)
    → queue_of (set_queue s cluster queue) other
      ≡ (if cluster == other then queue else queue_of s other)
unfolding queue_of
queue_of-set_queue s cluster other queue = rw lookup-insert (ground arith)

-- A pending command that is found is the one of the result, and of its cluster.
pub find_pending-found :
    (s : Store) (sent result : AgentCommandResult) (pending : PendingCommand)
    → find_pending s sent ≡ ok (result, pending)
    → (trimmed sent ≡ result)
      × (result.command_id ≢ "")
      × (result.cluster_id ≢ "")
      × (lookup result.command_id s.pending_commands ≡ some pending)
      × (pending.cluster_id ≡ result.cluster_id)
unfolding find_pending
find_pending-found s sent result pending h =
    let asked = trimmed sent in
    elim (Option-cases (lookup asked.command_id s.pending_commands)) [
      | inl missing ↦ absurd (ground arith)
      | inr (p, found) ↦
          let same : asked ≡ result = ground arith in
          let named : asked.command_id ≢ "" = ground (arith, eq_iff asked.command_id "") in
          let from : asked.cluster_id ≢ "" = ground (arith, eq_iff asked.cluster_id "") in
          let this : p ≡ pending = ground arith in
          let own : p.cluster_id ≡ asked.cluster_id =
            ground (arith, eq_iff p.cluster_id asked.cluster_id) in
          (
            same,
            subst (λ (r : AgentCommandResult). r.command_id ≢ "") same named,
            subst (λ (r : AgentCommandResult). r.cluster_id ≢ "") same from,
            subst
                (λ (r : AgentCommandResult). lookup r.command_id s.pending_commands ≡ some pending)
                same (found ∙ ap some this),
            ap (λ (q : PendingCommand). q.cluster_id) (sym this)
                ∙ own
                ∙ ap (λ (r : AgentCommandResult). r.cluster_id) same,
          )
    ]

answer_forgotten-same :
    (full : Bool) (s t : Store) (result : AgentCommandResult)
    → answer_forgotten full s result ≡ ok t
    → s ≡ t
unfolding answer_forgotten
answer_forgotten-same full s t result h = ground arith

-- A send that succeeds stores the result in an entry of the same cluster, or stores nothing.
pub send_result-sends :
    (full : Bool) (s t : Store) (result : AgentCommandResult) (pending : PendingCommand)
    → send_result full s result pending ≡ ok t
    → (s ≡ t)
      ⊎ ((current : PendingCommand) × (lookup result.command_id s.pending_commands ≡ some current)
          × (current.cluster_id ≡ pending.cluster_id)
          × (answer s result current ≡ ok t))
unfolding send_result
send_result-sends full s t result pending h =
    elim (Option-cases (lookup result.command_id s.pending_commands)) [
      | inl missing ↦ inl (answer_forgotten-same full s t result (rw (missing, send_result) at h))
      | inr (current, found) ↦ elim (Bool-cases (current.cluster_id == pending.cluster_id)) [
        | inl same ↦ inr (
          current,
          found,
          (eq_iff current.cluster_id pending.cluster_id).0 same,
          ground (arith, found, same),
        )
        | inr other ↦ inl (answer_forgotten-same full s t result (ground (arith, found, other)))
      ]
    ]

-- A poll that succeeds asked for a registered cluster, and takes commands from its queue alone.
pub next-polls :
    (parse_time : String → Option ℕ) (s t : Store) (now rounds : ℕ) (asked : String)
    (command : Option AgentCommand)
    → next_agent_command parse_time s now rounds asked ≡ ok (t, command)
    → let cluster = trim_space asked in
      let polled = poll parse_time s now cluster rounds (queue_of s cluster) in
      (lookup cluster s.snapshots ≢ none)
      × (set_queue s cluster polled.0 ≡ t)
      × (polled.1 ≡ command)
unfolding next_agent_command
next-polls parse_time s t now rounds asked command h = (ground arith, ground arith, ground arith)
