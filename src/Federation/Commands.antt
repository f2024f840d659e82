-- ===== src/Federation/Commands.antt =====
-- The command broker: how a request hands a command to a cluster's agent and gets its result,
-- internal/federation/store.go. A clock is an argument of each call.
pub mod Calls
pub mod Steps
pub mod Invariant
pub mod Delivery
pub mod Kept
pub mod Answers
mod Examples
use gate_lens.Common.{
  ℕ, zero, suc, String, Bool, true, false, List, [], ◌∷◌, ◌++◌, Option, none, some, ◌==◌, ◌&&◌,
  ◌||◌, not, ltb, length, is_none, is_some, if◌then◌else◌, trim_space, lookup, insert, remove,
  Result, ok, err, ◌>>=◌, ◌>>◌, refuse, require,
}
use gate_lens.Domain.Command.{AgentCommand, AgentCommandResult}
use gate_lens.Federation.Store.{Store, PendingCommand}

abbrev pub agent_command_queue_size : ℕ
agent_command_queue_size = 32

pub data CommandError : Type 0 where
  queue_full not_registered no_longer_pending already_has_result : String → CommandError
  belongs_to_cluster : String → String → CommandError
  cluster_id_required ids_required result_required : CommandError

abbrev pub or_empty : Option (List AgentCommand) → List AgentCommand
or_empty none = []
or_empty (some queue) = queue

-- The queue of a cluster; a missing one is made, empty, by the code that asks for it.
pub queue_of : Store → String → List AgentCommand
queue_of s cluster = or_empty (lookup cluster s.command_queues)

abbrev pub set_queue : Store → String → List AgentCommand → Store
set_queue s cluster queue = record s { command_queues = insert cluster queue s.command_queues }

-- The deferred `delete(s.pendingCommands, commandID)`, when the request returns.
pub forget : Store → String → Store
forget s id = record s { pending_commands = remove id s.pending_commands }

-- The critical section at the start of executeProbeCommand and of EnvoyConfig.
pub register : Store → AgentCommand → Store
register s command =
    let waiting : PendingCommand = record { cluster_id = command.cluster_id; result = none } in
    record s {
      command_queues = insert command.cluster_id (queue_of s command.cluster_id) s.command_queues;
      pending_commands = insert command.id waiting s.pending_commands;
    }

-- The first `select`, when the request is not cancelled. A full queue refuses the command, which the
-- request forgets when it returns.
pub enqueue : Store → AgentCommand → Store × Option CommandError
enqueue s command =
    let queue = queue_of s command.cluster_id in
    if ltb (length queue) agent_command_queue_size
    then (set_queue s command.cluster_id (queue ++ command ∷ []), none)
    else (s, some (queue_full command.cluster_id))

-- The look-up in the pending commands, and the test of its cluster.
pub is_awaited : Store → String → AgentCommand → Bool
is_awaited s cluster command = elim (lookup command.id s.pending_commands) [
  | none ↦ false
  | some pending ↦ pending.cluster_id == cluster
]

-- `time.Parse` and the clock: the instant of a deadline, if it can be read.
module _ (parse_time : String → Option ℕ) where
  pub is_expired : ℕ → AgentCommand → Bool
  is_expired now command = elim (parse_time command.deadline) [
    | none ↦ false
    | some deadline ↦ ltb deadline now
  ]

  -- The rounds of the loop: what is left of the queue, and the command found. After `rounds` rounds
  -- another case of the `select` is taken: the end of the wait, or the caller's cancellation.
  pub poll : Store → ℕ → String → ℕ → List AgentCommand → List AgentCommand × Option AgentCommand
  poll s now cluster zero queue = (queue, none)
  poll s now cluster (suc rounds) [] = ([], none)
  poll s now cluster (suc rounds) (command ∷ queue) =
      let rest = poll s now cluster rounds queue in
      if is_expired now command || not (is_awaited s cluster command)
      then rest
      else (queue, some command)

  pub next_agent_command :
      Store → ℕ → ℕ → String → Result CommandError (Store × Option AgentCommand)
  unfolding poll
  next_agent_command s now rounds asked = do
    let cluster = trim_space asked
    refuse (cluster == "") cluster_id_required
    refuse (is_none (lookup cluster s.snapshots)) (not_registered cluster)
    let polled = poll s now cluster rounds (queue_of s cluster)
    ok (set_queue s cluster polled.0, polled.1)

abbrev pub has_content : AgentCommandResult → Bool
has_content result =
    is_some result.config || is_some result.probe || not (trim_space result.error == "")

abbrev pub trimmed : AgentCommandResult → AgentCommandResult
trimmed result = record result {
  command_id = trim_space result.command_id;
  cluster_id = trim_space result.cluster_id;
}

-- CompleteAgentCommand up to the end of its critical section and the test of the cluster: the result
-- to send, and the pending command whose channel it is sent on.
pub find_pending :
    Store → AgentCommandResult → Result CommandError (AgentCommandResult × PendingCommand)
find_pending s sent = do
  let result = trimmed sent
  refuse (result.command_id == "" || result.cluster_id == "") ids_required
  refuse (not (has_content result)) result_required
  pending ←
      require (lookup result.command_id s.pending_commands) (no_longer_pending result.command_id)
  refuse (not (pending.cluster_id == result.cluster_id))
      (belongs_to_cluster result.command_id pending.cluster_id)
  ok (result, pending)

-- The send on the channel of one result, with the entry that the channel stands in.
pub answer : Store → AgentCommandResult → PendingCommand → Result CommandError Store
answer s result current = do
  refuse (is_some current.result) (already_has_result result.command_id)
  ok (record s {
    pending_commands =
        insert result.command_id (record current { result = some result }) s.pending_commands;
  })

-- The same for a channel whose entry was deleted since it was found: `full` says whether a result
-- is in it. Nobody receives from it any more.
pub answer_forgotten : Bool → Store → AgentCommandResult → Result CommandError Store
answer_forgotten full s result = do refuse full (already_has_result result.command_id); ok s

-- The `select` of CompleteAgentCommand, when the agent is not cancelled. Identities of commands are
-- random, so an entry under the identity, of the same cluster, is the one that was found.
pub send_result : Bool → Store → AgentCommandResult → PendingCommand → Result CommandError Store
send_result full s result pending = elim (lookup result.command_id s.pending_commands) [
  | none ↦ answer_forgotten full s result
  | some current ↦
      if current.cluster_id == pending.cluster_id
      then answer s result current
      else answer_forgotten full s result
]

-- The whole call, when nothing comes between its two steps.
pub complete_agent_command : Store → AgentCommandResult → Result CommandError Store
complete_agent_command s sent = do
  found ← find_pending s sent
  send_result false s (found.0) (found.1)

-- The second `select` of a request, when it receives from the channel; the entry stays until the
-- request returns, and forgets it.
pub take_result : Store → String → Store × Option AgentCommandResult
take_result s id = elim (lookup id s.pending_commands) [
  | none ↦ (s, none)
  | some pending ↦ (
    record s { pending_commands = insert id (record pending { result = none }) s.pending_commands },
    pending.result,
  )
]
