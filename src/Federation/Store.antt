-- ===== src/Federation/Store.antt =====
-- The state of the server: the types of internal/federation/store.go. A channel of one result is an
-- optional result, and a queue channel is the list of the commands in it.
use gate_lens.Common.{ℕ, String, List, Option}
use gate_lens.Domain.Topology.{AgentSnapshot}
use gate_lens.Domain.Probe.{ProbeExecution}
use gate_lens.Domain.Command.{AgentCommand, AgentCommandResult}

pub record ReceivedSnapshot : Type 0 where
  pub payload : AgentSnapshot
  pub received_at : ℕ

pub record PendingCommand : Type 0 where
  pub cluster_id : String
  pub result : Option AgentCommandResult

pub record Store : Type 0 where
  pub preferred_cluster_id : String
  pub stale_after : ℕ
  pub snapshots : List (String × ReceivedSnapshot)
  pub command_queues : List (String × List AgentCommand)
  pub pending_commands : List (String × PendingCommand)
  pub probes : List (String × ProbeExecution)
