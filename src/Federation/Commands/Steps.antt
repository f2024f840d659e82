-- ===== src/Federation/Commands/Steps.antt =====
-- The steps of requests and agents, in whatever order.
use gate_lens.Common.{ℕ, String, Option, ◌≡◌, Bool, ok}
use gate_lens.Domain.Command.{AgentCommand, AgentCommandResult}
use gate_lens.Federation.Store.{Store, PendingCommand}
use gate_lens.Federation.Commands.{
  forget, register, enqueue, next_agent_command, find_pending, send_result, take_result,
}

-- One critical section or channel operation of a request or an agent, or a run of them that a later
-- step can go on with; any of them may come next. A result is sent on a channel that was found
-- before, in whatever state `found`.
pub data Step (parse_time : String → Option ℕ) : Store → Store → Type 0 where
  registered : (s : Store) (command : AgentCommand) → Step parse_time s (register s command)
  enqueued : (s : Store) (command : AgentCommand) → Step parse_time s (enqueue s command).0
  polled :
      {s t : Store} (now rounds : ℕ) (asked : String) (command : Option AgentCommand)
      → next_agent_command parse_time s now rounds asked ≡ ok (t, command)
      → Step parse_time s t
  answered :
      {s t : Store} (found : Store) (sent result : AgentCommandResult) (pending : PendingCommand)
      (full : Bool)
      → find_pending found sent ≡ ok (result, pending)
      → send_result full s result pending ≡ ok t
      → Step parse_time s t
  taken : (s : Store) (id : String) → Step parse_time s (take_result s id).0
  forgotten : (s : Store) (id : String) → Step parse_time s (forget s id)

pub data Reach (parse_time : String → Option ℕ) (s : Store) : Store → Type 0 where
  here : Reach parse_time s s
  next : {t u : Store} → Reach parse_time s t → Step parse_time t u → Reach parse_time s u

-- Every step of the run is such a step.
unfoldable pub Along :
    {parse_time : String → Option ℕ} {s u : Store}
    → ((t v : Store) → Step parse_time t v → Type 0)
    → Reach parse_time s u
    → Type 0
Along P here = Unit
Along P (next {t} {u} run step) = Along P run × P t u step

-- What such steps keep holds at the end of the run.
pub Along-keeps :
    {parse_time : String → Option ℕ} {s u : Store}
    (P : (t v : Store) → Step parse_time t v → Type 0) (I : Store → Type 0)
    → ((t v : Store) (step : Step parse_time t v) → P t v step → I t → I v)
    → (run : Reach parse_time s u) → Along P run
    → I s
    → I u
unfolding Along
Along-keeps P I keeps here along i = i
Along-keeps P I keeps (next {t} {u} run step) (along, p) i =
    keeps t u step p (Along-keeps P I keeps run along i)
