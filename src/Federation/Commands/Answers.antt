-- ===== src/Federation/Commands/Answers.antt =====
-- What becomes of the results that agents send.
use gate_lens.Common.{
  List, ℕ, String, Bool, true, false, Option, none, some, ◌≡◌, ◌≢◌, refl, sym, ◌∙◌, ap, subst, inl,
  inr, eq_iff, eq_refl, is_some, lookup, insert, lookup-insert_self, ok, err, arith, Result-cases,
}
use gate_lens.Domain.Command.{AgentCommandResult}
use gate_lens.Federation.Store.{Store, PendingCommand}
use gate_lens.Federation.Commands.{
  no_longer_pending, already_has_result, forget, answer, find_pending, send_result,
  complete_agent_command, take_result, trimmed, has_content,
}
use gate_lens.Federation.Commands.Calls.{find_pending-found}
use gate_lens.Federation.Commands.Steps.{Reach, Along, Along-keeps}
use gate_lens.Federation.Commands.Kept.{
  Unregistered, Unclaimed, IsGone, IsHeld, answer-pending, forget_removes, Step-IsGone, Step-IsHeld,
}

-- The result of a call, complete in what it must name.
abbrev pub IsNamed : AgentCommandResult → Type 0
IsNamed sent =
    ((trimmed sent).command_id ≢ "")
    × ((trimmed sent).cluster_id ≢ "")
    × (has_content (trimmed sent) ≡ true)

abbrev filled : PendingCommand → AgentCommandResult → PendingCommand
filled current result = record current { result = some result }

send_result-waiting :
    (full : Bool) (s : Store) (result : AgentCommandResult) (pending : PendingCommand)
    → lookup result.command_id s.pending_commands ≡ some pending
    → send_result full s result pending ≡ answer s result pending
unfolding send_result
send_result-waiting full s result pending found = rw (found, send_result) (rw eq_refl refl)

find_pending-waiting :
    (s : Store) (sent : AgentCommandResult) (pending : PendingCommand)
    → IsNamed sent
    → lookup (trimmed sent).command_id s.pending_commands ≡ some pending
    → pending.cluster_id ≡ (trimmed sent).cluster_id
    → find_pending s sent ≡ ok (trimmed sent, pending)
unfolding find_pending
find_pending-waiting s sent pending (named, from, content) found own = ground (
  arith,
  found,
  eq_iff (trimmed sent).command_id "",
  eq_iff (trimmed sent).cluster_id "",
  (eq_iff pending.cluster_id (trimmed sent).cluster_id).1 own,
)

find_pending-gone :
    (s : Store) (sent : AgentCommandResult)
    → IsNamed sent
    → IsGone (trimmed sent).command_id s
    → find_pending s sent ≡ err (no_longer_pending (trimmed sent).command_id)
unfolding find_pending
find_pending-gone s sent (named, from, content) gone =
    ground (arith, gone, eq_iff (trimmed sent).command_id "", eq_iff (trimmed sent).cluster_id "")

-- The entry of the command, which waits for this result's cluster, holds the result.
abbrev Stores : Store → AgentCommandResult → Type 0
Stores t result =
    (current : PendingCommand) × IsHeld result.command_id (filled current result) t
    × (current.cluster_id ≡ result.cluster_id)
    × (result.command_id ≢ "")
    × (result.cluster_id ≢ "")

-- A call that succeeds, with nothing between its steps, stored its result with the command's entry.
complete-Stores :
    (s t : Store) (sent : AgentCommandResult)
    → complete_agent_command s sent ≡ ok t
    → Stores t (trimmed sent)
unfolding complete_agent_command
complete-Stores s t sent h = elim (Result-cases (find_pending s sent)) [
  | inr (e, failed) ↦ absurd (ground arith)
  | inl ((result, pending), found) ↦
      let (same, named, from, entry, own) = find_pending-found s sent result pending found in
      let sends : send_result false s result pending ≡ ok t = ground arith in
      let stores = sym (send_result-waiting false s result pending entry) ∙ sends in
      let (free, after) = answer-pending s t result pending stores in
      let held : lookup result.command_id t.pending_commands ≡ some (filled pending result) =
        ap (λ (entries : List (String × PendingCommand)). lookup result.command_id entries) after
        ∙ lookup-insert_self result.command_id (filled pending result) s.pending_commands in
      subst (Stores t) (sym same) (pending, held, own, named, from)
]

complete-full :
    (s : Store) (again : AgentCommandResult) (pending : PendingCommand)
    → IsNamed again
    → lookup (trimmed again).command_id s.pending_commands ≡ some pending
    → pending.cluster_id ≡ (trimmed again).cluster_id
    → is_some pending.result ≡ true
    → complete_agent_command s again ≡ err (already_has_result (trimmed again).command_id)
unfolding complete_agent_command answer
complete-full s again pending named entry own full =
    rw (find_pending-waiting s again pending named entry own)
      (send_result-waiting false s (trimmed again) pending entry ∙ ground (arith, full))

complete-free :
    (s : Store) (again : AgentCommandResult) (pending : PendingCommand)
    → IsNamed again
    → lookup (trimmed again).command_id s.pending_commands ≡ some pending
    → pending.cluster_id ≡ (trimmed again).cluster_id
    → is_some pending.result ≡ false
    → (t : Store) × (complete_agent_command s again ≡ ok t)
unfolding complete_agent_command answer
complete-free s again pending named entry own free = (
  record s {
    pending_commands =
        insert (trimmed again).command_id (filled pending (trimmed again)) s.pending_commands;
  },
  rw (find_pending-waiting s again pending named entry own)
      (send_result-waiting false s (trimmed again) pending entry ∙ ground (arith, free)),
)

take_gives :
    (s : Store) (id : String) (entry : PendingCommand)
    → IsHeld id entry s
    → ((take_result s id).1 ≡ entry.result)
      × IsHeld id (record entry { result = none }) (take_result s id).0
unfolding take_result
take_gives s id entry held = (
  rw (held, take_result) refl,
  rw (held, take_result)
      (lookup-insert_self id (record entry { result = none }) s.pending_commands),
)

-- A completion that succeeds, with nothing between its look-up and its send, stores the result,
-- trimmed. Whatever steps follow of other requests and of agents, as long as the request of the
-- command does not take the result and does not forget the command, and no command is registered
-- under its identity: the request would take just this result; another complete result for the
-- command, of the same cluster, is refused; and once the request has taken the result, and before it
-- forgets the command, another one is accepted again.
pub complete_once :
    {parse_time : String → Option ℕ} (s t u : Store) (sent again : AgentCommandResult)
    → complete_agent_command s sent ≡ ok t
    → (run : Reach parse_time t u) → Along (Unclaimed (trimmed sent).command_id) run
    → (trimmed again).command_id ≡ (trimmed sent).command_id
    → (trimmed again).cluster_id ≡ (trimmed sent).cluster_id
    → has_content (trimmed again) ≡ true
    → let id = (trimmed sent).command_id in
      ((take_result u id).1 ≡ some (trimmed sent))
      × (complete_agent_command u again ≡ err (already_has_result id))
      × ((v : Store) × (complete_agent_command (take_result u id).0 again ≡ ok v))
complete_once s t u sent again h run along same_id same_cluster content =
    let id = (trimmed sent).command_id in
    let (current, stored, own, named, from) = complete-Stores s t sent h in
    let entry = filled current (trimmed sent) in
    let held =
      Along-keeps (Unclaimed id) (IsHeld id entry)
        (λ a b step p i. Step-IsHeld id entry a b refl step p i) run along stored in
    let complete : IsNamed again =
      ((λ e. named (sym same_id ∙ e)), (λ e. from (sym same_cluster ∙ e)), content) in
    let home : current.cluster_id ≡ (trimmed again).cluster_id = own ∙ sym same_cluster in
    let (taken_out, left) = take_gives u id entry held in
    (
      taken_out,
      complete-full u again entry complete
            (ap (λ (k : String). lookup k u.pending_commands) same_id ∙ held) home refl
          ∙ ap (λ (k : String). err (already_has_result k)) same_id,
      complete-free (take_result u id).0 again (record entry { result = none }) complete
          (ap (λ (k : String). lookup k (take_result u id).0.pending_commands) same_id ∙ left) home
          refl,
    )

-- Once its request has forgotten a command, and whatever steps follow, as long as no command is
-- registered under its identity, a complete result for it that looks for it then is refused.
pub complete_late :
    {parse_time : String → Option ℕ} (s u : Store) (id : String) (sent : AgentCommandResult)
    → (run : Reach parse_time (forget s id) u) → Along (Unregistered id) run
    → (trimmed sent).command_id ≡ id
    → IsNamed sent
    → complete_agent_command u sent ≡ err (no_longer_pending id)
unfolding complete_agent_command
complete_late s u id sent run along same complete =
    let gone =
      Along-keeps (Unregistered id) (IsGone id) (λ a b step p i. Step-IsGone id a b step p i) run
        along (forget_removes s id) in
    rw
      (find_pending-gone u sent complete
        (ap (λ (k : String). lookup k u.pending_commands) same ∙ gone))
      (ap (λ (k : String). err (no_longer_pending k)) same)
