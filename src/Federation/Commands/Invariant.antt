-- ===== src/Federation/Commands/Invariant.antt =====
-- What holds of the broker after any sequence of calls by requests and agents.
use gate_lens.Common.{
  ℕ, zero, suc, ◌≤◌, String, List, [], ◌∷◌, ◌++◌, Option, none, some, ◌≡◌, Bool, sym, refl, ◌∙◌, ap,
  subst, inl, inr, ◌==◌, eq_iff, ltb, ltb→lt, length, length-append, trim_space, lookup, insert,
  remove, lookup-insert, lookup-remove, ok, All, All-append, arith, Bool-cases, Option-cases,
}
use gate_lens.Domain.Command.{AgentCommand, AgentCommandResult}
use gate_lens.Federation.Store.{Store, PendingCommand}
use gate_lens.Federation.Commands.{
  agent_command_queue_size, queue_of, set_queue, forget, register, enqueue, poll,
  next_agent_command, answer, send_result, take_result,
}
use gate_lens.Federation.Commands.Calls.{
  queue_of-set_queue, find_pending-found, send_result-sends, next-polls,
}
use gate_lens.Federation.Commands.Steps.{
  Step, Reach, registered, enqueued, polled, answered, taken, forgotten, here, next,
}

abbrev pub IsHome : String → List AgentCommand → Type 0
IsHome cluster queue = All (λ command. command.cluster_id ≡ cluster) queue

-- A stored result is about its own command, and from the cluster that the command was for.
abbrev pub IsOwn : String → PendingCommand → Type 0
IsOwn id pending =
    (result : AgentCommandResult)
    → pending.result ≡ some result
    → (result.command_id ≡ id) × (result.cluster_id ≡ pending.cluster_id)

pub record Inv (s : Store) : Type 0 where
  pub bounded : (cluster : String) → length (queue_of s cluster) ≤ agent_command_queue_size
  pub homed : (cluster : String) → IsHome cluster (queue_of s cluster)
  pub owned :
      (id : String) (pending : PendingCommand)
      → lookup id s.pending_commands ≡ some pending
      → IsOwn id pending

-- A new queue that keeps the bound and the home keeps the invariant.
set_queue-Inv :
    (s : Store) (cluster : String) (queue : List AgentCommand)
    → Inv s
    → length queue ≤ agent_command_queue_size
    → IsHome cluster queue
    → Inv (set_queue s cluster queue)
set_queue-Inv s cluster queue v short home = record {
  bounded =
      λ other. rw (queue_of-set_queue s cluster other queue) (ground (arith, v.bounded other));
  homed = λ other. elim (Bool-cases (cluster == other)) [
    | inl same ↦
        rw (queue_of-set_queue s cluster other queue)
          (rw same (subst (λ k. IsHome k queue) ((eq_iff _ _).0 same) home))
    | inr apart ↦ rw (queue_of-set_queue s cluster other queue) (rw apart (v.homed other))
  ];
  owned = v.owned;
}

-- Entries that keep a stored result about its own command keep the invariant.
set_pending-Inv :
    (s : Store) (pending : List (String × PendingCommand))
    → Inv s
    → ((id : String) (p : PendingCommand) → lookup id pending ≡ some p → IsOwn id p)
    → Inv (record s { pending_commands = pending })
unfolding queue_of
set_pending-Inv s pending v own = record { bounded = v.bounded; homed = v.homed; owned = own }

insert-owned :
    (s : Store) (id : String) (pending : PendingCommand)
    → Inv s
    → IsOwn id pending
    → (other : String) (p : PendingCommand)
    → lookup other (insert id pending s.pending_commands) ≡ some p
    → IsOwn other p
insert-owned s id pending v own other p h result has =
    let found = rw lookup-insert at h in
    elim (Bool-cases (id == other)) [
      | inl same ↦
          let k : pending ≡ p = ground arith in
          let e = (eq_iff id other).0 same in
          let (a, b) = own result (ap (λ (q : PendingCommand). q.result) k ∙ has) in
          (a ∙ e, b ∙ ap (λ (q : PendingCommand). q.cluster_id) k)
      | inr apart ↦ v.owned other p (ground arith) result has
    ]

forget-Inv : (s : Store) (id : String) → Inv s → Inv (forget s id)
unfolding forget
forget-Inv s id v =
    set_pending-Inv s (remove id s.pending_commands) v
      (λ other p h. let found = rw lookup-remove at h in v.owned other p (ground arith))

abbrev waiting : AgentCommand → PendingCommand
waiting command = record { cluster_id = command.cluster_id; result = none }

abbrev awaited : Store → AgentCommand → Store
awaited s command = record s {
  pending_commands = insert command.id (waiting command) s.pending_commands;
}

awaited-Inv : (s : Store) (command : AgentCommand) → Inv s → Inv (awaited s command)
awaited-Inv s command v =
    set_pending-Inv s (insert command.id (waiting command) s.pending_commands) v
      (insert-owned s command.id (waiting command) v (λ result h. cc))

register-Inv : (s : Store) (command : AgentCommand) → Inv s → Inv (register s command)
unfolding register
register-Inv s command v =
    let cluster = command.cluster_id in
    set_queue-Inv (awaited s command) cluster (queue_of s cluster) (awaited-Inv s command v)
      (v.bounded cluster) (v.homed cluster)

enqueue-Inv : (s : Store) (command : AgentCommand) → Inv s → Inv (enqueue s command).0
unfolding enqueue
enqueue-Inv s command v =
    let cluster = command.cluster_id in
    let queue = queue_of s cluster in
    elim (Bool-cases (ltb (length queue) agent_command_queue_size)) [
      | inl room ↦ rw room (
          set_queue-Inv s cluster (queue ++ command ∷ []) v
            (omega (arith, ltb→lt (length queue) 32 room, length-append queue (command ∷ [])))
            (All-append (λ (c : AgentCommand). c.cluster_id ≡ cluster) queue (command ∷ [])
              (v.homed cluster) (refl, tt)))
      | inr full ↦ rw full v
    ]

poll-length :
    (parse_time : String → Option ℕ) (s : Store) (now : ℕ) (cluster : String) (rounds : ℕ)
    (queue : List AgentCommand)
    → length (poll parse_time s now cluster rounds queue).0 ≤ length queue
unfolding poll
poll-length parse_time s now cluster zero queue = omega arith
poll-length parse_time s now cluster (suc rounds) [] = omega arith
poll-length parse_time s now cluster (suc rounds) (command ∷ queue) =
    ground (arith, poll-length parse_time s now cluster rounds queue)

poll-IsHome :
    (parse_time : String → Option ℕ) (s : Store) (now : ℕ) (cluster : String) (rounds : ℕ)
    (queue : List AgentCommand)
    → IsHome cluster queue
    → IsHome cluster (poll parse_time s now cluster rounds queue).0
unfolding poll
poll-IsHome parse_time s now cluster zero queue h = h
poll-IsHome parse_time s now cluster (suc rounds) [] h = tt
poll-IsHome parse_time s now cluster (suc rounds) (command ∷ queue) h =
    ground (arith, poll-IsHome parse_time s now cluster rounds queue h.1)

answer-Inv :
    (s t : Store) (result : AgentCommandResult) (current : PendingCommand)
    → Inv s
    → result.cluster_id ≡ current.cluster_id
    → answer s result current ≡ ok t
    → Inv t
unfolding answer
answer-Inv s t result current v mine h =
    let stored = record current { result = some result } in
    let after = insert result.command_id stored s.pending_commands in
    let same : record s { pending_commands = after } ≡ t = ground arith in
    subst Inv same (
      set_pending-Inv s after v (
        insert-owned s result.command_id stored v
          (λ r e. (ground (arith, e), ground (arith, e, mine)))))

send_result-Inv :
    (full : Bool) (s t : Store) (result : AgentCommandResult) (pending : PendingCommand)
    → Inv s
    → pending.cluster_id ≡ result.cluster_id
    → send_result full s result pending ≡ ok t
    → Inv t
send_result-Inv full s t result pending v own h =
    elim (send_result-sends full s t result pending h) [
      | inl same ↦ subst Inv same v
      | inr (current, found, home, stores) ↦
          answer-Inv s t result current v (sym own ∙ sym home) stores
    ]

take_result-Inv : (s : Store) (id : String) → Inv s → Inv (take_result s id).0
unfolding take_result
take_result-Inv s id v = elim (Option-cases (lookup id s.pending_commands)) [
  | inl missing ↦ rw (missing, take_result) v
  | inr (pending, found) ↦
      let taken = record pending { result = none } in
      rw (found, take_result)
        (set_pending-Inv s (insert id taken s.pending_commands) v
          (insert-owned s id taken v (λ result h. absurd (ground (arith, h)))))
]

next-Inv :
    (parse_time : String → Option ℕ) (s t : Store) (now rounds : ℕ) (asked : String)
    (command : Option AgentCommand)
    → Inv s
    → next_agent_command parse_time s now rounds asked ≡ ok (t, command)
    → Inv t
next-Inv parse_time s t now rounds asked command v h =
    let cluster = trim_space asked in
    let queue = queue_of s cluster in
    let polled = poll parse_time s now cluster rounds queue in
    let (known, same, delivered) = next-polls parse_time s t now rounds asked command h in
    subst Inv same (
      set_queue-Inv s cluster polled.0 v
        (omega (arith, poll-length parse_time s now cluster rounds queue, v.bounded cluster))
        (poll-IsHome parse_time s now cluster rounds queue (v.homed cluster)))

pub Step-Inv : {parse_time : String → Option ℕ} {s t : Store} → Step parse_time s t → Inv s → Inv t
Step-Inv (registered s command) v = register-Inv s command v
Step-Inv (enqueued s command) v = enqueue-Inv s command v
Step-Inv {parse_time} {s} {t} (polled now rounds asked command h) v =
    next-Inv parse_time s t now rounds asked command v h
Step-Inv {s} {t} (answered found sent result pending full e h) v =
    let (_, _, _, _, own) = find_pending-found found sent result pending e in
    send_result-Inv full s t result pending v own h
Step-Inv (taken s id) v = take_result-Inv s id v
Step-Inv (forgotten s id) v = forget-Inv s id v

abbrev pub IsFreshStore : Store → Type 0
IsFreshStore s = (s.command_queues ≡ []) × (s.pending_commands ≡ [])

fresh-Inv : (s : Store) → IsFreshStore s → Inv s
unfolding queue_of lookup
fresh-Inv s (no_queues, no_pending) = record {
  bounded = λ cluster. rw no_queues (omega arith);
  homed = λ cluster. rw no_queues tt;
  owned = λ id pending h. absurd (ground arith);
}

-- From a store with no queues and no pending commands, whatever steps are taken in whatever order:
-- no queue holds more than 32 commands, each command waits in the queue of its own cluster, and a
-- stored result names the command it is stored under and comes from that command's cluster.
pub Reach-Inv :
    (parse_time : String → Option ℕ) {s t : Store} → IsFreshStore s → Reach parse_time s t → Inv t
Reach-Inv parse_time {s} fresh here = fresh-Inv s fresh
Reach-Inv parse_time fresh (next r step) = Step-Inv step (Reach-Inv parse_time fresh r)
