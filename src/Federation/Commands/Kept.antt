-- ===== src/Federation/Commands/Kept.antt =====
-- What steps leave of the pending commands.
use gate_lens.Common.{
  List, ℕ, String, Bool, true, false, Option, none, some, ◌≡◌, ◌≢◌, refl, sym, ◌∙◌, ap, subst, ◌⊎◌,
  inl, inr, eq_iff, eq_refl, ◌==◌, is_some, lookup, insert, lookup-remove, lookup-insert, ok, arith,
  Bool-cases, Option-cases,
}
use gate_lens.Domain.Command.{AgentCommand, AgentCommandResult}
use gate_lens.Federation.Store.{Store, PendingCommand}
use gate_lens.Federation.Commands.{
  forget, register, enqueue, next_agent_command, answer, send_result, take_result,
}
use gate_lens.Federation.Commands.Calls.{send_result-sends, next-polls}
use gate_lens.Federation.Commands.Steps.{
  Step, registered, enqueued, polled, answered, taken, forgotten,
}

-- A step that registers no command of this identity.
unfoldable pub Unregistered :
    {parse_time : String → Option ℕ} → String → (s t : Store) → Step parse_time s t → Type 0
Unregistered id s t (registered _ command) = command.id ≢ id
Unregistered id s t (enqueued _ command) = Unit
Unregistered id s t (polled now rounds asked command h) = Unit
Unregistered id s t (answered found sent result pending full e h) = Unit
Unregistered id s t (taken _ other) = Unit
Unregistered id s t (forgotten _ other) = Unit

-- A step that, besides, is not one of the request of this identity: it does not take the result, and
-- does not forget the command.
unfoldable pub Unclaimed :
    {parse_time : String → Option ℕ} → String → (s t : Store) → Step parse_time s t → Type 0
Unclaimed id s t (registered _ command) = command.id ≢ id
Unclaimed id s t (enqueued _ command) = Unit
Unclaimed id s t (polled now rounds asked command h) = Unit
Unclaimed id s t (answered found sent result pending full e h) = Unit
Unclaimed id s t (taken _ other) = other ≢ id
Unclaimed id s t (forgotten _ other) = other ≢ id

enqueue-pending :
    (s : Store) (command : AgentCommand)
    → (enqueue s command).0.pending_commands ≡ s.pending_commands
unfolding enqueue
enqueue-pending s command = ground arith

next-pending :
    (parse_time : String → Option ℕ) (s t : Store) (now rounds : ℕ) (asked : String)
    (command : Option AgentCommand)
    → next_agent_command parse_time s now rounds asked ≡ ok (t, command)
    → t.pending_commands ≡ s.pending_commands
next-pending parse_time s t now rounds asked command h =
    let (_, same, _) = next-polls parse_time s t now rounds asked command h in
    ap (λ (u : Store). u.pending_commands) (sym same)

pub answer-pending :
    (s t : Store) (result : AgentCommandResult) (current : PendingCommand)
    → answer s result current ≡ ok t
    → (is_some current.result ≡ false)
      × (t.pending_commands
          ≡ insert result.command_id (record current { result = some result }) s.pending_commands)
unfolding answer
answer-pending s t result current h =
    let free : is_some current.result ≡ false = ground arith in
    let stored = record current { result = some result } in
    let same : record s { pending_commands = insert result.command_id stored s.pending_commands }
        ≡ t =
      ground arith in
    (free, ap (λ (u : Store). u.pending_commands) (sym same))

-- An entry of another identity stays.
insert-other :
    (id other : String) (pending : PendingCommand) (entries : List (String × PendingCommand))
    → other ≢ id
    → lookup id (insert other pending entries) ≡ lookup id entries
insert-other id other pending entries apart = rw lookup-insert (elim (Bool-cases (other == id)) [
  | inl e ↦ absurd (apart ((eq_iff other id).0 e))
  | inr e ↦ rw e refl
])

register-pending :
    (s : Store) (command : AgentCommand) (id : String)
    → command.id ≢ id
    → lookup id (register s command).pending_commands ≡ lookup id s.pending_commands
unfolding register
register-pending s command id apart =
    insert-other id command.id (record { cluster_id = command.cluster_id; result = none })
      s.pending_commands apart

forget-pending :
    (s : Store) (other id : String)
    → other ≢ id
    → lookup id (forget s other).pending_commands ≡ lookup id s.pending_commands
unfolding forget
forget-pending s other id apart = rw lookup-remove (elim (Bool-cases (other == id)) [
  | inl e ↦ absurd (apart ((eq_iff other id).0 e))
  | inr e ↦ rw e refl
])

take-pending :
    (s : Store) (other id : String)
    → other ≢ id
    → lookup id (take_result s other).0.pending_commands ≡ lookup id s.pending_commands
unfolding take_result
take-pending s other id apart = elim (Option-cases (lookup other s.pending_commands)) [
  | inl missing ↦ rw (missing, take_result) refl
  | inr (pending, found) ↦
      rw (found, take_result)
        (insert-other id other (record pending { result = none }) s.pending_commands apart)
]

-- A result that is sent changes no entry of another identity.
send_result-pending :
    (full : Bool) (s t : Store) (result : AgentCommandResult) (pending : PendingCommand)
    (id : String)
    → result.command_id ≢ id
    → send_result full s result pending ≡ ok t
    → lookup id t.pending_commands ≡ lookup id s.pending_commands
send_result-pending full s t result pending id apart h =
    elim (send_result-sends full s t result pending h) [
      | inl same ↦ ap (λ (u : Store). lookup id u.pending_commands) (sym same)
      | inr (current, found, home, stores) ↦
          let (free, after) = answer-pending s t result current stores in
          ap (λ (entries : List (String × PendingCommand)). lookup id entries) after
          ∙ insert-other id result.command_id (record current { result = some result })
              s.pending_commands apart
    ]

String-cases : (a b : String) → (a ≡ b) ⊎ (a ≢ b)
String-cases a b = elim (Bool-cases (a == b)) [
  | inl e ↦ inl ((eq_iff a b).0 e)
  | inr e ↦ inr (λ same. let clash = (eq_iff a b).1 same in ground (arith, e, clash))
]

-- A command that is not pending stays so, unless it is registered.
abbrev pub IsGone : String → Store → Type 0
IsGone id s = lookup id s.pending_commands ≡ none

send_result-IsGone :
    (full : Bool) (s t : Store) (result : AgentCommandResult) (pending : PendingCommand)
    (id : String)
    → IsGone id s
    → send_result full s result pending ≡ ok t
    → IsGone id t
send_result-IsGone full s t result pending id gone h = elim (String-cases result.command_id id) [
  | inr apart ↦ send_result-pending full s t result pending id apart h ∙ gone
  | inl this ↦ elim (send_result-sends full s t result pending h) [
    | inl same ↦ subst (IsGone id) same gone
    | inr (current, found, home, stores) ↦
        let clash : none ≡ some current =
          sym gone ∙ ap (λ (k : String). lookup k s.pending_commands) (sym this) ∙ found in
        absurd (ground (arith, clash))
  ]
]

take-IsGone : (s : Store) (other id : String) → IsGone id s → IsGone id (take_result s other).0
unfolding take_result
take-IsGone s other id gone = elim (String-cases other id) [
  | inr apart ↦ take-pending s other id apart ∙ gone
  | inl this ↦
      let missing : lookup other s.pending_commands ≡ none =
        ap (λ (k : String). lookup k s.pending_commands) this ∙ gone in
      rw (missing, take_result) gone
]

forget-IsGone : (s : Store) (other id : String) → IsGone id s → IsGone id (forget s other)
unfolding forget
forget-IsGone s other id gone = rw lookup-remove (ground (arith, gone))

pub forget_removes : (s : Store) (id : String) → IsGone id (forget s id)
unfolding forget
forget_removes s id = rw lookup-remove (rw eq_refl)

pub Step-IsGone :
    {parse_time : String → Option ℕ} (id : String) (s t : Store) (step : Step parse_time s t)
    → Unregistered id s t step
    → IsGone id s
    → IsGone id t
unfolding Unregistered
Step-IsGone id s t (registered _ command) apart gone = register-pending s command id apart ∙ gone
Step-IsGone id s t (enqueued _ command) _ gone =
    ap (λ (entries : List (String × PendingCommand)). lookup id entries) (enqueue-pending s command)
    ∙ gone
Step-IsGone {parse_time} id s t (polled now rounds asked command h) _ gone =
    ap (λ (entries : List (String × PendingCommand)). lookup id entries)
      (next-pending parse_time s t now rounds asked command h)
    ∙ gone
Step-IsGone id s t (answered found sent result pending full e h) _ gone =
    send_result-IsGone full s t result pending id gone h
Step-IsGone id s t (taken _ other) _ gone = take-IsGone s other id gone
Step-IsGone id s t (forgotten _ other) _ gone = forget-IsGone s other id gone

-- An entry with a result stays, unless its request takes the result or forgets the command, or the
-- command is registered again.
abbrev pub IsHeld : String → PendingCommand → Store → Type 0
IsHeld id entry s = lookup id s.pending_commands ≡ some entry

send_result-IsHeld :
    (full : Bool) (s t : Store) (result : AgentCommandResult) (pending entry : PendingCommand)
    (id : String)
    → is_some entry.result ≡ true
    → IsHeld id entry s
    → send_result full s result pending ≡ ok t
    → IsHeld id entry t
send_result-IsHeld full s t result pending entry id filled held h =
    elim (String-cases result.command_id id) [
      | inr apart ↦ send_result-pending full s t result pending id apart h ∙ held
      | inl this ↦ elim (send_result-sends full s t result pending h) [
        | inl same ↦ subst (IsHeld id entry) same held
        | inr (current, found, home, stores) ↦
            let (free, after) = answer-pending s t result current stores in
            let both : some entry ≡ some current =
              sym held ∙ ap (λ (k : String). lookup k s.pending_commands) (sym this) ∙ found in
            let same : entry ≡ current = ground (arith, both) in
            let taken_up = ap (λ (p : PendingCommand). is_some p.result) same in
            absurd (ground (arith, filled, free, taken_up))
      ]
    ]

pub Step-IsHeld :
    {parse_time : String → Option ℕ} (id : String) (entry : PendingCommand) (s t : Store)
    → is_some entry.result ≡ true
    → (step : Step parse_time s t) → Unclaimed id s t step
    → IsHeld id entry s
    → IsHeld id entry t
unfolding Unclaimed
Step-IsHeld id entry s t filled (registered _ command) apart held =
    register-pending s command id apart ∙ held
Step-IsHeld id entry s t filled (enqueued _ command) _ held =
    ap (λ (entries : List (String × PendingCommand)). lookup id entries) (enqueue-pending s command)
    ∙ held
Step-IsHeld {parse_time} id entry s t filled (polled now rounds asked command h) _ held =
    ap (λ (entries : List (String × PendingCommand)). lookup id entries)
      (next-pending parse_time s t now rounds asked command h)
    ∙ held
Step-IsHeld id entry s t filled (answered found sent result pending full e h) _ held =
    send_result-IsHeld full s t result pending entry id filled held h
Step-IsHeld id entry s t filled (taken _ other) apart held = take-pending s other id apart ∙ held
Step-IsHeld id entry s t filled (forgotten _ other) apart held =
    forget-pending s other id apart ∙ held
