-- ===== src/Federation/Commands/Examples.antt =====
-- One command from its request to its result, through internal/federation/store.go.
use mathlib.Core.List.{Memᴰ}
use gate_lens.Common.{
  length, is_some, ◌≤◌, arith, ℕ, String, true, false, List, [], ◌∷◌, ◌++◌, Option, none, some, ◌≡◌,
  ◌≢◌, refl, eq_iff, if◌then◌else◌, ◌==◌, trim_space, lookup, insert, remove, All, ok, err,
}
use gate_lens.Domain.Command.{AgentCommand, AgentCommandResult}
use gate_lens.Samples.{blank_command, blank_answer, blank_payload}
use gate_lens.Federation.Store.{Store}
use gate_lens.Federation.Commands.{
  no_longer_pending, already_has_result, queue_of, forget, register, enqueue, is_awaited,
  is_expired, poll, next_agent_command, trimmed, has_content, answer, complete_agent_command,
  find_pending, send_result, take_result,
}
use gate_lens.Federation.Commands.Steps.{Step, Reach, Along}
use gate_lens.Federation.Commands.Kept.{Unclaimed, Unregistered}
use gate_lens.Federation.Commands.Answers.{IsNamed, complete_once, complete_late}
use gate_lens.Federation.Commands.Invariant.{Inv, Reach-Inv}
use gate_lens.Federation.Commands.Delivery.{
  next_serves, CanServe, IsStale, IsDelivered, next_delivers,
}

abbrev fresh : Store
fresh = record {
  preferred_cluster_id = "";
  stale_after = 90;
  snapshots = ("c", record { payload = blank_payload; received_at = 1 }) ∷ [];
  command_queues = [];
  pending_commands = [];
  probes = [];
}

abbrev late_command : AgentCommand
late_command = record blank_command { id = "cmd-1"; cluster_id = "c"; deadline = "early" }

abbrev good_command : AgentCommand
good_command = record blank_command { id = "cmd-2"; cluster_id = "c"; deadline = "late" }

-- Two instants are enough.
abbrev instant : String → Option ℕ
instant s = if s == "early" then some 5 else if s == "late" then some 50 else none

abbrev registered_both : Store
registered_both = register (register fresh late_command) good_command

abbrev submitted_both : Store
submitted_both = (enqueue (enqueue registered_both late_command).0 good_command).0

abbrev polled_both : Store
polled_both = record submitted_both { command_queues = ("c", []) ∷ [] }

-- The command whose deadline is past is dropped, the other one is handed out.
poll_skips :
    next_agent_command instant submitted_both 10 2 " c " ≡ ok (polled_both, some good_command)
unfolding trim_space lookup insert remove queue_of forget register enqueue is_awaited is_expired
    poll next_agent_command
poll_skips = refl

abbrev good_answer : AgentCommandResult
good_answer = record blank_answer {
  command_id = " cmd-2";
  cluster_id = "c";
  error = "no such gateway";
}

abbrev answered_both : Store
answered_both = record polled_both {
  pending_commands =
      (
        "cmd-2",
        record { cluster_id = "c"; result = some (record good_answer { command_id = "cmd-2" }) },
      )
      ∷ ("cmd-1", record { cluster_id = "c"; result = none })
      ∷ [];
}

answer_accepted : complete_agent_command polled_both good_answer ≡ ok answered_both
unfolding trim_space lookup insert remove queue_of forget register enqueue answer find_pending
    send_result complete_agent_command
answer_accepted = refl

answer_found :
    find_pending polled_both good_answer
    ≡ ok (record good_answer { command_id = "cmd-2" }, record { cluster_id = "c"; result = none })
unfolding trim_space lookup insert remove queue_of forget register enqueue find_pending
answer_found = refl

answer_sent :
    send_result false polled_both
      (record good_answer { command_id = "cmd-2" })
      (record { cluster_id = "c"; result = none })
    ≡ ok answered_both
unfolding trim_space lookup insert remove queue_of forget register enqueue answer send_result
answer_sent = refl

Reach-Inv_example : Inv answered_both
Reach-Inv_example =
    Reach-Inv instant (refl, refl)
      (Reach.next
        (Reach.next
          (Reach.next
            (Reach.next
              (Reach.next (Reach.next Reach.here (Step.registered fresh late_command))
                (Step.registered (register fresh late_command) good_command))
              (Step.enqueued registered_both late_command))
            (Step.enqueued (enqueue registered_both late_command).0 good_command))
          (Step.polled 10 2 " c " (some good_command) poll_skips))
        (Step.answered polled_both good_answer (record good_answer { command_id = "cmd-2" })
          (record { cluster_id = "c"; result = none }) false answer_found answer_sent))

next_delivers_example :
    (passed : List AgentCommand) × (queue_of submitted_both (trim_space " c ")
      ≡ passed ++ good_command ∷ queue_of polled_both (trim_space " c "))
    × All (IsStale instant submitted_both 10 (trim_space " c ")) passed
    × IsDelivered instant submitted_both 10 (trim_space " c ") good_command
next_delivers_example =
    next_delivers instant submitted_both polled_both 10 2 " c " good_command poll_skips

good_listed : Memᴰ good_command (queue_of submitted_both (trim_space " c "))
unfolding trim_space lookup insert remove queue_of forget register enqueue
good_listed = Memᴰ.tail (Memᴰ.head refl)

good_servable : CanServe instant submitted_both 10 (trim_space " c ") good_command
unfolding trim_space lookup insert remove queue_of forget register enqueue is_awaited is_expired
good_servable = (refl, refl)

two_enough : length (queue_of submitted_both (trim_space " c ")) ≤ 2
unfolding trim_space lookup insert remove queue_of forget register enqueue
two_enough = omega arith

c_named : trim_space " c " ≢ ""
unfolding trim_space
c_named e = let clash : false ≡ true = (eq_iff "c" "").1 e in cc

c_registered : is_some (lookup (trim_space " c ") submitted_both.snapshots) ≡ true
unfolding trim_space lookup insert remove queue_of forget register enqueue
c_registered = refl

next_serves_example :
    (t : Store) × (served : AgentCommand) × (next_agent_command instant submitted_both 10 2 " c "
      ≡ ok (t, some served))
next_serves_example =
    next_serves instant submitted_both 10 2 " c " good_command c_named c_registered good_listed
      good_servable two_enough

good_id : (trimmed good_answer).command_id ≡ "cmd-2"
unfolding trim_space
good_id = refl

good_content : has_content (trimmed good_answer) ≡ true
unfolding trim_space
good_content = refl

-- The other request returns.
abbrev one_left : Store
one_left = forget answered_both "cmd-1"

other_returns : Reach instant answered_both one_left
other_returns = Reach.next Reach.here (Step.forgotten answered_both "cmd-1")

other_apart : (record late_command { id = "cmd-1" }).id ≢ good_command.id
other_apart e = let clash : false ≡ true = (eq_iff "cmd-1" "cmd-2").1 e in cc

other_returns-Unclaimed : Along (Unclaimed (trimmed good_answer).command_id) other_returns
unfolding Along Unclaimed other_returns trim_space
other_returns-Unclaimed = (tt, other_apart)

complete_once_example :
    let id = (trimmed good_answer).command_id in
    ((take_result one_left id).1 ≡ some (trimmed good_answer))
    × (complete_agent_command one_left good_answer ≡ err (already_has_result id))
    × ((v : Store) × (complete_agent_command (take_result one_left id).0 good_answer ≡ ok v))
complete_once_example =
    complete_once polled_both answered_both one_left good_answer good_answer answer_accepted
      other_returns other_returns-Unclaimed refl refl good_content

good-IsNamed : IsNamed good_answer
unfolding trim_space
good-IsNamed = (
  λ e. let clash : false ≡ true = (eq_iff "cmd-2" "").1 e in cc,
  λ e. let clash : false ≡ true = (eq_iff "c" "").1 e in cc,
  refl,
)

abbrev both_left : Store
both_left = forget (forget polled_both "cmd-2") "cmd-1"

both_return : Reach instant (forget polled_both "cmd-2") both_left
both_return = Reach.next Reach.here (Step.forgotten (forget polled_both "cmd-2") "cmd-1")

both_return-Unregistered : Along (Unregistered "cmd-2") both_return
unfolding Along Unregistered both_return
both_return-Unregistered = (tt, tt)

complete_late_example :
    complete_agent_command both_left good_answer ≡ err (no_longer_pending "cmd-2")
complete_late_example =
    complete_late polled_both both_left "cmd-2" good_answer both_return both_return-Unregistered
      good_id good-IsNamed
