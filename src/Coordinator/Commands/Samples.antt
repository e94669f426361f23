-- ===== src/Coordinator/Commands/Samples.antt =====
-- The theorems on the commands of the user and the scheduler, applied to concrete values.
use xiao_ming.Prelude.{true, ◌≡◌, refl, none, some, List, [], ◌∷◌, ok}
use xiao_ming.Prelude.Dict
use xiao_ming.Json.{Fields, Python, obj, str, arr, dict, of_list, end}
use xiao_ming.Mailbox.Message.{MailboxMessage, MailboxKind, MailboxStatus}
use xiao_ming.Mailbox.Store
use xiao_ming.Tasks.Status.{running}
use xiao_ming.Tasks.Registry.{TaskRegistry}
use xiao_ming.Coordinator.State.{Coordinator, persist}
use xiao_ming.Coordinator.Handling.{handle_worker_event}
use xiao_ming.Coordinator.Samples.{python, task, state, services, event}
use xiao_ming.Coordinator.Cancel.{cancel_task}
use xiao_ming.Coordinator.Commands.{reply_mailbox_message}
use xiao_ming.Coordinator.Commands.Later.{UserCommand, obey_all}
use xiao_ming.Coordinator.Commands.Replies.{is_failure, reply_mailbox_message-once}
use xiao_ming.Coordinator.Scheduler.{SchedulerDecision, DecisionAction, schedule}
use xiao_ming.Coordinator.Scheduler.Validated.{Acceptable, schedule-Acceptable}
use xiao_ming.Coordinator.Reachable.{Reachable, Reachable-IsSaved}
use xiao_ming.Coordinator.Reachable.Saved.{IsSaved}

abbrev message : MailboxMessage
message = record {
  task_id = "1";
  from_role = "worker";
  to_role = "main";
  kind = MailboxKind.decision_request;
  content = "which?";
  requires_reply = true;
  worker_id = some "1";
  status = MailboxStatus.pending;
  message_id = "m";
  created_at = "c";
  updated_at = "u";
  reply = none;
  presented_count = 0;
  last_presented_at = none;
  metadata = end;
}

abbrev asked : Coordinator
asked = record state { mailbox = record { messages = ("m", message) ∷ []; order = "m" ∷ [] } }

-- The user cancels the task, and answers again.
abbrev between : List UserCommand
between =
    UserCommand.cancels services "1" ∷ UserCommand.replies services "m" "so" "denied" "" "" ∷ []

abbrev answered_once : Coordinator
answered_once =
    obey_all between (reply_mailbox_message services "m" "this" "approved" "" "" asked).1

reply_mailbox_message-once_example :
    (is_failure (reply_mailbox_message services "m" "that" "none" "" "" answered_once).0 ≡ true)
    × ((reply_mailbox_message services "m" "that" "none" "" "" answered_once).1 ≡ answered_once)
unfolding Store.get Dict.get reply_mailbox_message
reply_mailbox_message-once_example =
    reply_mailbox_message-once services "m" "this" "approved" "" "" message asked refl refl refl
      between services "that" "none" "" ""

abbrev queued : SchedulerDecision
queued = record {
  action = DecisionAction.queue_task;
  user_intent = "goal";
  task_title = "goal";
  visible_message = "queued";
  reason = "both write a.py";
  target_task_id = none;
  affected_files = [];
  affected_modules = [];
  domains = [];
  conflict_task_ids = "1" ∷ [];
  duplicate_task_ids = [];
}

abbrev reader : Python
reader = record python {
  loads = λ s. some (
      obj (
        dict (
          ("action", str "queue_task")
          ∷ ("visible_message", str "queued")
          ∷ ("reason", str "both write a.py")
          ∷ ("conflict_task_ids", arr (of_list (str "1" ∷ [])))
          ∷ [])));
}

abbrev busy : TaskRegistry
busy = record { tasks = ("1", record task { status = running }) ∷ []; current_task_id = none }

schedule-Acceptable_example : Acceptable queued busy
unfolding schedule
schedule-Acceptable_example = schedule-Acceptable reader busy "goal" (λ n. ok "{}") 3 queued refl

-- The files hold what the sample state has; its worker then ends, and the user cancels the task.
abbrev kept : Coordinator
kept = persist state

abbrev ran : Coordinator
ran = handle_worker_event services event kept

Reachable-IsSaved_example : IsSaved (cancel_task services "1" ran).1
unfolding Dict.get
Reachable-IsSaved_example = Reachable-IsSaved (cancel_task services "1" ran).1 (
    Reachable.cancels services "1" ran
      (Reachable.handles services event kept refl (Reachable.starts kept (refl, refl))))

-- A call with its output, a call without one, and an output without a call.
abbrev history : List Fields
history =
    dict (("type", str "function_call") ∷ ("call_id", str "a") ∷ [])
    ∷ dict (("type", str "function_call_output") ∷ ("call_id", str "a") ∷ [])
    ∷ dict (("type", str "function_call") ∷ ("call_id", str "b") ∷ [])
    ∷ dict (("role", str "user") ∷ ("content", str "hello") ∷ [])
    ∷ dict (("type", str "custom_tool_call_output") ∷ ("call_id", str "c") ∷ [])
    ∷ []
