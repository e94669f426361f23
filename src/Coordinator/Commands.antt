-- ===== src/Coordinator/Commands.antt =====
-- reply_mailbox_message of async_runtime/coordinator.py: the user's answer to the question of a worker.
-- The message is sent when the lock is released; the model takes it as part of the same step.
pub mod Settled
pub mod Later
pub mod Replies
pub mod Samples
use xiao_ming.Prelude.{
  String, Bool, true, false, not, ◌&&◌, Option, none, some, List, [], ◌∷◌, ◌++◌, map, ◌==◌,
  if◌then◌else◌, any, contains, concat, strip,
}
use xiao_ming.Prelude.Dict
use xiao_ming.Json
use xiao_ming.Json.{str, Python, text, text_or, items_or_empty}
use xiao_ming.Tasks.Status.{TaskStatus, running, needs_user}
use xiao_ming.Tasks.Record.{TaskRecord, transition}
use xiao_ming.Mailbox.Message.{MailboxMessage, MailboxKind}
use xiao_ming.Mailbox.Store
use xiao_ming.Mailbox.Views.{awaits_reply, pending_for_main}
use xiao_ming.Coordinator.Events.{Question, QuestionKind}
use xiao_ming.Coordinator.State.{
  Coordinator, WorkerMessage, answer_question, store_task, send_to_worker, persist,
}
use xiao_ming.Coordinator.Services.{Services}
use xiao_ming.Coordinator.Questions.{put_field}
use xiao_ming.Coordinator.Cancel.{ToolResult, success, failure}

abbrev pub question_kind : MailboxKind → Option QuestionKind
question_kind MailboxKind.approval_request = some QuestionKind.approval_request
question_kind MailboxKind.clarification_request = some QuestionKind.clarification_request
question_kind MailboxKind.decision_request = some QuestionKind.decision_request
question_kind _ = none

-- AsyncCoordinator._question_from_mailbox_message_locked, of a message in the mailbox
unfoldable pub question_from_message : Python → MailboxMessage → Option Question
question_from_message python message = elim (question_kind message.kind) [
  | none ↦ none
  | some kind ↦ some (record {
    task_id = message.task_id;
    kind = kind;
    prompt = message.content;
    request_id = text_or python (Json.get message.metadata "request_id") message.message_id;
    purpose = text_or python (Json.get message.metadata "purpose") "";
    context = text_or python (Json.get message.metadata "context") "";
    options = map (text python) (items_or_empty python (Json.get message.metadata "options"));
  })
]

-- A change of the task under an id, if there is one.
abbrev pub change_task : (TaskRecord → TaskRecord) → Option TaskRecord → Coordinator → Coordinator
change_task f none c = c
change_task f (some task) c = store_task (f task) c

abbrev is_needs_user : TaskStatus → Bool
is_needs_user needs_user = true
is_needs_user _ = false

-- AsyncCoordinator._mark_mailbox_question_answered_locked, of a task
unfoldable pub resume : Services → String → Coordinator → TaskRecord → TaskRecord
unfolding pending_for_main transition
resume services task_id c task =
    if not (any (λ m. m.task_id == task_id) (pending_for_main c.mailbox))
      && is_needs_user task.status
    then transition services.now running (some "user answered question") task
    else task

-- AsyncCoordinator._record_worker_answer_locked, of a task
unfoldable pub record_answer : Question → String → String → TaskRecord → TaskRecord
record_answer q reply decision task = record task {
  last_worker_answer_decision = decision;
  worker_question_log =
      task.worker_question_log
      ++ concat ("Answer to " ∷ q.request_id ∷ ": " ∷ reply ∷ " (decision=" ∷ decision ∷ ")" ∷ [])
        ∷ [];
}

-- AsyncCoordinator._update_authorization_note_locked, of a task, for a note that is not blank
unfoldable pub update_authorization_note : Services → String → TaskRecord → TaskRecord
unfolding strip
update_authorization_note services note task = if strip note == "" then task else record task {
  authorization_note = strip note;
  authorization_log = task.authorization_log ++ strip note ∷ [];
  updated_at = services.now;
}

-- The mailbox with the answer, and its decision.
unfoldable pub answered_mailbox :
    Services → MailboxMessage → String → String → Coordinator → Coordinator
unfolding Store.reply Store.change
answered_mailbox services message reply decision c = record c {
  mailbox =
      Store.change (λ m. record m { metadata = put_field "decision" (str decision) m.metadata })
        message.message_id (Store.reply services.now message.message_id reply c.mailbox);
}

-- What the answer changes of the task.
unfoldable pub answer_task :
    Services
    → MailboxMessage
    → Question
    → String
    → String
    → String
    → Coordinator
    → TaskRecord
    → TaskRecord
unfolding resume record_answer update_authorization_note
answer_task services message q reply decision note c task =
    update_authorization_note services note
      (record_answer q reply decision (resume services message.task_id c task))

-- The steps of reply_mailbox_message for a question that is pending.
unfoldable pub deliver :
    Services → MailboxMessage → Question → String → String → String → Coordinator → Coordinator
unfolding answered_mailbox answer_task send_to_worker
deliver services message q reply decision note c =
    let answered = answered_mailbox services message reply decision c in
    send_to_worker q.task_id (answer_question q.request_id reply decision) (
      persist (
        change_task (answer_task services message q reply decision note answered)
          (Dict.get c.registry.tasks message.task_id) answered))

abbrev pub unknown : String → ToolResult
unknown message_id = failure (concat ("unknown pending mailbox message: " ∷ message_id ∷ []))

unfoldable pub reply_to :
    Services
    → String
    → MailboxMessage
    → Option Question
    → String
    → String
    → String
    → String
    → Coordinator
    → ToolResult × Coordinator
unfolding deliver
reply_to services message_id message none reply decision message_to_user note c =
    (unknown message_id, c)
reply_to services message_id message (some q) reply decision message_to_user note c = (
  success (if message_to_user == "" then "Answer sent to worker." else message_to_user),
  deliver services message q reply decision note c,
)

unfoldable pub reply_to_found :
    Services
    → String
    → Option MailboxMessage
    → String
    → String
    → String
    → String
    → Coordinator
    → ToolResult × Coordinator
unfolding reply_to question_from_message
reply_to_found services message_id none reply decision message_to_user note c =
    (unknown message_id, c)
reply_to_found services message_id (some message) reply decision message_to_user note c =
    if awaits_reply message
    then reply_to services message_id message (question_from_message services.python message) reply
        decision message_to_user note c
    else (unknown message_id, c)

-- AsyncCoordinator.reply_mailbox_message
unfoldable pub reply_mailbox_message :
    Services → String → String → String → String → String → Coordinator → ToolResult × Coordinator
unfolding reply_to_found Store.get
reply_mailbox_message services message_id reply decision message_to_user note c =
    if contains ("approved" ∷ "denied" ∷ "none" ∷ []) decision
    then reply_to_found services message_id (Store.get c.mailbox message_id) reply decision
        message_to_user note c
    else (failure (concat ("invalid decision: " ∷ decision ∷ [])), c)
