-- ===== src/Coordinator/Questions.antt =====
-- Questions of workers in async_runtime/coordinator.py: how they are recorded, decided and told.
use xiao_ming.Prelude.{
  String, true, false, Option, none, some, List, [], ◌∷◌, ◌++◌, map, ◌==◌, if◌then◌else◌, Result,
  ok, error, concat, join,
}
use xiao_ming.Prelude.Dict
use xiao_ming.Json
use xiao_ming.Json.{
  Value, str, arr, Fields, dict, field, of_list, Python, text, text_or, items_or_empty,
}
use xiao_ming.Tasks.Status.{needs_user}
use xiao_ming.Tasks.Record.{TaskRecord, transition}
use xiao_ming.Mailbox.Message.{MailboxMessage, MailboxKind}
use xiao_ming.Mailbox.Store
use xiao_ming.Mailbox.Views.{Titles, MailboxNoticeCandidate, notice_candidates}
use xiao_ming.Coordinator.Events.{Question, QuestionKind, WorkerEvent}
use xiao_ming.Coordinator.State.{
  Coordinator, answer_question, store_task, send_to_worker, notice_once, persist,
}
use xiao_ming.Coordinator.Services.{
  Services, Decision, WorkerQuestionDecision, approved, denied, ask_user,
}

abbrev pub question_kind_text : QuestionKind → String
question_kind_text QuestionKind.approval_request = "approval_request"
question_kind_text QuestionKind.clarification_request = "clarification_request"
question_kind_text QuestionKind.decision_request = "decision_request"

abbrev pub mailbox_kind : QuestionKind → MailboxKind
mailbox_kind QuestionKind.approval_request = MailboxKind.approval_request
mailbox_kind QuestionKind.clarification_request = MailboxKind.clarification_request
mailbox_kind QuestionKind.decision_request = MailboxKind.decision_request

-- The Question of an event.
unfoldable pub question_of : Python → QuestionKind → WorkerEvent → TaskRecord → Question
question_of python kind event task = record {
  task_id = event.task_id;
  kind = kind;
  prompt = concat (task.title ∷ "：" ∷ event.message ∷ []);
  request_id = text_or python (Json.get event.data_fields "request_id") "";
  purpose = text_or python (Json.get event.data_fields "purpose") "";
  context = text_or python (Json.get event.data_fields "context") "";
  options = map (text python) (items_or_empty python (Json.get event.data_fields "options"));
}

abbrev question_metadata : Question → TaskRecord → Fields
question_metadata q task = dict (
    ("request_id", str q.request_id)
    ∷ ("purpose", str q.purpose)
    ∷ ("context", str q.context)
    ∷ ("options", arr (of_list (map str q.options)))
    ∷ ("task_title", str task.title)
    ∷ [])

-- AsyncCoordinator._record_mailbox_message_for_question_locked: the message and the coordinator
unfoldable pub record_question_message :
    Services → Question → TaskRecord → Coordinator → MailboxMessage × Coordinator
unfolding Store.create_message
record_question_message services q task c =
    let created =
      Store.create_message services.new_id services.now q.task_id "worker" "main"
        (mailbox_kind q.kind) q.prompt true (some q.task_id) (question_metadata q task) c.mailbox in
    (created.0, record c { mailbox = created.1 })

-- AsyncCoordinator._record_worker_question_locked: the line for the log
unfoldable pub question_line : Question → String
question_line q = concat (
    "Question "
    ∷ q.request_id
    ∷ " ("
    ∷ question_kind_text q.kind
    ∷ "; purpose="
    ∷ (if q.purpose == "" then "none" else q.purpose)
    ∷ "): "
    ∷ q.prompt
    ∷ (if q.context == "" then "" else concat ("\nContext: " ∷ q.context ∷ []))
    ∷ (elim q.options [ [] ↦ "" | o ∷ os ↦ concat ("\nOptions: " ∷ join " | " (o ∷ os) ∷ []) ])
    ∷ [])

-- task.worker_question_log.append(line)
abbrev pub log_question : String → TaskRecord → TaskRecord
log_question line task = record task { worker_question_log = task.worker_question_log ++ line ∷ [] }

unfoldable pub decided :
    Services
    → Question
    → Result WorkerQuestionDecision
    → TaskRecord
    → Option WorkerQuestionDecision × TaskRecord
unfolding transition
decided services q (error e) task = (
  none,
  transition services.now task.status (some (concat ("worker question decision failed: " ∷ e ∷ [])))
      task,
)
decided services q (ok decision) task = elim decision.decision [
  | ask_user ↦ (
    none,
    log_question (concat ("Question " ∷ q.request_id ∷ " asks user: " ∷ decision.reason ∷ [])) task,
  )
  | approved ↦ (some decision, task)
  | denied ↦ (some decision, task)
]

-- AsyncCoordinator._decide_worker_question_locked: the decision, and the task after it
unfoldable pub decide_worker_question :
    Services → Question → TaskRecord → Option WorkerQuestionDecision × TaskRecord
unfolding decided
decide_worker_question services q task = elim services.decide [
  | none ↦ (none, task)
  | some decide ↦ decided services q (decide task q) task
]

abbrev pub decision_text : Decision → String
decision_text approved = "approved"
decision_text denied = "denied"
decision_text ask_user = "ask_user"

abbrev pub titles : Coordinator → Titles
titles c task_id = elim (Dict.get c.registry.tasks task_id) [
  | none ↦ none
  | some task ↦ some task.title
]

abbrev pub candidate_for : String → List MailboxNoticeCandidate → Option MailboxNoticeCandidate
candidate_for task_id [] = none
candidate_for task_id (m ∷ ms) = if m.task_id == task_id then some m else candidate_for task_id ms

abbrev pub notice_candidate : Services → Option MailboxNoticeCandidate → Coordinator → Coordinator
notice_candidate services none c = c
notice_candidate services (some candidate) c =
    notice_once services.clock candidate.task_id candidate.notice c

-- AsyncCoordinator._notice_pending_mailbox_question_locked, of a task
unfoldable pub notice_pending_question : Services → String → Coordinator → Coordinator
unfolding notice_once notice_candidates
notice_pending_question services task_id c =
    notice_candidate services
      (candidate_for task_id (notice_candidates services.python (titles c) false none c.mailbox)) c

-- message.metadata["decision"] = decision
abbrev pub put_field : String → Value → Fields → Fields
put_field key value Json.end = field key value Json.end
put_field key value (field k v rest) =
    let later = put_field key value rest in if k == key then field k value rest else field k v later

abbrev pub mark_decision : Decision → MailboxMessage → MailboxMessage
mark_decision decision m = record m {
  metadata = put_field "decision" (str (decision_text decision)) m.metadata;
}

abbrev action_text : Decision → String
action_text approved = "批准"
action_text _ = "拒绝"

-- The task after an answer without the user.
unfoldable pub answered_task :
    Services → Question → WorkerQuestionDecision → TaskRecord → TaskRecord
unfolding transition
answered_task services q decision task =
    transition services.now task.status
      (some (
        if decision.reason == ""
        then "worker question handled by authorization note"
        else decision.reason))
      (log_question
        (concat (
          "Auto-answer to "
          ∷ q.request_id
          ∷ ": "
          ∷ decision.answer
          ∷ " (decision="
          ∷ decision_text decision.decision
          ∷ "; reason="
          ∷ decision.reason
          ∷ ")"
          ∷ []))
        (record task { last_worker_answer_decision = decision_text decision.decision }))

abbrev pub answer_notice : WorkerQuestionDecision → TaskRecord → String
answer_notice decision task = concat (
    task.title
    ∷ " 已根据授权自动"
    ∷ action_text decision.decision
    ∷ "后台任务请求"
    ∷ (if decision.reason == "" then "" else concat ("：" ∷ decision.reason ∷ []))
    ∷ [])

-- The coordinator with the answer in its mailbox, sent to the worker.
unfoldable pub give_answer :
    Services
    → Question
    → WorkerQuestionDecision
    → MailboxMessage
    → TaskRecord
    → Coordinator
    → Coordinator
unfolding Store.reply Store.change send_to_worker
give_answer services q decision message task c =
    let replied = Store.reply services.now message.message_id decision.answer c.mailbox in
    send_to_worker task.task_id
      (answer_question q.request_id decision.answer (decision_text decision.decision))
      (record c {
        mailbox = Store.change (mark_decision decision.decision) message.message_id replied;
      })

-- The steps for a question that the decider answered.
unfoldable pub answer_automatically :
    Services
    → Question
    → WorkerQuestionDecision
    → MailboxMessage
    → TaskRecord
    → Coordinator
    → Coordinator
unfolding give_answer answered_task notice_once
answer_automatically services q decision message task c = persist (
    notice_once services.clock task.task_id (answer_notice decision task) (
      store_task (answered_task services q decision task)
        (give_answer services q decision message task c)))

-- The steps for a question that waits for the user.
unfoldable pub ask_the_user : Services → Question → TaskRecord → Coordinator → Coordinator
unfolding transition notice_pending_question
ask_the_user services q task c = persist (
    notice_pending_question services task.task_id (
      store_task
        (transition services.now needs_user (some q.prompt)
          (log_question (concat ("Question " ∷ q.request_id ∷ " requires user answer" ∷ [])) task))
        c))

unfoldable pub handle_decision :
    Services
    → Question
    → MailboxMessage
    → Option WorkerQuestionDecision × TaskRecord
    → Coordinator
    → Coordinator
unfolding answer_automatically ask_the_user
handle_decision services q message (some decision, task) c =
    answer_automatically services q decision message task c
handle_decision services q message (none, task) c = ask_the_user services q task c

-- The branch of _handle_worker_event_locked for the kinds that ask.
unfoldable pub handle_question :
    Services → QuestionKind → WorkerEvent → TaskRecord → Coordinator → Coordinator
unfolding question_of record_question_message question_line decide_worker_question handle_decision
handle_question services kind event task c =
    let q = question_of services.python kind event task in
    let recorded = record_question_message services q task c in
    let logged = log_question (question_line q) task in
    handle_decision services q recorded.0 (decide_worker_question services q logged)
      (store_task logged recorded.1)
