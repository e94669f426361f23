-- ===== src/Coordinator/Reachable/Handling.antt =====
-- The handlers of events save what they change.
use xiao_ming.Prelude.{
  Bool, true, false, ◌≡◌, refl, sym, ◌∙◌, Option, none, some, Bool-cases, Option-cases, inl, inr,
}
use xiao_ming.Prelude.Dict
use xiao_ming.Tasks.Status.{is_terminal}
use xiao_ming.Tasks.Record.{TaskRecord}
use xiao_ming.Coordinator.Events.{WorkerEvent, WorkerEventKind, QuestionKind, Question}
use xiao_ming.Coordinator.State.{Coordinator, store_task}
use xiao_ming.Coordinator.Services.{Services}
use xiao_ming.Coordinator.Handling.{
  record_external_session, record_mailbox_status, peer_replied, note_progress, end_worker,
  handle_kind, is_ending, handle_task_event, handle_other_event, handle_worker_event, raises,
  raises_in,
}
use xiao_ming.Coordinator.Cancel.{}
use xiao_ming.Mailbox.Message.{MailboxMessage, MailboxKind}
use xiao_ming.Coordinator.Commands.{}
use xiao_ming.Coordinator.Decisions.{}
use xiao_ming.Prelude.{Result, ok, error, ◌&&◌, not}
use xiao_ming.Json
use xiao_ming.Json.{Value, null, bool, num, literal, str, arr, obj}
use xiao_ming.Tasks.Report.{ReviewReport}
use xiao_ming.Coordinator.Fork.{is_text}
use xiao_ming.Coordinator.Services.{WorkerQuestionDecision}
use xiao_ming.Coordinator.Questions.{
  answer_automatically, ask_the_user, handle_decision, handle_question, question_of,
  record_question_message, question_line, log_question, decide_worker_question,
}
use xiao_ming.Coordinator.Reports.{final_report, handle_completed_task}
use xiao_ming.Coordinator.Verifiers
use xiao_ming.Coordinator.Verifiers.{
  leave_decision, apply_message, verifier_ended, verifier_progress, handle_verifier_event,
}
use xiao_ming.Coordinator.Reachable.Saved.{
  IsSaved, IsSaved-verify_completed_report, IsSaved-handle_reported_task,
}

active : (ended b : Bool) → (ended && true) ≡ false → (not ended && b) ≡ false → b ≡ false
active true b early good = absurd (cc)
active false b early good = good

-- A handler that does not skip the event of a task raises nothing for it.
no_error :
    (kind : WorkerEventKind) (event : WorkerEvent) (task : TaskRecord)
    → (is_terminal task.status && is_ending kind) ≡ false
    → (not (is_terminal task.status) && raises_in kind event) ≡ false
    → raises_in kind event ≡ false
no_error WorkerEventKind.reported event task early good =
    active (is_terminal task.status) _ early good
no_error kind event task early good = refl

module _ (services : Services) where
  IsSaved-apply_message :
      (message : Result ReviewReport) (task : TaskRecord) (c : Coordinator)
      → IsSaved (apply_message services message task c)
  unfolding apply_message leave_decision
  IsSaved-apply_message (error e) task c = (refl, refl)
  IsSaved-apply_message (ok review) task c = (refl, refl)

  IsSaved-handle_verifier_event :
      (kind : WorkerEventKind) (event : WorkerEvent) (task : TaskRecord) (c : Coordinator)
      → IsSaved c
      → IsSaved (handle_verifier_event kind services event task c)
  unfolding handle_verifier_event verifier_ended verifier_progress leave_decision
  IsSaved-handle_verifier_event WorkerEventKind.completed event task c h =
      IsSaved-apply_message
        (services.review_report_from_message event.message (Verifiers.review_round task)
          event.task_id)
        _ _
  IsSaved-handle_verifier_event WorkerEventKind.failed event task c h = (refl, refl)
  IsSaved-handle_verifier_event WorkerEventKind.cancelled event task c h = (refl, refl)
  IsSaved-handle_verifier_event (WorkerEventKind.asks kind) event task c h = h
  IsSaved-handle_verifier_event WorkerEventKind.reported event task c h = h
  IsSaved-handle_verifier_event WorkerEventKind.peer_reply event task c h = h
  IsSaved-handle_verifier_event WorkerEventKind.started event task c h = (refl, refl)
  IsSaved-handle_verifier_event WorkerEventKind.heartbeat event task c h = (refl, refl)
  IsSaved-handle_verifier_event WorkerEventKind.progress event task c h = (refl, refl)
  IsSaved-handle_verifier_event WorkerEventKind.assistant_delta event task c h = (refl, refl)
  IsSaved-handle_verifier_event WorkerEventKind.tool_started event task c h = (refl, refl)
  IsSaved-handle_verifier_event WorkerEventKind.tool_finished event task c h = (refl, refl)

  IsSaved-handle_decision :
      (q : Question) (message : MailboxMessage) (decision : Option WorkerQuestionDecision)
      (task : TaskRecord) (c : Coordinator)
      → IsSaved (handle_decision services q message (decision, task) c)
  unfolding handle_decision answer_automatically ask_the_user
  IsSaved-handle_decision q message none task c = (refl, refl)
  IsSaved-handle_decision q message (some decision) task c = (refl, refl)

  IsSaved-handle_question :
      (kind : QuestionKind) (event : WorkerEvent) (task : TaskRecord) (c : Coordinator)
      → IsSaved (handle_question services kind event task c)
  unfolding handle_question
  IsSaved-handle_question kind event task c =
      let q = question_of services.python kind event task in
      let recorded = record_question_message services q task c in
      let logged = log_question (question_line q) task in
      let decided = decide_worker_question services q logged in
      IsSaved-handle_decision q recorded.0 decided.0 decided.1 (store_task logged recorded.1)

  IsSaved-handle_kind :
      (kind : WorkerEventKind) (event : WorkerEvent) (task : TaskRecord) (c : Coordinator)
      → raises_in kind event ≡ false
      → IsSaved (handle_kind kind services event task c)
  unfolding handle_kind peer_replied end_worker note_progress handle_completed_task
  IsSaved-handle_kind (WorkerEventKind.asks kind) event task c good =
      IsSaved-handle_question kind event task c
  IsSaved-handle_kind WorkerEventKind.reported event task c good =
      IsSaved-handle_reported_task services (Json.get event.data_fields "report") task
        (record_mailbox_status services MailboxKind.result event task c) good
  IsSaved-handle_kind WorkerEventKind.completed event task c good =
      IsSaved-verify_completed_report services (final_report event.message) task
        (record_mailbox_status services MailboxKind.result event task c)
  IsSaved-handle_kind WorkerEventKind.started event task c good = (refl, refl)
  IsSaved-handle_kind WorkerEventKind.heartbeat event task c good = (refl, refl)
  IsSaved-handle_kind WorkerEventKind.progress event task c good = (refl, refl)
  IsSaved-handle_kind WorkerEventKind.assistant_delta event task c good = (refl, refl)
  IsSaved-handle_kind WorkerEventKind.tool_started event task c good = (refl, refl)
  IsSaved-handle_kind WorkerEventKind.tool_finished event task c good = (refl, refl)
  IsSaved-handle_kind WorkerEventKind.peer_reply event task c good = (refl, refl)
  IsSaved-handle_kind WorkerEventKind.failed event task c good = (refl, refl)
  IsSaved-handle_kind WorkerEventKind.cancelled event task c good = (refl, refl)

  IsSaved-record_external_session :
      (event : WorkerEvent) (task : TaskRecord) (c : Coordinator)
      → IsSaved c
      → IsSaved (record_external_session services event task c)
  unfolding record_external_session
  IsSaved-record_external_session event task c h =
      elim (Bool-cases (is_text (Json.get event.data_fields "external_provider") "codex")) [
        | inl codex ↦ rw codex h
        | inr other ↦ rw other h
      ]

  IsSaved-handle_task_event :
      (event : WorkerEvent) (task : TaskRecord) (c : Coordinator)
      → (not (is_terminal task.status) && raises_in event.kind event) ≡ false
      → IsSaved c
      → IsSaved (handle_task_event services event task c)
  unfolding handle_task_event
  IsSaved-handle_task_event event task c good h =
      let recorded = record_external_session services event task c in
      elim (Bool-cases (is_terminal task.status && is_ending event.kind)) [
        | inl late ↦ rw late (IsSaved-record_external_session event task c h)
        | inr early ↦ rw early (
            IsSaved-handle_kind event.kind event task recorded
              (no_error event.kind event task early good))
      ]

  IsSaved-handle_other_event :
      (event : WorkerEvent) (c : Coordinator)
      → IsSaved c
      → IsSaved (handle_other_event services event c)
  unfolding handle_other_event
  IsSaved-handle_other_event event c h = elim (Option-cases (Dict.get c.verifiers event.task_id)) [
    | inl nobody ↦ rw (handle_other_event, nobody) h
    | inr (parent_id, there) ↦ elim (Option-cases (Dict.get c.registry.tasks parent_id)) [
      | inl gone ↦ rw (handle_other_event, there, gone) h
      | inr (parent, found) ↦
          rw (handle_other_event, there, found)
            (IsSaved-handle_verifier_event event.kind event parent c h)
    ]
  ]

  pub IsSaved-handle_worker_event :
      (event : WorkerEvent) (c : Coordinator)
      → raises event c ≡ false
      → IsSaved c
      → IsSaved (handle_worker_event services event c)
  unfolding handle_worker_event
  IsSaved-handle_worker_event event c good h =
      elim (Option-cases (Dict.get c.registry.tasks event.task_id)) [
        | inl unknown ↦ rw (handle_worker_event, unknown) (IsSaved-handle_other_event event c h)
        | inr (task, there) ↦
            rw (handle_worker_event, there)
              (IsSaved-handle_task_event event task c (sym (rw (raises, there) refl) ∙ good) h)
      ]
