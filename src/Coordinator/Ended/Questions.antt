-- ===== src/Coordinator/Ended/Questions.antt =====
-- A question of a worker for which there is no decider waits for the user, whatever the task's status.
use xiao_ming.Prelude.{
  false, ◌≡◌, refl, ap, ◌∙◌, Option, none, some, [], ◌∷◌, Bool-cases, inl, inr, subst, eq_refl,
  concat,
}
use xiao_ming.Prelude.Dict
use xiao_ming.Tasks.Status.{is_terminal, needs_user}
use xiao_ming.Tasks.Record.{TaskRecord, transition}
use xiao_ming.Mailbox.Views.{MailboxNoticeCandidate, notice_candidates}
use xiao_ming.Coordinator.Events.{WorkerEvent, WorkerEventKind, QuestionKind, Question}
use xiao_ming.Coordinator.State.{Coordinator, store_task}
use xiao_ming.Coordinator.Services.{Services}
use xiao_ming.Coordinator.Questions.{
  question_of, record_question_message, question_line, log_question, decide_worker_question, titles,
  candidate_for, notice_pending_question, notice_candidate, ask_the_user, handle_decision,
  handle_question,
}
use xiao_ming.Coordinator.Handling.{
  record_external_session, handle_kind, handle_task_event, handle_worker_event,
}
use xiao_ming.Coordinator.Frame.{IsKeyed, status_in, entry, shared, shared-notice_once}
use xiao_ming.Coordinator.Frame.Handling.{keyed-get}

module _ (services : Services) where
  shared-notice_candidate :
      (candidate : Option MailboxNoticeCandidate) (d : Coordinator)
      → shared (notice_candidate services candidate d) ≡ shared d
  shared-notice_candidate none d = refl
  shared-notice_candidate (some candidate) d =
      shared-notice_once services.clock candidate.task_id candidate.notice d

  entry-store :
      (task : TaskRecord) (d : Coordinator) → entry (store_task task d) task.task_id ≡ some task
  entry-store task d =
      Dict.get-put d.registry.tasks task.task_id task task.task_id ∙ rw (eq_refl task.task_id) refl

  status-ask_the_user :
      (q : Question) (task : TaskRecord) (d : Coordinator)
      → status_in (entry (ask_the_user services q task d) task.task_id) ≡ some needs_user
  unfolding ask_the_user notice_pending_question transition
  status-ask_the_user q task d =
      let asking =
        transition services.now needs_user (some q.prompt) (
          log_question (concat ("Question " ∷ q.request_id ∷ " requires user answer" ∷ [])) task) in
      let candidate =
        candidate_for task.task_id
          (notice_candidates services.python (titles (store_task asking d)) false none d.mailbox) in
      ap (λ s. status_in (Dict.get s.0 task.task_id))
        (shared-notice_candidate candidate (store_task asking d))
      ∙ ap status_in (entry-store asking d)

  status-handle_question :
      (kind : QuestionKind) (event : WorkerEvent) (task : TaskRecord) (d : Coordinator)
      → services.decide ≡ none
      → status_in (entry (handle_question services kind event task d) task.task_id)
        ≡ some needs_user
  unfolding handle_question decide_worker_question handle_decision
  status-handle_question kind event task d nobody =
      let q = question_of services.python kind event task in
      let logged = log_question (question_line q) task in
      let recorded = record_question_message services q task d in
      rw nobody (status-ask_the_user q logged (store_task logged recorded.1))

  status-own :
      (kind : QuestionKind) (event : WorkerEvent) (task : TaskRecord) (c : Coordinator)
      → services.decide ≡ none
      → event.kind ≡ WorkerEventKind.asks kind
      → status_in (entry (handle_task_event services event task c) task.task_id) ≡ some needs_user
  unfolding handle_task_event handle_kind
  status-own kind event task c nobody asks = elim (Bool-cases (is_terminal task.status)) [
    | inl late ↦
        rw (late, asks)
          (status-handle_question kind event task (record_external_session services event task c)
            nobody)
    | inr ongoing ↦
        rw (ongoing, asks)
          (status-handle_question kind event task (record_external_session services event task c)
            nobody)
  ]

  -- A question of the worker of a task in a registry that holds each task under its id, where no decider
  -- answers for the user, leaves the task waiting for the user, whatever its status was: one that has ended
  -- as well.
  pub status-question :
      (kind : QuestionKind) (event : WorkerEvent) (task : TaskRecord) (c : Coordinator)
      → IsKeyed c.registry.tasks
      → services.decide ≡ none
      → event.kind ≡ WorkerEventKind.asks kind
      → entry c event.task_id ≡ some task
      → status_in (entry (handle_worker_event services event c) event.task_id) ≡ some needs_user
  unfolding handle_worker_event handle_task_event handle_kind
  status-question kind event task c h nobody asks there =
      let same = keyed-get c.registry.tasks event.task_id task h.keyed there in
      rw (handle_worker_event, there)
        (subst
          (λ id. status_in (entry (handle_task_event services event task c) id) ≡ some needs_user)
          same (status-own kind event task c nobody asks))
