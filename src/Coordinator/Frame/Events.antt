-- ===== src/Coordinator/Frame/Events.antt =====
-- An event changes the task that it is about, and waiting ones.
use xiao_ming.Prelude.{
  String, false, ◌≡◌, refl, ◌∙◌, Option, none, some, [], ◌∷◌, Option-cases, inl, inr, concat,
  Result, ok, error,
}
use xiao_ming.Prelude.Dict
use xiao_ming.Tasks.Status.{needs_user}
use xiao_ming.Tasks.Report.{ReviewReport}
use xiao_ming.Tasks.Record.{TaskRecord, transition}
use xiao_ming.Mailbox.Message.{MailboxMessage}
use xiao_ming.Coordinator.Events.{WorkerEvent, WorkerEventKind, QuestionKind, Question}
use xiao_ming.Coordinator.State.{Coordinator, answer_question, store_task, notice_once}
use xiao_ming.Coordinator.Services.{Services, WorkerQuestionDecision}
use xiao_ming.Coordinator.Review.{ask_user, apply_review_report}
use xiao_ming.Coordinator.Verifiers.{
  forget_verifier, leave_decision, apply_message, handle_verifier_event,
}
use xiao_ming.Coordinator.Verifiers
use xiao_ming.Mailbox.Store
use xiao_ming.Mailbox.Views.{MailboxNoticeCandidate, notice_candidates}
use xiao_ming.Coordinator.Services.{Decision}
use xiao_ming.Coordinator.Questions.{
  question_of, record_question_message, question_line, log_question, decided,
  decide_worker_question, titles, candidate_for, notice_pending_question, notice_candidate,
  give_answer, answered_task, answer_notice, decision_text, mark_decision, answer_automatically,
  ask_the_user, handle_decision, handle_question,
}
use xiao_ming.Coordinator.Handling.{}
use xiao_ming.Coordinator.Frame.{
  Frame-forget, Frame, Frame-shared, Frame-then_store, shared-notice_once, shared-send_to_worker,
}
use xiao_ming.Coordinator.Frame.Reviews.{Frame-then_waiting, Frame-apply_review_report}

module _ (id : String) (c : Coordinator) (services : Services) where
  pub Frame-then_notice_once :
      (clock : _) (task_id text : String) (d : Coordinator)
      → Frame id c d
      → Frame id c (notice_once clock task_id text d)
  Frame-then_notice_once clock task_id text d f =
      Frame-shared id c d (notice_once clock task_id text d)
        (shared-notice_once clock task_id text d) f

  Frame-leave_decision :
      (summary told : String) (task : TaskRecord) (d : Coordinator)
      → task.task_id ≡ id
      → Frame id c d
      → Frame id c (leave_decision services summary told task d)
  unfolding leave_decision ask_user transition
  Frame-leave_decision summary told task d same f =
      Frame-then_store id c d (ask_user services.now summary task) same f

  Frame-apply_message :
      (message : Result ReviewReport) (task : TaskRecord) (d : Coordinator)
      → task.task_id ≡ id
      → Frame id c d
      → Frame id c (apply_message services message task d)
  unfolding apply_message
  Frame-apply_message (error e) task d same f = Frame-leave_decision _ "" task d same f
  Frame-apply_message (ok review) task d same f =
      let report = Verifiers.report_or_empty task in
      Frame-then_waiting id c services (apply_review_report services.now report review task d)
        (Frame-apply_review_report id c services.now report review task d same f)

  module _ (event : WorkerEvent) (task : TaskRecord) (d : Coordinator) (same : task.task_id ≡ id)
      (f : Frame id c d) where
    Frame-thank_verifier : Frame id c (Verifiers.thank_verifier event.task_id d)
    Frame-thank_verifier = elim (Option-cases (Dict.get d.verifiers event.task_id)) [
      | inl gone ↦ rw (Verifiers.thank_verifier, gone) f
      | inr (parent, there) ↦ rw (Verifiers.thank_verifier, there) f
    ]

    Frame-verifier_ended :
        (kind how : String) → Frame id c (Verifiers.verifier_ended services kind how event task d)
    unfolding Verifiers.verifier_ended
    Frame-verifier_ended kind how =
        Frame-leave_decision _ "" (record task { active_verifier_id = "" })
          (forget_verifier event.task_id task d) same
          (Frame-then_store id c (record d { verifiers = Dict.remove d.verifiers event.task_id })
            (record task { active_verifier_id = "" }) same (Frame-forget id c d event.task_id f))

    Frame-verifier_progress : Frame id c (Verifiers.verifier_progress services event task d)
    unfolding Verifiers.verifier_progress transition
    Frame-verifier_progress = Frame-then_store id c d _ same f

    pub Frame-handle_verifier_event :
        (kind : WorkerEventKind) → Frame id c (handle_verifier_event kind services event task d)
    unfolding handle_verifier_event transition
    Frame-handle_verifier_event WorkerEventKind.completed =
        Frame-apply_message
          (services.review_report_from_message event.message (Verifiers.review_round task)
            event.task_id)
          (record task { active_verifier_id = "" })
          (forget_verifier event.task_id task (Verifiers.thank_verifier event.task_id d)) same
          (Frame-then_store id c
            (record (Verifiers.thank_verifier event.task_id d) {
              verifiers =
                  Dict.remove (Verifiers.thank_verifier event.task_id d).verifiers event.task_id;
            })
            (record task { active_verifier_id = "" }) same
            (Frame-forget id c (Verifiers.thank_verifier event.task_id d) event.task_id
              Frame-thank_verifier))
    Frame-handle_verifier_event WorkerEventKind.failed = Frame-verifier_ended "failed" "失败"
    Frame-handle_verifier_event WorkerEventKind.cancelled = Frame-verifier_ended "cancelled" "取消"
    Frame-handle_verifier_event (WorkerEventKind.asks kind) = f
    Frame-handle_verifier_event WorkerEventKind.reported = f
    Frame-handle_verifier_event WorkerEventKind.peer_reply = f
    Frame-handle_verifier_event WorkerEventKind.started = Frame-verifier_progress
    Frame-handle_verifier_event WorkerEventKind.heartbeat = Frame-verifier_progress
    Frame-handle_verifier_event WorkerEventKind.progress = Frame-verifier_progress
    Frame-handle_verifier_event WorkerEventKind.assistant_delta = Frame-verifier_progress
    Frame-handle_verifier_event WorkerEventKind.tool_started = Frame-verifier_progress
    Frame-handle_verifier_event WorkerEventKind.tool_finished = Frame-verifier_progress

  decided-same_id :
      (d : Decision) (q : Question) (decision : WorkerQuestionDecision) (task : TaskRecord)
      → decision.decision ≡ d
      → (decided services q (ok decision) task).1.task_id ≡ task.task_id
  unfolding decided
  decided-same_id Decision.approved q decision task is = rw is refl
  decided-same_id Decision.denied q decision task is = rw is refl
  decided-same_id Decision.ask_user q decision task is = rw is refl

  answer-same_id :
      (q : Question) (answer : Result WorkerQuestionDecision) (task : TaskRecord)
      → (decided services q answer task).1.task_id ≡ task.task_id
  unfolding decided transition
  answer-same_id q (error e) task = refl
  answer-same_id q (ok decision) task = decided-same_id decision.decision q decision task refl

  decide_worker_question-same_id :
      (q : Question) (task : TaskRecord)
      → (decide_worker_question services q task).1.task_id ≡ task.task_id
  unfolding decide_worker_question
  decide_worker_question-same_id q task = elim (Option-cases services.decide) [
    | inl nobody ↦ rw nobody refl
    | inr (decide, there) ↦ rw there (answer-same_id q (decide task q) task)
  ]

  Frame-notice_candidate :
      (candidate : Option MailboxNoticeCandidate) (d : Coordinator)
      → Frame id c d
      → Frame id c (notice_candidate services candidate d)
  Frame-notice_candidate none d f = f
  Frame-notice_candidate (some candidate) d f =
      Frame-then_notice_once services.clock candidate.task_id candidate.notice d f

  Frame-give_answer :
      (q : Question) (decision : WorkerQuestionDecision) (message : MailboxMessage)
      (task : TaskRecord) (d : Coordinator)
      → Frame id c d
      → Frame id c (give_answer services q decision message task d)
  unfolding give_answer
  Frame-give_answer q decision message task d f =
      Frame-shared id c d (give_answer services q decision message task d)
        (shared-send_to_worker task.task_id
          (answer_question q.request_id decision.answer (decision_text decision.decision))
          (record d {
            mailbox =
                Store.change (mark_decision decision.decision) message.message_id
                  (Store.reply services.now message.message_id decision.answer d.mailbox);
          }))
        f

  Frame-handle_decision :
      (q : Question) (message : MailboxMessage) (decision : Option WorkerQuestionDecision)
      (task : TaskRecord) (d : Coordinator)
      → task.task_id ≡ id
      → Frame id c d
      → Frame id c (handle_decision services q message (decision, task) d)
  unfolding handle_decision ask_the_user notice_pending_question answer_automatically answered_task
      transition
  Frame-handle_decision q message none task d same f =
      let asking =
        transition services.now needs_user (some q.prompt) (
          log_question (concat ("Question " ∷ q.request_id ∷ " requires user answer" ∷ [])) task) in
      Frame-notice_candidate
        (candidate_for task.task_id
          (notice_candidates services.python (titles (store_task asking d)) false none d.mailbox))
        (store_task asking d) (Frame-then_store id c d asking same f)
  Frame-handle_decision q message (some decision) task d same f =
      let given = give_answer services q decision message task d in
      Frame-then_notice_once services.clock task.task_id (answer_notice decision task)
        (store_task (answered_task services q decision task) given)
        (Frame-then_store id c given (answered_task services q decision task) same
          (Frame-give_answer q decision message task d f))

  pub Frame-handle_question :
      (kind : QuestionKind) (event : WorkerEvent) (task : TaskRecord) (d : Coordinator)
      → task.task_id ≡ id
      → Frame id c d
      → Frame id c (handle_question services kind event task d)
  unfolding handle_question record_question_message
  Frame-handle_question kind event task d same f =
      let q = question_of services.python kind event task in
      let logged = log_question (question_line q) task in
      let recorded = record_question_message services q task d in
      let decided = decide_worker_question services q logged in
      Frame-handle_decision q recorded.0 decided.0 decided.1 (store_task logged recorded.1)
        (decide_worker_question-same_id q logged ∙ same)
        (Frame-then_store id c recorded.1 logged same f)
