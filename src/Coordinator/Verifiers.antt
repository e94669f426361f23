-- ===== src/Coordinator/Verifiers.antt =====
-- Events of verifier workers: _handle_verifier_worker_event_locked of async_runtime/coordinator.py.
use xiao_ming.Prelude.{
  ℕ, ◌+◌, String, none, some, List, [], ◌∷◌, ◌++◌, ◌==◌, if◌then◌else◌, Result, ok, error, concat,
  length,
}
use xiao_ming.Prelude.Dict
use xiao_ming.Tasks.Report.{TaskResultReport, ReportStatus, WorkerSubmission, ReviewReport}
use xiao_ming.Tasks.Record.{TaskRecord, transition}
use xiao_ming.Coordinator.Events.{WorkerEvent, WorkerEventKind}
use xiao_ming.Coordinator.State.{Coordinator, said, review_accepted, store_task, notice, persist}
use xiao_ming.Coordinator.Services.{Services}
use xiao_ming.Coordinator.Start.{try_start_waiting}
use xiao_ming.Coordinator.Review.{ask_user, apply_review_report}

abbrev last_round : List WorkerSubmission → ℕ → ℕ
last_round [] none_round = none_round
last_round (s ∷ []) none_round = s.round
last_round (s ∷ t ∷ submissions) none_round = last_round (t ∷ submissions) none_round

-- The round of a review: that of the last submission.
abbrev pub review_round : TaskRecord → ℕ
review_round task = last_round task.worker_submissions (length task.review_reports + 1)

abbrev pub report_or_empty : TaskRecord → TaskResultReport
report_or_empty task = elim task.result_report [
  | some report ↦ report
  | none ↦ record {
    status = ReportStatus.completed;
    summary = "";
    changed_files = [];
    created_files = [];
    artifacts = [];
    verification = [];
    blockers = [];
    evidence = [];
  }
]

-- The verifier's entries are removed, and the task has no active one.
abbrev pub forget_verifier : String → TaskRecord → Coordinator → Coordinator
forget_verifier verifier_id task c =
    store_task (record task { active_verifier_id = "" })
      (record c { verifiers = Dict.remove c.verifiers verifier_id })

-- task.needs_user_decision_summary = summary; the transition to it; the notice.
unfoldable pub leave_decision : Services → String → String → TaskRecord → Coordinator → Coordinator
unfolding ask_user
leave_decision services summary told task c =
    persist (notice (said told) (store_task (ask_user services.now summary task) c))

-- The word to a verifier that has ended.
abbrev pub thank_verifier : String → Coordinator → Coordinator
thank_verifier verifier_id c = elim (Dict.get c.verifiers verifier_id) [
  | none ↦ c
  | some parent ↦ record c { sent = c.sent ++ (verifier_id, review_accepted) ∷ [] }
]

-- What a completed verifier's message leads to.
unfoldable pub apply_message :
    Services → Result ReviewReport → TaskRecord → Coordinator → Coordinator
unfolding leave_decision apply_review_report try_start_waiting
apply_message services (error e) task c =
    leave_decision services (concat ("verifier worker returned invalid review result: " ∷ e ∷ []))
      (concat (task.title ∷ " 验收器返回了无法解析的结果，需要用户决策：" ∷ e ∷ [])) task c
apply_message services (ok review) task c = persist (
    try_start_waiting services
      (apply_review_report services.now (report_or_empty task) review task c))

unfoldable pub verifier_ended :
    Services → String → String → WorkerEvent → TaskRecord → Coordinator → Coordinator
unfolding leave_decision
verifier_ended services kind how event task c =
    let freed = record task { active_verifier_id = "" } in
    leave_decision services (concat ("verifier worker " ∷ kind ∷ ": " ∷ event.message ∷ []))
      (concat (task.title ∷ " 验收器" ∷ how ∷ "，需要用户决策：" ∷ event.message ∷ [])) freed
      (forget_verifier event.task_id task c)

unfoldable pub verifier_progress : Services → WorkerEvent → TaskRecord → Coordinator → Coordinator
unfolding transition
verifier_progress services event task c = persist (
    store_task
      (transition services.now task.status
        (some (
          if event.message == ""
          then "verifier running"
          else concat ("verifier: " ∷ event.message ∷ [])))
        task)
      c)

-- AsyncCoordinator._handle_verifier_worker_event_locked, by the kind of the event.
unfoldable pub handle_verifier_event :
    WorkerEventKind → Services → WorkerEvent → TaskRecord → Coordinator → Coordinator
unfolding apply_message verifier_ended verifier_progress
handle_verifier_event WorkerEventKind.completed services event task c =
    apply_message services
      (services.review_report_from_message event.message (review_round task) event.task_id)
      (record task { active_verifier_id = "" })
      (forget_verifier event.task_id task (thank_verifier event.task_id c))
handle_verifier_event WorkerEventKind.failed services event task c =
    verifier_ended services "failed" "失败" event task c
handle_verifier_event WorkerEventKind.cancelled services event task c =
    verifier_ended services "cancelled" "取消" event task c
handle_verifier_event (WorkerEventKind.asks kind) services event task c = c
handle_verifier_event WorkerEventKind.reported services event task c = c
handle_verifier_event WorkerEventKind.peer_reply services event task c = c
handle_verifier_event kind services event task c = verifier_progress services event task c
