-- ===== src/Coordinator/Reports.antt =====
-- Reports of workers: _handle_reported_task_locked, _handle_completed_task_locked,
-- _verify_completed_report_locked and _start_verifier_worker_locked of async_runtime/coordinator.py.
use xiao_ming.Prelude.{
  ◌+◌, String, Option, some, [], ◌∷◌, ◌++◌, ◌==◌, if◌then◌else◌, Result, ok, error, concat, join,
  strip, length,
}
use xiao_ming.Prelude.Dict
use xiao_ming.Json.{Value, num, obj}
use xiao_ming.Tasks.Status.{TaskStatus, failed, blocked, reported_completed, verifying}
use xiao_ming.Tasks.Report.{
  TaskResultReport, ReportStatus, WorkerSubmission, report_from_dict, report_to_dict,
  raises_type_error,
}
use xiao_ming.Tasks.Record.{TaskRecord, transition}
use xiao_ming.Coordinator.State.{
  Coordinator, is_submitted, said, store_task, notice, drop_worker, clear_current, persist,
}
use xiao_ming.Coordinator.Services.{Services}
use xiao_ming.Coordinator.Start.{spec_or_default, try_start_waiting}
use xiao_ming.Coordinator.Review.{or_text, apply_verification_result}

-- The steps that end a task: the worker is dropped, the status set, the user told, and a waiting task
-- started.
unfoldable pub end_task :
    Services → TaskStatus → String → String → TaskRecord → Coordinator → Coordinator
unfolding transition try_start_waiting
end_task services status progress told task c = persist (
    try_start_waiting services (
      notice (said told) (
        clear_current task.task_id (
          store_task (transition services.now status (some progress) task)
            (drop_worker task.task_id c)))))

abbrev submission : Services → TaskResultReport → TaskRecord → WorkerSubmission
unfolding report_to_dict
submission services report task = record {
  round = length task.worker_submissions + 1;
  summary = report.summary;
  report = report_to_dict report;
  created_at = services.now;
}

-- The task with its report and a submission more.
unfoldable pub submit : Services → TaskResultReport → TaskRecord → TaskRecord
unfolding submission
submit services report task = record task {
  result_report = some report;
  worker_submissions = task.worker_submissions ++ submission services report task ∷ [];
}

-- The id of the next verifier of a task.
abbrev pub verifier_id : Services → TaskRecord → String
verifier_id services task = concat (
    task.task_id
    ∷ "-verifier-"
    ∷ services.python.repr (num (length task.verifier_task_ids + 1))
    ∷ [])

-- AsyncCoordinator._start_verifier_worker_locked, without the configuration of the worker
unfoldable pub start_verifier_worker : Services → TaskRecord → Coordinator → Coordinator
start_verifier_worker services task c =
    store_task
      (record task {
        verifier_task_ids = task.verifier_task_ids ++ verifier_id services task ∷ [];
        active_verifier_id = verifier_id services task;
      })
      (record c { verifiers = Dict.put c.verifiers (verifier_id services task) task.task_id })

-- AsyncCoordinator._verify_completed_report_locked behind the two transitions, with the task verifying.
unfoldable pub verify_submitted :
    Services → TaskResultReport → TaskRecord → Coordinator → Coordinator
unfolding start_verifier_worker apply_verification_result try_start_waiting
verify_submitted services report task c =
    if c.use_verifier_worker
    then persist (start_verifier_worker services task c)
    else persist (
        try_start_waiting services (
          apply_verification_result services.now report
            (services.verify (spec_or_default task) report) task c))

-- AsyncCoordinator._verify_completed_report_locked
unfoldable pub verify_completed_report :
    Services → TaskResultReport → TaskRecord → Coordinator → Coordinator
unfolding submit transition verify_submitted
verify_completed_report services report task c =
    let reported =
      transition services.now reported_completed
        (some (or_text report.summary "worker final answer")) (submit services report task) in
    let checking = transition services.now verifying (some "verifying worker result") reported in
    verify_submitted services report checking
      (store_task checking (notice (is_submitted task.title) (store_task reported c)))

abbrev failure : String → String → String
failure title detail = concat (title ∷ " 失败：" ∷ detail ∷ [])

-- The detail of a blocked report.
abbrev blocked_detail : TaskResultReport → String
blocked_detail report =
    or_text report.summary (or_text (join "; " report.blockers) "worker is blocked")

-- The branches of _handle_reported_task_locked on the status of the report, for the task with it.
unfoldable pub handle_report :
    ReportStatus → Services → TaskResultReport → TaskRecord → Coordinator → Coordinator
unfolding end_task verify_completed_report
handle_report ReportStatus.failed services report task c =
    let detail = or_text report.summary "worker reported failure" in
    end_task services failed detail (failure task.title detail) task c
handle_report ReportStatus.blocked services report task c =
    end_task services blocked (blocked_detail report)
      (concat (task.title ∷ " 需要你确认：" ∷ blocked_detail report ∷ [])) task c
handle_report ReportStatus.completed services report task c =
    verify_completed_report services report task c

unfoldable pub handle_parsed :
    Services → Result TaskResultReport → TaskRecord → Coordinator → Coordinator
unfolding end_task handle_report
handle_parsed services (error e) task c = end_task services failed e (failure task.title e) task c
handle_parsed services (ok report) task c =
    let reported = record task { result_report = some report } in
    handle_report report.status services report reported (store_task reported c)

-- AsyncCoordinator._handle_reported_task_locked, of event.data.get("report"). A TypeError leaves the
-- handler before it changes anything.
unfoldable pub handle_reported_task :
    Services → Option Value → TaskRecord → Coordinator → Coordinator
unfolding end_task handle_parsed report_from_dict
handle_reported_task services (some (obj fields)) task c =
    if raises_type_error fields
    then c
    else handle_parsed services (report_from_dict services.python fields) task c
handle_reported_task services value task c =
    end_task services failed "worker reported invalid task result"
      (failure task.title "worker reported invalid task result") task c

abbrev pub final_report : String → TaskResultReport
final_report answer = record {
  status = ReportStatus.completed;
  summary = strip answer;
  changed_files = [];
  created_files = [];
  artifacts = [];
  verification = [];
  blockers = [];
  evidence =
      if strip answer == "" then [] else concat ("Worker final answer:\n" ∷ strip answer ∷ []) ∷ [];
}

-- AsyncCoordinator._handle_completed_task_locked
unfoldable pub handle_completed_task : Services → String → TaskRecord → Coordinator → Coordinator
unfolding verify_completed_report
handle_completed_task services final_answer task c =
    verify_completed_report services (final_report final_answer) task c
