-- ===== src/Coordinator/Reachable/Saved.antt =====
-- Starting workers and handling reports saves what it changes.
use xiao_ming.Prelude.{
  String, Bool, true, false, ◌≡◌, refl, Option, none, some, List, [], ◌∷◌, if◌then◌else◌,
  Bool-cases, inl, inr, contains,
}
use xiao_ming.Tasks.Status.{TaskStatus}
use xiao_ming.Tasks.Record.{TaskRecord}
use xiao_ming.Tasks.Registry
use xiao_ming.Coordinator.State.{Coordinator, WorkerMessage, send_to_worker, persist}
use xiao_ming.Coordinator.Services.{Services}
use xiao_ming.Coordinator.Start.{blocks, start_waiting, start_first, try_start_waiting}
use xiao_ming.Coordinator.Handling.{bad_report}
use xiao_ming.Coordinator.Cancel.{}
use xiao_ming.Coordinator.Commands.{}
use xiao_ming.Coordinator.Decisions.{}
use xiao_ming.Prelude.{Result, ok, error, any}
use xiao_ming.Json.{Value, null, bool, num, literal, str, arr, obj}
use xiao_ming.Tasks.Report.{TaskResultReport, ReportStatus, report_from_dict}
use xiao_ming.Coordinator.Questions.{}
use xiao_ming.Coordinator.Review.{apply_verification_result}
use xiao_ming.Coordinator.Start.{spec_or_default}
use xiao_ming.Coordinator.Reports.{
  start_verifier_worker, end_task, verify_submitted, verify_completed_report, handle_report,
  handle_parsed, handle_reported_task,
}
use xiao_ming.Coordinator.Verifiers.{}

-- The files of the tasks and of the mailbox hold the registry and the mailbox.
abbrev pub IsSaved : Coordinator → Type 0
IsSaved c = (c.saved ≡ c.registry) × (c.saved_mailbox ≡ c.mailbox)

pub IsSaved-if :
    (b : Bool) (c d : Coordinator) → IsSaved c → IsSaved d → IsSaved (if b then c else d)
IsSaved-if true c d h k = h
IsSaved-if false c d h k = k

pub IsSaved-send_to_worker :
    (task_id : String) (message : WorkerMessage) (c : Coordinator)
    → IsSaved c
    → IsSaved (send_to_worker task_id message c)
unfolding send_to_worker
IsSaved-send_to_worker task_id message c h = elim (Bool-cases (contains c.workers task_id)) [
  | inl present ↦ rw present h
  | inr gone ↦ rw gone h
]

module _ (services : Services) where
  IsSaved-start_first :
      (tasks : List TaskRecord) (c : Coordinator)
      → IsSaved c
      → IsSaved (start_first services tasks c)
  unfolding start_first start_waiting
  IsSaved-start_first [] c h = h
  IsSaved-start_first (task ∷ tasks) c h = elim (Bool-cases (any (blocks c) task.conflicts_with)) [
    | inl blocked ↦ rw blocked (IsSaved-start_first tasks c h)
    | inr free ↦ rw free (refl, refl)
  ]

  pub IsSaved-try_start_waiting :
      (c : Coordinator) → IsSaved c → IsSaved (try_start_waiting services c)
  unfolding try_start_waiting
  IsSaved-try_start_waiting c h = IsSaved-start_first (Registry.waiting c.registry) c h

  -- The handlers of reports save, whatever was saved before.
  module _ (task : TaskRecord) (c : Coordinator) where
    IsSaved-end_task :
        (status : TaskStatus) (progress told : String)
        → IsSaved (end_task services status progress told task c)
    unfolding end_task
    IsSaved-end_task status progress told = (refl, refl)

    IsSaved-verify_submitted :
        (report : TaskResultReport) → IsSaved (verify_submitted services report task c)
    unfolding verify_submitted
    IsSaved-verify_submitted report =
        let applied =
          apply_verification_result services.now report
            (services.verify (spec_or_default task) report) task c in
        IsSaved-if c.use_verifier_worker (persist (start_verifier_worker services task c))
          (persist (try_start_waiting services applied)) (refl, refl) (refl, refl)

  pub IsSaved-verify_completed_report :
      (report : TaskResultReport) (task : TaskRecord) (c : Coordinator)
      → IsSaved (verify_completed_report services report task c)
  unfolding verify_completed_report
  IsSaved-verify_completed_report report task c = IsSaved-verify_submitted _ _ report

  IsSaved-handle_report :
      (status : ReportStatus) (report : TaskResultReport) (task : TaskRecord) (c : Coordinator)
      → IsSaved (handle_report status services report task c)
  unfolding handle_report
  IsSaved-handle_report ReportStatus.failed report task c = IsSaved-end_task task c _ _ _
  IsSaved-handle_report ReportStatus.blocked report task c = IsSaved-end_task task c _ _ _
  IsSaved-handle_report ReportStatus.completed report task c =
      IsSaved-verify_completed_report report task c

  IsSaved-handle_parsed :
      (parsed : Result TaskResultReport) (task : TaskRecord) (c : Coordinator)
      → IsSaved (handle_parsed services parsed task c)
  unfolding handle_parsed
  IsSaved-handle_parsed (error e) task c = IsSaved-end_task task c _ _ _
  IsSaved-handle_parsed (ok report) task c = IsSaved-handle_report report.status report _ _

  pub IsSaved-handle_reported_task :
      (value : Option Value) (task : TaskRecord) (c : Coordinator)
      → bad_report value ≡ false
      → IsSaved (handle_reported_task services value task c)
  unfolding handle_reported_task
  IsSaved-handle_reported_task (some (obj fields)) task c good =
      rw good (IsSaved-handle_parsed (report_from_dict services.python fields) task c)
  IsSaved-handle_reported_task none task c good = IsSaved-end_task task c _ _ _
  IsSaved-handle_reported_task (some null) task c good = IsSaved-end_task task c _ _ _
  IsSaved-handle_reported_task (some (bool b)) task c good = IsSaved-end_task task c _ _ _
  IsSaved-handle_reported_task (some (num n)) task c good = IsSaved-end_task task c _ _ _
  IsSaved-handle_reported_task (some (literal s)) task c good = IsSaved-end_task task c _ _ _
  IsSaved-handle_reported_task (some (str s)) task c good = IsSaved-end_task task c _ _ _
  IsSaved-handle_reported_task (some (arr vs)) task c good = IsSaved-end_task task c _ _ _
