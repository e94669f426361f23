-- ===== src/Coordinator/Frame/Reviews.antt =====
-- A review or a report changes its own task, and waiting ones.
use xiao_ming.Prelude.{
  String, Bool, true, false, ◌≡◌, sym, Option, none, some, List, [], ◌∷◌, ◌++◌, ◌==◌, if◌then◌else◌,
  Bool-cases, inl, inr, contains, leb, subst, join, Result, ok, error,
}
use xiao_ming.Prelude.Dict
use xiao_ming.Json.{Value, null, bool, num, literal, str, arr, obj}
use xiao_ming.Tasks.Status.{TaskStatus, accepted, rejected, reported_completed, verifying}
use xiao_ming.Tasks.Report.{
  TaskResultReport, ReviewReport, ReviewStatus, ReportStatus, report_from_dict, raises_type_error,
}
use xiao_ming.Tasks.Record.{TaskRecord, transition}
use xiao_ming.Coordinator.State.{
  Coordinator, Notice, is_submitted, said, review_accepted, review_feedback, store_task,
  send_to_worker, notice, drop_worker, clear_current, persist,
}
use xiao_ming.Coordinator.State
use xiao_ming.Coordinator.Services.{Services}
use xiao_ming.Coordinator.Start.{spec_or_default, try_start_waiting}
use xiao_ming.Coordinator.Review.{
  or_text, ask_user, count_revision, hand_back, start_revision_if_available, accept, leave_to_user,
  add_review, revise, apply_status, apply_review_report, apply_verdict, apply_verification_result,
  revision_feedback, review_exhausted_summary, review_feedback_items, review_summary_for_main,
}
use xiao_ming.Coordinator.Reports.{
  end_task, submit, start_verifier_worker, verify_submitted, verify_completed_report, handle_report,
  handle_reported_task, handle_completed_task, handle_parsed, final_report, verifier_id,
}
use xiao_ming.Coordinator.Frame.{
  Frame-add, Frame, Frame-shared, Frame-then_store, Frame-then, Frame-if, shared-clear_current,
  shared-send_to_worker,
}
use xiao_ming.Coordinator.Frame.Starts.{Frame-try_start_waiting}

-- From a coordinator `c`, for the task under `id`.
module _ (id : String) (c : Coordinator) where
  pub Frame-then_clear :
      (d : Coordinator) (task_id : String) → Frame id c d → Frame id c (clear_current task_id d)
  Frame-then_clear d task_id f =
      Frame-shared id c d (clear_current task_id d) (shared-clear_current task_id d) f

  Frame-accept :
      (now progress : String) (task : TaskRecord) (d : Coordinator)
      → task.task_id ≡ id
      → Frame id c d
      → Frame id c (accept now progress task d)
  unfolding accept transition
  Frame-accept now progress task d same f =
      let stored = store_task (transition now accepted (some progress) task) d in
      let sent = send_to_worker task.task_id review_accepted stored in
      Frame-then_clear (drop_worker task.task_id sent) task.task_id (
        Frame-shared id c stored sent (shared-send_to_worker task.task_id review_accepted stored)
          (Frame-then_store id c d (transition now accepted (some progress) task) same f))

  Frame-leave_to_user :
      (now summary : String) (told : Notice) (task : TaskRecord) (d : Coordinator)
      → task.task_id ≡ id
      → Frame id c d
      → Frame id c (leave_to_user now summary told task d)
  unfolding leave_to_user ask_user transition
  Frame-leave_to_user now summary told task d same f =
      Frame-then_clear (store_task (ask_user now summary task) d) task.task_id
        (Frame-then_store id c d (ask_user now summary task) same f)

  module _ (now : String) (report : TaskResultReport) (reasons : List String) where
    Frame-hand_back :
        (task : TaskRecord) (d : Coordinator)
        → task.task_id ≡ id
        → Frame id c d
        → Frame id c (hand_back now report reasons task d)
    unfolding hand_back ask_user transition send_to_worker
    Frame-hand_back task d same f =
        let stored = Frame-then_store id c d task same f in
        elim (Bool-cases (contains d.workers task.task_id)) [
          | inl present ↦ rw present stored
          | inr gone ↦ rw gone (
              Frame-then_store id c (store_task task d)
                (ask_user now (review_exhausted_summary task report reasons) task) same stored)
        ]

    Frame-start_revision :
        (task : TaskRecord) (d : Coordinator)
        → task.task_id ≡ id
        → Frame id c d
        → Frame id c (start_revision_if_available now report reasons task d).1
    unfolding start_revision_if_available ask_user count_revision transition
    Frame-start_revision task d same f = elim (Bool-cases (leb d.max_revision_attempts 0)) [
      | inl zero_limit ↦ rw zero_limit f
      | inr positive ↦ elim (Bool-cases (leb d.max_revision_attempts task.revision_attempts)) [
        | inl spent ↦
            rw (positive, spent)
              (Frame-then_store id c d
                (ask_user now (review_exhausted_summary task report reasons) task) same f)
        | inr left ↦
            rw (positive, left)
              (Frame-hand_back (count_revision now (revision_feedback reasons) task) d same f)
      ]
    ]

    Frame-revise :
        (review : ReviewReport) (task : TaskRecord) (d : Coordinator)
        → task.task_id ≡ id
        → Frame id c d
        → Frame id c (revise now report review reasons task d)
    unfolding revise
    Frame-revise review task d same f =
        let stored = Frame-then_store id c d task same f in
        let started = start_revision_if_available now report reasons task (store_task task d) in
        let g = Frame-start_revision task (store_task task d) same stored in
        elim (Bool-cases started.0) [
          | inl available ↦ rw available g
          | inr none_left ↦ rw none_left (
              Frame-leave_to_user now (review_summary_for_main review)
                (State.rejected_by_review task.title (review_summary_for_main review)) task
                started.1 same g)
        ]

    Frame-apply_verdict :
        (b : Bool) (task : TaskRecord) (d : Coordinator)
        → task.task_id ≡ id
        → Frame id c d
        → Frame id c (apply_verdict b now report reasons task d)
    unfolding apply_verdict transition
    Frame-apply_verdict true task d same f =
        Frame-accept now (or_text report.summary "accepted") task d same f
    Frame-apply_verdict false task d same f =
        let stored = Frame-then_store id c d task same f in
        let started = start_revision_if_available now report reasons task (store_task task d) in
        let g = Frame-start_revision task (store_task task d) same stored in
        elim (Bool-cases started.0) [
          | inl available ↦ rw available g
          | inr none_left ↦ rw none_left (
              Frame-then_clear
                (store_task (transition now rejected (some (join "; " reasons)) task) started.1)
                task.task_id
                (Frame-then_store id c started.1
                  (transition now rejected (some (join "; " reasons)) task) same g))
        ]

  Frame-apply_status :
      (s : ReviewStatus) (now : String) (report : TaskResultReport) (review : ReviewReport)
      (task : TaskRecord) (d : Coordinator)
      → task.task_id ≡ id
      → Frame id c d
      → Frame id c (apply_status s now report review task d)
  unfolding apply_status add_review
  Frame-apply_status ReviewStatus.accepted now report review task d same f =
      Frame-accept now (or_text review.summary (or_text report.summary "accepted"))
        (add_review review true (if review.summary == "" then [] else review.summary ∷ []) task) d
        same f
  Frame-apply_status ReviewStatus.needs_revision now report review task d same f =
      Frame-revise now report (review_feedback_items review) review
        (add_review review false (review_feedback_items review) task) d same f
  Frame-apply_status ReviewStatus.needs_user_decision now report review task d same f =
      Frame-leave_to_user now (review_summary_for_main review)
        (State.needs_decision task.title (review_summary_for_main review))
        (add_review review false (review_summary_for_main review ∷ []) task) d same f

  pub Frame-apply_review_report :
      (now : String) (report : TaskResultReport) (review : ReviewReport) (task : TaskRecord)
      (d : Coordinator)
      → task.task_id ≡ id
      → Frame id c d
      → Frame id c (apply_review_report now report review task d)
  unfolding apply_review_report
  Frame-apply_review_report now report review = Frame-apply_status review.status now report review

  module _ (services : Services) where
    pub Frame-then_waiting :
        (d : Coordinator) → Frame id c d → Frame id c (try_start_waiting services d)
    Frame-then_waiting d f =
        Frame-then id c d (try_start_waiting services d) f (Frame-try_start_waiting services id d)

    Frame-end_task :
        (status : TaskStatus) (progress told : String) (task : TaskRecord) (d : Coordinator)
        → task.task_id ≡ id
        → Frame id c d
        → Frame id c (end_task services status progress told task d)
    unfolding end_task transition
    Frame-end_task status progress told task d same f =
        let ended = transition services.now status (some progress) task in
        let stored = store_task ended (drop_worker task.task_id d) in
        Frame-then_waiting (notice (said told) (clear_current task.task_id stored))
          (Frame-then_clear stored task.task_id (Frame-then_store id c d ended same f))

    Frame-start_verifier_worker :
        (task : TaskRecord) (d : Coordinator)
        → task.task_id ≡ id
        → Frame id c d
        → Frame id c (start_verifier_worker services task d)
    unfolding start_verifier_worker
    Frame-start_verifier_worker task d same f =
        let verifier = verifier_id services task in
        let numbered = record task {
          verifier_task_ids = task.verifier_task_ids ++ verifier ∷ [];
          active_verifier_id = verifier;
        } in
        let added : Frame id c
            (record d { verifiers = Dict.put d.verifiers verifier task.task_id }) =
          subst (λ i. Frame id c (record d { verifiers = Dict.put d.verifiers verifier i }))
            (sym same) (Frame-add id c d verifier f) in
        Frame-then_store id c (record d { verifiers = Dict.put d.verifiers verifier task.task_id })
          numbered same added

    Frame-verify_submitted :
        (report : TaskResultReport) (task : TaskRecord) (d : Coordinator)
        → task.task_id ≡ id
        → Frame id c d
        → Frame id c (verify_submitted services report task d)
    unfolding verify_submitted apply_verification_result
    Frame-verify_submitted report task d same f =
        let verification = services.verify (spec_or_default task) report in
        let checked = record task { verification_result = some verification } in
        let applied =
          apply_verdict verification.accepted services.now report verification.reasons checked d in
        Frame-if id c d.use_verifier_worker (persist (start_verifier_worker services task d))
          (persist (try_start_waiting services applied)) (Frame-start_verifier_worker task d same f)
          (Frame-then_waiting applied (
            Frame-apply_verdict services.now report verification.reasons verification.accepted
              checked d same f))

    Frame-verify_completed_report :
        (report : TaskResultReport) (task : TaskRecord) (d : Coordinator)
        → task.task_id ≡ id
        → Frame id c d
        → Frame id c (verify_completed_report services report task d)
    unfolding verify_completed_report submit transition
    Frame-verify_completed_report report task d same f =
        let reported =
          transition services.now reported_completed
            (some (or_text report.summary "worker final answer")) (submit services report task) in
        let checking =
          transition services.now verifying (some "verifying worker result") reported in
        let told = notice (is_submitted task.title) (store_task reported d) in
        Frame-verify_submitted report checking (store_task checking told) same
          (Frame-then_store id c told checking same (Frame-then_store id c d reported same f))

    Frame-handle_report :
        (s : ReportStatus) (report : TaskResultReport) (task : TaskRecord) (d : Coordinator)
        → task.task_id ≡ id
        → Frame id c d
        → Frame id c (handle_report s services report task d)
    unfolding handle_report
    Frame-handle_report ReportStatus.failed report task d same f =
        Frame-end_task _ _ _ task d same f
    Frame-handle_report ReportStatus.blocked report task d same f =
        Frame-end_task _ _ _ task d same f
    Frame-handle_report ReportStatus.completed report task d same f =
        Frame-verify_completed_report report task d same f

    Frame-handle_parsed :
        (parsed : Result TaskResultReport) (task : TaskRecord) (d : Coordinator)
        → task.task_id ≡ id
        → Frame id c d
        → Frame id c (handle_parsed services parsed task d)
    unfolding handle_parsed
    Frame-handle_parsed (error e) task d same f = Frame-end_task _ _ _ task d same f
    Frame-handle_parsed (ok report) task d same f =
        let reported = record task { result_report = some report } in
        Frame-handle_report report.status report reported (store_task reported d) same
          (Frame-then_store id c d reported same f)

    pub Frame-handle_reported_task :
        (value : Option Value) (task : TaskRecord) (d : Coordinator)
        → task.task_id ≡ id
        → Frame id c d
        → Frame id c (handle_reported_task services value task d)
    unfolding handle_reported_task
    Frame-handle_reported_task (some (obj fields)) task d same f =
        let parsed = report_from_dict services.python fields in
        Frame-if id c (raises_type_error fields) d (handle_parsed services parsed task d) f
          (Frame-handle_parsed parsed task d same f)
    Frame-handle_reported_task none task d same f = Frame-end_task _ _ _ task d same f
    Frame-handle_reported_task (some null) task d same f = Frame-end_task _ _ _ task d same f
    Frame-handle_reported_task (some (bool b)) task d same f = Frame-end_task _ _ _ task d same f
    Frame-handle_reported_task (some (num n)) task d same f = Frame-end_task _ _ _ task d same f
    Frame-handle_reported_task (some (literal s)) task d same f = Frame-end_task _ _ _ task d same f
    Frame-handle_reported_task (some (str s)) task d same f = Frame-end_task _ _ _ task d same f
    Frame-handle_reported_task (some (arr vs)) task d same f = Frame-end_task _ _ _ task d same f

    pub Frame-handle_completed_task :
        (answer : String) (task : TaskRecord) (d : Coordinator)
        → task.task_id ≡ id
        → Frame id c d
        → Frame id c (handle_completed_task services answer task d)
    unfolding handle_completed_task
    Frame-handle_completed_task answer = Frame-verify_completed_report (final_report answer)
