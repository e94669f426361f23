-- ===== src/Coordinator/Review.antt =====
-- The review loop of async_runtime/coordinator.py: what a verdict on a worker's result does to the task.
pub mod Outcome
use xiao_ming.Prelude.{
  ℕ, zero, suc, ◌+◌, String, Bool, true, false, not, Option, none, some, List, [], ◌∷◌, ◌++◌, map,
  ◌==◌, if◌then◌else◌, leb, contains, keep, strip, lower, join, concat,
}
use xiao_ming.Tasks.Status.{TaskStatus, accepted, rejected, needs_revision, needs_user_decision}
use xiao_ming.Tasks.Spec.{spec_of}
use xiao_ming.Tasks.Report.{TaskResultReport, VerificationResult, ReviewReport, ReviewStatus}
use xiao_ming.Tasks.Report
use xiao_ming.Tasks.Record.{TaskRecord, transition}
use xiao_ming.Coordinator.State.{
  Coordinator, Notice, is_accepted, is_rejected, rejected_by_review, needs_decision,
  needs_correction, corrections_used_up, worker_is_gone, WorkerMessage, review_accepted,
  review_feedback, store_task, send_to_worker, notice, drop_worker, clear_current, persist,
}

-- a or b, for texts
abbrev pub or_text : String → String → String
or_text a b = if a == "" then b else a

-- _revision_feedback
unfoldable pub revision_feedback : List String → String
revision_feedback reasons = elim (keep (λ r. not (r == "")) (map strip reasons)) [
  | [] ↦ "verifier did not accept the result"
  | r ∷ rs ↦ join "; " (r ∷ rs)
]

-- _none_if_placeholder
unfoldable pub none_if_placeholder : String → String
none_if_placeholder value =
    let cleaned = strip value in
    if contains ("(none)" ∷ "none" ∷ "无" ∷ "无。" ∷ "n/a" ∷ []) (lower cleaned) then "" else cleaned

-- The loop over the values in _review_feedback_items and _review_summary_for_main.
unfoldable pub first_cleaned : List String → String → String
unfolding none_if_placeholder
first_cleaned [] default = default
first_cleaned (value ∷ values) default =
    let rest = first_cleaned values default in
    if none_if_placeholder value == "" then rest else none_if_placeholder value

-- _review_feedback_items
unfoldable pub review_feedback_items : ReviewReport → List String
unfolding first_cleaned
review_feedback_items review =
    first_cleaned
      (review.feedback_to_worker ∷ review.issues ∷ review.summary ∷ review.full_text ∷ [])
      "verifier requested revision"
    ∷ []

-- _review_summary_for_main
unfoldable pub review_summary_for_main : ReviewReport → String
unfolding first_cleaned
review_summary_for_main review =
    first_cleaned
      (review.summary_for_main ∷ review.summary ∷ review.issues ∷ review.feedback_to_worker
        ∷ review.full_text ∷ [])
      "verifier requested main decision"

-- The goal of task.task_spec or TaskSpec(title=task.title, goal=task.current_goal)
abbrev goal_of : TaskRecord → String
goal_of task = elim task.task_spec [
  | none ↦ (spec_of task.title task.current_goal).goal
  | some spec ↦ spec.goal
]

-- _review_exhausted_summary
unfoldable pub review_exhausted_summary : TaskRecord → TaskResultReport → List String → String
unfolding revision_feedback
review_exhausted_summary task report reasons = concat (
    "Review feedback loop exhausted.\n\n"
    ∷ "Original goal:\n"
    ∷ goal_of task
    ∷ "\n\nLatest verifier feedback:\n"
    ∷ revision_feedback reasons
    ∷ "\n\nLatest worker answer:\n"
    ∷ or_text report.summary "(empty)"
    ∷ "\n\nMain Xiaoming should explain the current task state to the user and decide, based on the user's response, "
    ∷ "whether to continue revising, adjust the goal, accept the current result with concerns, or stop the task."
    ∷ [])

-- task.needs_user_decision_summary = summary; task.transition("needs_user_decision", summary)
unfoldable pub ask_user : String → String → TaskRecord → TaskRecord
unfolding transition
ask_user now summary task =
    transition now needs_user_decision (some summary)
      (record task { needs_user_decision_summary = summary })

-- task.revision_attempts += 1; task.transition("needs_revision", feedback)
unfoldable pub count_revision : String → String → TaskRecord → TaskRecord
unfolding transition
count_revision now feedback task =
    transition now needs_revision (some feedback)
      (record task { revision_attempts = task.revision_attempts + 1 })

-- Coordinator._start_revision_if_available_locked after the count, with the task counted.
unfoldable pub hand_back :
    String → TaskResultReport → List String → TaskRecord → Coordinator → Coordinator
unfolding revision_feedback review_exhausted_summary ask_user send_to_worker
hand_back now report reasons task c =
    let told =
      notice
        (needs_correction task.title task.revision_attempts c.max_revision_attempts
          (revision_feedback reasons))
        (store_task task c) in
    if contains c.workers task.task_id
    then send_to_worker task.task_id
        (review_feedback (revision_feedback reasons) reasons task.revision_attempts
          c.max_revision_attempts)
        told
    else notice (worker_is_gone task.title (revision_feedback reasons))
        (store_task (ask_user now (review_exhausted_summary task report reasons) task) told)

-- Coordinator._start_revision_if_available_locked
unfoldable pub start_revision_if_available :
    String → TaskResultReport → List String → TaskRecord → Coordinator → Bool × Coordinator
unfolding revision_feedback review_exhausted_summary ask_user count_revision hand_back
start_revision_if_available now report reasons task c =
    if leb c.max_revision_attempts 0
    then (false, c)
    else if leb c.max_revision_attempts task.revision_attempts
    then (
      true,
      notice (corrections_used_up task.title c.max_revision_attempts (revision_feedback reasons))
          (store_task (ask_user now (review_exhausted_summary task report reasons) task) c),
    )
    else (
      true,
      hand_back now report reasons (count_revision now (revision_feedback reasons) task) c,
    )

-- The steps for an accepted task: the transition, the message to the worker, and the notice.
unfoldable pub accept : String → String → TaskRecord → Coordinator → Coordinator
unfolding transition send_to_worker
accept now progress task c = notice (is_accepted task.title progress) (
    clear_current task.task_id (
      drop_worker task.task_id (
        send_to_worker task.task_id review_accepted
          (store_task (transition now accepted (some progress) task) c))))

-- The steps that leave a task to the user after a review.
unfoldable pub leave_to_user : String → String → Notice → TaskRecord → Coordinator → Coordinator
unfolding ask_user
leave_to_user now summary told task c =
    notice told (clear_current task.task_id (store_task (ask_user now summary task) c))

-- task.review_reports.append(review), with the VerificationResult that the branch sets
unfoldable pub add_review : ReviewReport → Bool → List String → TaskRecord → TaskRecord
add_review review verdict reasons task = record task {
  review_reports = task.review_reports ++ review ∷ [];
  verification_result = some (record { accepted = verdict; reasons = reasons });
}

-- The NEEDS_REVISION branch of _apply_review_report_locked.
unfoldable pub revise :
    String → TaskResultReport → ReviewReport → List String → TaskRecord → Coordinator → Coordinator
unfolding start_revision_if_available review_summary_for_main leave_to_user
revise now report review reasons task c =
    let started = start_revision_if_available now report reasons task (store_task task c) in
    if started.0
    then started.1
    else leave_to_user now (review_summary_for_main review)
        (rejected_by_review task.title (review_summary_for_main review)) task started.1

-- The branches of _apply_review_report_locked, by the status of the review.
unfoldable pub apply_status :
    ReviewStatus → String → TaskResultReport → ReviewReport → TaskRecord → Coordinator → Coordinator
unfolding add_review accept review_feedback_items review_summary_for_main leave_to_user revise
apply_status ReviewStatus.accepted now report review task c =
    accept now (or_text review.summary (or_text report.summary "accepted"))
      (add_review review true (if review.summary == "" then [] else review.summary ∷ []) task) c
apply_status ReviewStatus.needs_revision now report review task c =
    revise now report review (review_feedback_items review)
      (add_review review false (review_feedback_items review) task) c
apply_status ReviewStatus.needs_user_decision now report review task c =
    leave_to_user now (review_summary_for_main review)
      (needs_decision task.title (review_summary_for_main review))
      (add_review review false (review_summary_for_main review ∷ []) task) c

-- Coordinator._apply_review_report_locked
unfoldable pub apply_review_report :
    String → TaskResultReport → ReviewReport → TaskRecord → Coordinator → Coordinator
unfolding apply_status
apply_review_report now report review task c = apply_status review.status now report review task c

-- The branches of _apply_verification_result_locked, by `accepted`, for the task with its verification.
unfoldable pub apply_verdict :
    Bool → String → TaskResultReport → List String → TaskRecord → Coordinator → Coordinator
unfolding transition accept start_revision_if_available
apply_verdict true now report reasons task c = accept now (or_text report.summary "accepted") task c
apply_verdict false now report reasons task c =
    let started = start_revision_if_available now report reasons task (store_task task c) in
    if started.0
    then persist started.1
    else notice (is_rejected task.title (join "; " reasons)) (
        clear_current task.task_id
          (store_task (transition now rejected (some (join "; " reasons)) task) started.1))

-- Coordinator._apply_verification_result_locked
unfoldable pub apply_verification_result :
    String → TaskResultReport → VerificationResult → TaskRecord → Coordinator → Coordinator
unfolding apply_verdict
apply_verification_result now report verification task c =
    apply_verdict verification.accepted now report verification.reasons
      (record task { verification_result = some verification }) c
