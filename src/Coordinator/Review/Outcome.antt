-- ===== src/Coordinator/Review/Outcome.antt =====
-- How a review ends: the status of the task, the number of revisions, and the word to the worker.
use xiao_ming.Prelude.{
  ℕ, ◌+◌, ◌≤◌, String, Bool, true, false, ◌≡◌, refl, ap, sym, ◌∙◌, Option, none, some, List, [],
  ◌∷◌, ◌==◌, if◌then◌else◌, leb, contains, Bool-cases, inl, inr, arith, eq_refl, join,
}
use xiao_ming.Prelude.Dict
use xiao_ming.Prelude.Dict.{Dict}
use xiao_ming.Tasks.Status.{TaskStatus, accepted, rejected, needs_revision, needs_user_decision}
use xiao_ming.Tasks.Report.{TaskResultReport, VerificationResult, ReviewReport, ReviewStatus}
use xiao_ming.Tasks.Record.{TaskRecord, transition}
use xiao_ming.Tasks.Registry.{TaskRegistry, clear_current_if, is_current}
use xiao_ming.Coordinator.State.{
  Coordinator, Notice, store_task, send_to_worker, drop_worker, needs_decision, rejected_by_review,
  WorkerMessage, review_accepted, clear_current,
}
use xiao_ming.Coordinator.Review.{
  ask_user, count_revision, hand_back, start_revision_if_available, accept, leave_to_user,
  add_review, apply_review_report, apply_verification_result, apply_verdict, apply_status, or_text,
  review_summary_for_main, review_exhausted_summary, revise, revision_feedback,
  review_feedback_items,
}

abbrev progress_of : Option TaskRecord → Option (TaskStatus × ℕ)
progress_of none = none
progress_of (some task) = some (task.status, task.revision_attempts)

-- The status of a task and its number of revisions, in the registry.
abbrev pub progress_in : Coordinator → String → Option (TaskStatus × ℕ)
progress_in c task_id = progress_of (Dict.get c.registry.tasks task_id)

-- What a review makes of the status and the number of revisions: the limit, the number before, and
-- whether the worker is still there.
abbrev pub outcome : ReviewStatus → ℕ → ℕ → Bool → TaskStatus × ℕ
outcome ReviewStatus.accepted limit attempts present = (accepted, attempts)
outcome ReviewStatus.needs_user_decision limit attempts present = (needs_user_decision, attempts)
outcome ReviewStatus.needs_revision limit attempts present =
    if leb limit attempts
    then (needs_user_decision, attempts)
    else if present
    then (needs_revision, attempts + 1)
    else (needs_user_decision, attempts + 1)

tasks-clear_current_if :
    (task_id : String) (registry : TaskRegistry)
    → (clear_current_if task_id registry).tasks ≡ registry.tasks
unfolding clear_current_if
tasks-clear_current_if task_id registry =
    elim (Bool-cases (is_current registry.current_task_id task_id)) [
      | inl same ↦ rw same
      | inr other ↦ rw other
    ]

get-put_same :
    (d : Dict TaskRecord) (k : String) (v : TaskRecord) → Dict.get (Dict.put d k v) k ≡ some v
get-put_same d k v = rw (Dict.get-put d k v k, eq_refl k)

progress-store_task :
    (task : TaskRecord) (c : Coordinator)
    → progress_in (store_task task c) task.task_id ≡ some (task.status, task.revision_attempts)
progress-store_task task c = ap progress_of (get-put_same c.registry.tasks task.task_id task)

progress-clear_current :
    (task_id : String) (c : Coordinator)
    → progress_in (clear_current task_id c) task_id ≡ progress_in c task_id
progress-clear_current task_id c =
    ap (λ tasks. progress_of (Dict.get tasks task_id)) (tasks-clear_current_if task_id c.registry)

progress-send_to_worker :
    (worker : String) (message : WorkerMessage) (c : Coordinator) (task_id : String)
    → progress_in (send_to_worker worker message c) task_id ≡ progress_in c task_id
unfolding send_to_worker
progress-send_to_worker worker message c task_id = elim (Bool-cases (contains c.workers worker)) [
  | inl present ↦ rw present
  | inr gone ↦ rw gone
]

progress-accept :
    (now progress : String) (task : TaskRecord) (c : Coordinator)
    → progress_in (accept now progress task c) task.task_id
      ≡ some (accepted, task.revision_attempts)
unfolding accept transition
progress-accept now progress task c =
    progress-clear_current task.task_id (
      drop_worker task.task_id (
        send_to_worker task.task_id review_accepted
          (store_task (transition now accepted (some progress) task) c)))
    ∙ progress-send_to_worker task.task_id review_accepted
        (store_task (transition now accepted (some progress) task) c) task.task_id
    ∙ progress-store_task (transition now accepted (some progress) task) c

progress-leave_to_user :
    (now summary : String) (told : Notice) (task : TaskRecord) (c : Coordinator)
    → progress_in (leave_to_user now summary told task c) task.task_id
      ≡ some (needs_user_decision, task.revision_attempts)
unfolding leave_to_user ask_user transition
progress-leave_to_user now summary told task c =
    progress-clear_current task.task_id (store_task (ask_user now summary task) c)
    ∙ progress-store_task (ask_user now summary task) c

push_pair {ℓ κ} :
    {A : Type ℓ} {B : Type κ} (b : Bool) (x y : A) (z : B)
    → ◌≡◌ {A = A × B} ((if b then x else y), z) (if b then (x, z) else (y, z))
push_pair true x y z = refl
push_pair false x y z = refl

module _ (now : String) (report : TaskResultReport) (reasons : List String) where
  progress-hand_back :
      (task : TaskRecord) (c : Coordinator)
      → progress_in (hand_back now report reasons task c) task.task_id
        ≡ some (
          (if contains c.workers task.task_id then task.status else needs_user_decision),
          task.revision_attempts,
        )
  unfolding hand_back ask_user transition
  progress-hand_back task c = elim (Bool-cases (contains c.workers task.task_id)) [
    | inl present ↦ rw present (progress-store_task task c)
    | inr gone ↦ rw gone (
        ap progress_of (
          get-put_same (Dict.put c.registry.tasks task.task_id task) task.task_id
            (ask_user now (review_exhausted_summary task report reasons) task)))
  ]

  -- With a positive limit the revision is decided here.
  start_revision-positive :
      (task : TaskRecord) (c : Coordinator)
      → leb c.max_revision_attempts 0 ≡ false
      → ((start_revision_if_available now report reasons task c).0 ≡ true)
        × (progress_in (start_revision_if_available now report reasons task c).1 task.task_id
            ≡ some (
                outcome ReviewStatus.needs_revision c.max_revision_attempts task.revision_attempts
                  (contains c.workers task.task_id)))
  unfolding start_revision_if_available count_revision ask_user transition
  start_revision-positive task c positive =
      elim (Bool-cases (leb c.max_revision_attempts task.revision_attempts)) [
        | inl spent ↦
            rw (positive, spent)
              (
                refl,
                progress-store_task
                    (ask_user now (review_exhausted_summary task report reasons) task) c,
              )
        | inr left ↦
            rw (positive, left)
              (
                refl,
                progress-hand_back (count_revision now (revision_feedback reasons) task) c
                    ∙ ap some (
                        push_pair (contains c.workers task.task_id) needs_revision
                          needs_user_decision (task.revision_attempts + 1)),
              )
      ]

-- Without a positive limit there is no revision.
start_revision-zero :
    (now : String) (report : TaskResultReport) (reasons : List String) (task : TaskRecord)
    (c : Coordinator)
    → leb c.max_revision_attempts 0 ≡ true
    → start_revision_if_available now report reasons task c ≡ (false, c)
unfolding start_revision_if_available
start_revision-zero now report reasons task c zero_limit = rw zero_limit

progress-revise :
    (now : String) (report : TaskResultReport) (review : ReviewReport) (reasons : List String)
    (task : TaskRecord) (c : Coordinator)
    → progress_in (revise now report review reasons task c) task.task_id
      ≡ some (
          outcome ReviewStatus.needs_revision c.max_revision_attempts task.revision_attempts
            (contains c.workers task.task_id))
unfolding revise
progress-revise now report review reasons task c =
    elim (Bool-cases (leb c.max_revision_attempts 0)) [
      | inl zero_limit ↦
          let over : leb c.max_revision_attempts task.revision_attempts ≡ true =
            ground (arith, zero_limit) in
          rw (start_revision-zero now report reasons task (store_task task c) zero_limit, over)
            (progress-leave_to_user now (review_summary_for_main review)
              (rejected_by_review task.title (review_summary_for_main review)) task
              (store_task task c))
      | inr positive ↦
          let started =
            start_revision-positive now report reasons task (store_task task c) positive in
          rw (started.0) (started.1)
    ]

by_status :
    (s : ReviewStatus) (now : String) (report : TaskResultReport) (review : ReviewReport)
    (task : TaskRecord) (c : Coordinator)
    → progress_in (apply_status s now report review task c) task.task_id
      ≡ some (
          outcome s c.max_revision_attempts task.revision_attempts
            (contains c.workers task.task_id))
unfolding apply_status add_review
by_status ReviewStatus.accepted now report review task c =
    progress-accept now (or_text review.summary (or_text report.summary "accepted"))
      (add_review review true (if review.summary == "" then [] else review.summary ∷ []) task) c
by_status ReviewStatus.needs_revision now report review task c =
    progress-revise now report review (review_feedback_items review)
      (add_review review false (review_feedback_items review) task) c
by_status ReviewStatus.needs_user_decision now report review task c =
    progress-leave_to_user now (review_summary_for_main review)
      (needs_decision task.title (review_summary_for_main review))
      (add_review review false (review_summary_for_main review ∷ []) task) c

-- A review leaves the task in the registry as its verdict says: accepted; or with the user; or, where a
-- revision is asked for, with the worker and one revision more if the limit is not reached and the
-- worker is there, else with the user.
pub apply_review_report_lem :
    (now : String) (report : TaskResultReport) (review : ReviewReport) (task : TaskRecord)
    (c : Coordinator)
    → progress_in (apply_review_report now report review task c) task.task_id
      ≡ some (
          outcome review.status c.max_revision_attempts task.revision_attempts
            (contains c.workers task.task_id))
unfolding apply_review_report
apply_review_report_lem now report review task c = by_status review.status now report review task c

-- The status of an unaccepted verdict of the local verifier: it is a revision while the limit allows.
abbrev pub verification_outcome : Bool → ℕ → ℕ → Bool → TaskStatus × ℕ
verification_outcome true limit attempts present = (accepted, attempts)
verification_outcome false limit attempts present =
    if leb limit 0
    then (rejected, attempts)
    else outcome ReviewStatus.needs_revision limit attempts present

by_verdict :
    (b : Bool) (now : String) (report : TaskResultReport) (reasons : List String)
    (task : TaskRecord) (c : Coordinator)
    → progress_in (apply_verdict b now report reasons task c) task.task_id
      ≡ some (
          verification_outcome b c.max_revision_attempts task.revision_attempts
            (contains c.workers task.task_id))
unfolding apply_verdict transition
by_verdict true now report reasons task c =
    progress-accept now (or_text report.summary "accepted") task c
by_verdict false now report reasons task c = elim (Bool-cases (leb c.max_revision_attempts 0)) [
  | inl zero_limit ↦
      rw (start_revision-zero now report reasons task (store_task task c) zero_limit, zero_limit)
        (progress-clear_current task.task_id (
            store_task (transition now rejected (some (join "; " reasons)) task)
              (store_task task c))
          ∙ progress-store_task (transition now rejected (some (join "; " reasons)) task)
              (store_task task c))
  | inr positive ↦
      let started = start_revision-positive now report reasons task (store_task task c) positive in
      let limited : verification_outcome false c.max_revision_attempts task.revision_attempts
            (contains c.workers task.task_id)
          ≡ outcome ReviewStatus.needs_revision c.max_revision_attempts task.revision_attempts
              (contains c.workers task.task_id) =
        rw positive in
      rw (started.0) (started.1 ∙ ap some (sym limited))
]

-- A verdict of the verifier leaves the task accepted, or, where it is not accepted, with the worker and
-- one revision more if the limit is not reached and the worker is there, else with the user; only a limit
-- of 0 rejects it.
pub apply_verification_result_lem :
    (now : String) (report : TaskResultReport) (verification : VerificationResult)
    (task : TaskRecord) (c : Coordinator)
    → progress_in (apply_verification_result now report verification task c) task.task_id
      ≡ some (
          verification_outcome verification.accepted c.max_revision_attempts task.revision_attempts
            (contains c.workers task.task_id))
unfolding apply_verification_result
apply_verification_result_lem now report verification task c =
    by_verdict verification.accepted now report verification.reasons
      (record task { verification_result = some verification }) c

outcome-bounded :
    (s : ReviewStatus) (limit attempts : ℕ) (present : Bool)
    → attempts ≤ limit
    → (outcome s limit attempts present).1 ≤ limit
outcome-bounded ReviewStatus.accepted limit attempts present within = within
outcome-bounded ReviewStatus.needs_user_decision limit attempts present within = within
outcome-bounded ReviewStatus.needs_revision limit attempts present within = ground (arith, within)

-- A task whose revisions are within the limit is, after a review, in the registry with revisions within
-- the limit.
pub apply_review_report-bounded :
    (now : String) (report : TaskResultReport) (review : ReviewReport) (task : TaskRecord)
    (c : Coordinator)
    → task.revision_attempts ≤ c.max_revision_attempts
    → (status : TaskStatus) × ((n : ℕ) × ((progress_in
              (apply_review_report now report review task c)
              task.task_id
            ≡ some (status, n))
          × (n ≤ c.max_revision_attempts)))
apply_review_report-bounded now report review task c within =
    let present = contains c.workers task.task_id in
    let after = outcome review.status c.max_revision_attempts task.revision_attempts present in
    (
      after.0,
      (
        after.1,
        (
          apply_review_report_lem now report review task c,
          outcome-bounded review.status c.max_revision_attempts task.revision_attempts present
              within,
        ),
      ),
    )
