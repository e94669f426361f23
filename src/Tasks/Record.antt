-- ===== src/Tasks/Record.antt =====
-- TaskRecord of async_runtime/tasks.py. A set of texts is a list without duplicates whose order is
-- not observed: a snapshot sorts it.
use Prim.Native.Nat.{Ordering}
use Prim.Native.String.{compare}
use xiao_ming.Prelude.{ℕ, String, Option, none, some, List, [], ◌∷◌, ◌==◌, not, map, keep, Bool}
use xiao_ming.Json.{Value, null, str, num, arr, obj, Fields, dict, of_list, of_option}
use xiao_ming.Tasks.Status.{TaskStatus, status_text}
use xiao_ming.Tasks.Spec.{TaskSpec, spec_to_dict, texts}
use xiao_ming.Tasks.Report.{
  TaskResultReport, VerificationResult, WorkerSubmission, ReviewReport, report_to_dict,
  result_to_dict, submission_to_dict, review_to_dict,
}
use xiao_ming.Tasks.Packet.{WorkerContextPacket, content_dict}

pub record TaskRecord : Type 0 where
  pub title : String
  pub original_request : String
  pub current_goal : String
  pub task_spec : Option TaskSpec
  pub status : TaskStatus
  pub task_id : String
  pub affected_files : List String
  pub affected_modules : List String
  pub domains : List String
  pub conflicts_with : List String
  pub worker_pid : Option ℕ
  pub last_progress : String
  pub authorization_note : String
  pub result_report : Option TaskResultReport
  pub verification_result : Option VerificationResult
  pub agent_type : String
  pub context_policy : String
  pub skills_to_preload : List String
  pub context_packet : Option WorkerContextPacket
  pub forked_instructions : String
  pub forked_input_items : List Fields
  pub forked_loaded_skills : List Fields
  pub task_decision_log : List String
  pub worker_question_log : List String
  pub last_worker_answer_decision : String
  pub authorization_log : List String
  pub revision_attempts : ℕ
  pub parent_task_id : Option String
  pub verifier_task_ids : List String
  pub worker_submissions : List WorkerSubmission
  pub review_reports : List ReviewReport
  pub active_verifier_id : String
  pub needs_user_decision_summary : String
  pub created_at : String
  pub updated_at : String

-- TaskRecord.transition, at a time
unfoldable pub transition : String → TaskStatus → Option String → TaskRecord → TaskRecord
transition now status progress task = record task {
  status = status;
  last_progress = elim progress [ none ↦ task.last_progress | some p ↦ p ];
  updated_at = now;
}

abbrev insert : String → List String → List String
insert x [] = x ∷ []
insert x (y ∷ ys) =
    let rest = insert x ys in elim (compare x y) [ Ordering.gt ↦ y ∷ rest | _ ↦ x ∷ y ∷ ys ]

-- sorted(xs)
abbrev pub sorted : List String → List String
sorted [] = []
sorted (x ∷ xs) = insert x (sorted xs)

-- set(xs)
abbrev pub set_of : List String → List String
set_of [] = []
set_of (x ∷ xs) = x ∷ keep (λ y. not (y == x)) (set_of xs)

-- value.to_dict() if value is not None else None
abbrev or_null {ℓ} : {A : Type ℓ} → (A → Fields) → Option A → Value
or_null f none = null
or_null f (some x) = obj (f x)

-- TaskRecord.snapshot
unfoldable pub snapshot : TaskRecord → Fields
unfolding content_dict submission_to_dict review_to_dict spec_to_dict report_to_dict result_to_dict
snapshot task = dict (
    ("task_id", str task.task_id)
    ∷ ("title", str task.title)
    ∷ ("original_request", str task.original_request)
    ∷ ("current_goal", str task.current_goal)
    ∷ ("status", str (status_text task.status))
    ∷ ("affected_files", texts (sorted task.affected_files))
    ∷ ("affected_modules", texts (sorted task.affected_modules))
    ∷ ("domains", texts (sorted task.domains))
    ∷ ("conflicts_with", texts (sorted task.conflicts_with))
    ∷ ("last_progress", str task.last_progress)
    ∷ ("authorization_note", str task.authorization_note)
    ∷ ("agent_type", str task.agent_type)
    ∷ ("context_policy", str task.context_policy)
    ∷ ("skills_to_preload", texts task.skills_to_preload)
    ∷ ("context_packet", or_null (λ p. content_dict p Bool.true) task.context_packet)
    ∷ ("forked_instructions", str task.forked_instructions)
    ∷ ("forked_input_items", arr (of_list (map obj task.forked_input_items)))
    ∷ ("forked_loaded_skills", arr (of_list (map obj task.forked_loaded_skills)))
    ∷ ("task_decision_log", texts task.task_decision_log)
    ∷ ("worker_question_log", texts task.worker_question_log)
    ∷ ("last_worker_answer_decision", str task.last_worker_answer_decision)
    ∷ ("authorization_log", texts task.authorization_log)
    ∷ ("revision_attempts", num task.revision_attempts)
    ∷ ("parent_task_id", of_option task.parent_task_id)
    ∷ ("verifier_task_ids", texts task.verifier_task_ids)
    ∷ (
      "worker_submissions",
      arr (of_list (map (λ s. obj (submission_to_dict s)) task.worker_submissions)),
    )
    ∷ ("review_reports", arr (of_list (map (λ r. obj (review_to_dict r)) task.review_reports)))
    ∷ ("active_verifier_id", str task.active_verifier_id)
    ∷ ("needs_user_decision_summary", str task.needs_user_decision_summary)
    ∷ ("task_spec", or_null spec_to_dict task.task_spec)
    ∷ ("result_report", or_null report_to_dict task.result_report)
    ∷ ("verification_result", or_null result_to_dict task.verification_result)
    ∷ [])
