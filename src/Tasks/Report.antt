-- ===== src/Tasks/Report.antt =====
-- The reports of workers and verifiers in async_runtime/tasks.py.
pub mod RoundTrip
use xiao_ming.Prelude.{
  ℕ, String, Bool, true, false, Option, none, some, List, [], ◌∷◌, map, ◌==◌, if◌then◌else◌, concat,
  Result, ok, error, ◌>>=◌,
}
use xiao_ming.Json
use xiao_ming.Json.{
  Value, null, bool, num, str, arr, obj, Fields, end, dict, of_list, Python, text, text_or,
  int_or_zero,
}
use xiao_ming.Tasks.Spec.{texts, string_list, dict_list}

pub record TaskVerificationRecord : Type 0 where
  pub command : String
  pub status : String
  pub reason : String

-- TaskVerificationRecord.to_dict
unfoldable pub verification_to_dict : TaskVerificationRecord → Fields
verification_to_dict r =
    dict (("command", str r.command) ∷ ("status", str r.status) ∷ ("reason", str r.reason) ∷ [])

pub data ReportStatus : Type 0 where
  completed failed blocked : ReportStatus

abbrev pub report_status_text : ReportStatus → String
report_status_text completed = "completed"
report_status_text failed = "failed"
report_status_text blocked = "blocked"

pub record TaskResultReport : Type 0 where
  pub status : ReportStatus
  pub summary : String
  pub changed_files : List String
  pub created_files : List String
  pub artifacts : List String
  pub verification : List TaskVerificationRecord
  pub blockers : List String
  pub evidence : List String

-- TaskResultReport.to_dict
unfoldable pub report_to_dict : TaskResultReport → Fields
unfolding verification_to_dict
report_to_dict r = dict (
    ("status", str (report_status_text r.status))
    ∷ ("summary", str r.summary)
    ∷ ("changed_files", texts r.changed_files)
    ∷ ("created_files", texts r.created_files)
    ∷ ("artifacts", texts r.artifacts)
    ∷ ("verification", arr (of_list (map (λ v. obj (verification_to_dict v)) r.verification)))
    ∷ ("blockers", texts r.blockers)
    ∷ ("evidence", texts r.evidence)
    ∷ [])

pub record VerificationResult : Type 0 where
  pub accepted : Bool
  pub reasons : List String

-- VerificationResult.to_dict
unfoldable pub result_to_dict : VerificationResult → Fields
result_to_dict r = dict (("accepted", bool r.accepted) ∷ ("reasons", texts r.reasons) ∷ [])

pub record WorkerSubmission : Type 0 where
  pub round : ℕ
  pub summary : String
  pub report : Fields
  pub created_at : String

-- WorkerSubmission.to_dict
unfoldable pub submission_to_dict : WorkerSubmission → Fields
submission_to_dict s = dict (
    ("round", num s.round)
    ∷ ("summary", str s.summary)
    ∷ ("report", obj s.report)
    ∷ ("created_at", str s.created_at)
    ∷ [])

pub data ReviewStatus : Type 0 where
  accepted needs_revision needs_user_decision : ReviewStatus

abbrev pub review_status_text : ReviewStatus → String
review_status_text accepted = "ACCEPTED"
review_status_text needs_revision = "NEEDS_REVISION"
review_status_text needs_user_decision = "NEEDS_USER_DECISION"

abbrev pub review_status_of : String → Result ReviewStatus
review_status_of s =
    if s == "ACCEPTED"
    then ok accepted
    else if s == "NEEDS_REVISION"
    then ok needs_revision
    else if s == "NEEDS_USER_DECISION"
    then ok needs_user_decision
    else error (concat ("invalid review status: " ∷ s ∷ []))

pub record ReviewReport : Type 0 where
  pub round : ℕ
  pub verifier_id : String
  pub status : ReviewStatus
  pub summary : String
  pub evidence : String
  pub issues : String
  pub feedback_to_worker : String
  pub summary_for_main : String
  pub full_text : String
  pub created_at : String

-- ReviewReport.to_dict
unfoldable pub review_to_dict : ReviewReport → Fields
review_to_dict r = dict (
    ("round", num r.round)
    ∷ ("verifier_id", str r.verifier_id)
    ∷ ("status", str (review_status_text r.status))
    ∷ ("summary", str r.summary)
    ∷ ("evidence", str r.evidence)
    ∷ ("issues", str r.issues)
    ∷ ("feedback_to_worker", str r.feedback_to_worker)
    ∷ ("summary_for_main", str r.summary_for_main)
    ∷ ("full_text", str r.full_text)
    ∷ ("created_at", str r.created_at)
    ∷ [])

abbrev is_container : Option Value → Bool
is_container (some (arr items)) = true
is_container (some (obj fields)) = true
is_container _ = false

-- The test of the status raises a TypeError.
abbrev pub raises_type_error : Fields → Bool
raises_type_error fields = is_container (Json.get fields "status")

abbrev fields_of : Option Value → Fields
fields_of (some (obj fs)) = fs
fields_of _ = end

module _ (python : Python) where
  -- TaskVerificationRecord.from_dict
  unfoldable pub verification_from_dict : Fields → TaskVerificationRecord
  verification_from_dict fields = record {
    command = text_or python (Json.get fields "command") "";
    status = text_or python (Json.get fields "status") "";
    reason = text_or python (Json.get fields "reason") "";
  }

  abbrev invalid : Option Value → Result ReportStatus
  invalid none = error "invalid report status: None"
  invalid (some null) = error "invalid report status: None"
  invalid (some v) = error (concat ("invalid report status: " ∷ text python v ∷ []))

  -- The test of the status in TaskResultReport.from_dict. A list or a dict there raises a TypeError, an
  -- error here: _record_from_dict catches it with all others, and _handle_reported_task_locked, which
  -- does not, is modelled with `raises_type_error`.
  unfoldable pub report_status_of : Option Value → Result ReportStatus
  report_status_of (some (str s)) =
      if s == "completed"
      then ok completed
      else if s == "failed"
      then ok failed
      else if s == "blocked"
      then ok blocked
      else invalid (some (str s))
  report_status_of v = invalid v

  -- TaskResultReport.from_dict
  unfoldable pub report_from_dict : Fields → Result TaskResultReport
  unfolding report_status_of verification_from_dict
  report_from_dict fields = do
    status ← report_status_of (Json.get fields "status")
    ok (record {
      status = status;
      summary = text_or python (Json.get fields "summary") "";
      changed_files = string_list python (Json.get fields "changed_files");
      created_files = string_list python (Json.get fields "created_files");
      artifacts = string_list python (Json.get fields "artifacts");
      verification = map verification_from_dict (dict_list python (Json.get fields "verification"));
      blockers = string_list python (Json.get fields "blockers");
      evidence = string_list python (Json.get fields "evidence");
    })

  -- WorkerSubmission.from_dict, at a time
  unfoldable pub submission_from_dict : String → Fields → Result WorkerSubmission
  submission_from_dict now fields = do
    round ← int_or_zero python (Json.get fields "round")
    ok (record {
      round = round;
      summary = text_or python (Json.get fields "summary") "";
      report = fields_of (Json.get fields "report");
      created_at = text_or python (Json.get fields "created_at") now;
    })

  -- ReviewReport.from_dict, at a time
  unfoldable pub review_from_dict : String → Fields → Result ReviewReport
  review_from_dict now fields = do
    status ← review_status_of (text_or python (Json.get fields "status") "")
    round ← int_or_zero python (Json.get fields "round")
    ok (record {
      round = round;
      verifier_id = text_or python (Json.get fields "verifier_id") "";
      status = status;
      summary = text_or python (Json.get fields "summary") "";
      evidence = text_or python (Json.get fields "evidence") "";
      issues = text_or python (Json.get fields "issues") "";
      feedback_to_worker = text_or python (Json.get fields "feedback_to_worker") "";
      summary_for_main = text_or python (Json.get fields "summary_for_main") "";
      full_text = text_or python (Json.get fields "full_text") "";
      created_at = text_or python (Json.get fields "created_at") now;
    })
