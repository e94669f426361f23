-- ===== src/Tasks/Report/RoundTrip.antt =====
-- Reports, submissions and reviews are read back as they were written.
use xiao_ming.Prelude.{String, false, some, List, [], ◌∷◌, map, ◌==◌, ◌≡◌, refl, ap₂, All, ok}
use xiao_ming.Json.{str, arr, obj, of_list, to_list-of_list, Python, text_or, text_or-str}
use xiao_ming.Tasks.Spec.{dicts, dict_list}
use xiao_ming.Tasks.Spec.RoundTrip.{IsStripped, string_list-texts}
use xiao_ming.Tasks.Report.{
  TaskVerificationRecord, verification_to_dict, verification_from_dict, ReportStatus,
  report_status_text, report_status_of, TaskResultReport, report_to_dict, report_from_dict,
  WorkerSubmission, submission_to_dict, submission_from_dict, ReviewStatus, review_status_text,
  review_status_of, ReviewReport, review_to_dict, review_from_dict,
}

pub record IsClean (r : TaskResultReport) : Type 0 where
  pub changed_files : All IsStripped r.changed_files
  pub created_files : All IsStripped r.created_files
  pub artifacts : All IsStripped r.artifacts
  pub blockers : All IsStripped r.blockers
  pub evidence : All IsStripped r.evidence

module _ (python : Python) where
  verification_from-to_dict :
      (r : TaskVerificationRecord) → verification_from_dict python (verification_to_dict r) ≡ r
  unfolding verification_from_dict verification_to_dict
  verification_from-to_dict r = λ i. record {
    command = text_or-str python r.command i;
    status = text_or-str python r.status i;
    reason = text_or-str python r.reason i;
  }

  records :
      (rs : List TaskVerificationRecord)
      → map (verification_from_dict python) (dicts (map (λ v. obj (verification_to_dict v)) rs))
        ≡ rs
  unfolding dicts
  records [] = refl
  records (r ∷ rs) = ap₂ (λ d ds. d ∷ ds) (verification_from-to_dict r) (records rs)

  dict_list-records :
      (rs : List TaskVerificationRecord)
      → map
          (verification_from_dict python)
          (dict_list python (some (arr (of_list (map (λ v. obj (verification_to_dict v)) rs)))))
        ≡ rs
  unfolding dict_list
  dict_list-records rs =
      rw (to_list-of_list (map (λ v. obj (verification_to_dict v)) rs)) (records rs)

  report_status-eq :
      (s : ReportStatus) → report_status_of python (some (str (report_status_text s))) ≡ ok s
  unfolding report_status_of
  report_status-eq ReportStatus.completed = refl
  report_status-eq ReportStatus.failed = refl
  report_status-eq ReportStatus.blocked = refl

  -- A worker's report whose listed texts are stripped and not empty is read back from its dict.
  pub report_from-to_dict :
      (r : TaskResultReport) → IsClean r → report_from_dict python (report_to_dict r) ≡ ok r
  unfolding report_from_dict report_to_dict
  report_from-to_dict r clean = rw (report_status-eq r.status) (λ i. ok (record {
    status = r.status;
    summary = text_or-str python r.summary i;
    changed_files = string_list-texts python r.changed_files clean.changed_files i;
    created_files = string_list-texts python r.created_files clean.created_files i;
    artifacts = string_list-texts python r.artifacts clean.artifacts i;
    verification = dict_list-records r.verification i;
    blockers = string_list-texts python r.blockers clean.blockers i;
    evidence = string_list-texts python r.evidence clean.evidence i;
  }))

  created_at-eq : (s now : String) → (s == "") ≡ false → text_or python (some (str s)) now ≡ s
  created_at-eq s now h = rw h

  pub submission_from-to_dict :
      (now : String) (s : WorkerSubmission)
      → (s.created_at == "") ≡ false
      → submission_from_dict python now (submission_to_dict s) ≡ ok s
  unfolding submission_from_dict submission_to_dict
  submission_from-to_dict now s dated = λ i. ok (record {
    round = s.round;
    summary = text_or-str python s.summary i;
    report = s.report;
    created_at = created_at-eq s.created_at now dated i;
  })

  review_status-eq :
      (s : ReviewStatus)
      → review_status_of (text_or python (some (str (review_status_text s))) "") ≡ ok s
  review_status-eq ReviewStatus.accepted = refl
  review_status-eq ReviewStatus.needs_revision = refl
  review_status-eq ReviewStatus.needs_user_decision = refl

  -- A review that has a date is read back from its dict, whatever the time of the reading.
  pub review_from-to_dict :
      (now : String) (r : ReviewReport)
      → (r.created_at == "") ≡ false
      → review_from_dict python now (review_to_dict r) ≡ ok r
  unfolding review_from_dict review_to_dict
  review_from-to_dict now r dated = rw (review_status-eq r.status) (λ i. ok (record {
    round = r.round;
    verifier_id = text_or-str python r.verifier_id i;
    status = r.status;
    summary = text_or-str python r.summary i;
    evidence = text_or-str python r.evidence i;
    issues = text_or-str python r.issues i;
    feedback_to_worker = text_or-str python r.feedback_to_worker i;
    summary_for_main = text_or-str python r.summary_for_main i;
    full_text = text_or-str python r.full_text i;
    created_at = created_at-eq r.created_at now dated i;
  }))
