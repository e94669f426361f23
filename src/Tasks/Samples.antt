-- ===== src/Tasks/Samples.antt =====
-- The theorems on tasks, applied to a small registry and to small records.
use xiao_ming.Prelude.{
  String, ◌≡◌, refl, none, some, List, [], ◌∷◌, keep, ok, strip, lstrip, rstrip, is_space,
}
use xiao_ming.Prelude.Dict
use xiao_ming.Json.{Python, arr, obj, nil, cons, str, dict}
use xiao_ming.Tasks.Status.{TaskStatus, running, waiting}
use xiao_ming.Tasks.Spec.{spec_of, spec_to_dict, spec_from_dict}
use xiao_ming.Tasks.Spec.RoundTrip.{spec_from-to_dict}
use xiao_ming.Tasks.Report.{TaskResultReport, ReviewReport, ReportStatus, ReviewStatus}
use xiao_ming.Tasks.Record.{TaskRecord}
use xiao_ming.Tasks.Registry.{TaskRegistry, conflicts_for}
use xiao_ming.Tasks.Registry.Laws.{is_conflict, conflicts_for_lem}
use xiao_ming.Tasks.Registry.Recovery.{recover_loaded_registry, stale_active_ids, load_registry}
use xiao_ming.Tasks.Registry.Recovery.Laws.{
  recovered, map_option, recover_loaded_registry_lem, load_registry-IsLoaded, IsLoaded, value_in,
}

-- A Python whose json.loads gives one dict for each text, and whose str, literal_eval and int give nothing.
abbrev python : Python
python = record {
  repr = λ v. "?";
  loads =
      λ s. some (arr (cons (obj (dict (("task_id", str s) ∷ ("status", str "running") ∷ []))) nil));
  literal_eval = λ s. none;
  to_int = λ v. ok 0;
}

abbrev task_of : String → TaskStatus → List String → TaskRecord
task_of task_id status conflicts = record {
  title = "t";
  original_request = "r";
  current_goal = "g";
  task_spec = none;
  status = status;
  task_id = task_id;
  affected_files = "x.py" ∷ [];
  affected_modules = [];
  domains = [];
  conflicts_with = conflicts;
  worker_pid = none;
  last_progress = "";
  authorization_note = "";
  result_report = none;
  verification_result = none;
  agent_type = "worker";
  context_policy = "forked";
  skills_to_preload = [];
  context_packet = none;
  forked_instructions = "";
  forked_input_items = [];
  forked_loaded_skills = [];
  task_decision_log = [];
  worker_question_log = [];
  last_worker_answer_decision = "";
  authorization_log = [];
  revision_attempts = 0;
  parent_task_id = none;
  verifier_task_ids = [];
  worker_submissions = [];
  review_reports = [];
  active_verifier_id = "";
  needs_user_decision_summary = "";
  created_at = "c";
  updated_at = "u";
}

abbrev registry : TaskRegistry
registry = record {
  tasks = ("1", task_of "1" running []) ∷ ("2", task_of "2" waiting ("1" ∷ [])) ∷ [];
  current_task_id = some "1";
}

conflicts_for_lem_example :
    conflicts_for registry ("x.py" ∷ []) [] []
    ≡ keep (is_conflict ("x.py" ∷ []) [] []) (Dict.values registry.tasks)
conflicts_for_lem_example = conflicts_for_lem registry ("x.py" ∷ []) [] []

-- The running task fails, and the task that waited for it no longer does.
recover_loaded_registry_lem_example :
    Dict.get (recover_loaded_registry "n" registry).tasks "2"
    ≡ map_option (recovered "n" (stale_active_ids registry.tasks)) (Dict.get registry.tasks "2")
recover_loaded_registry_lem_example = recover_loaded_registry_lem "n" registry "2"

load_registry-IsLoaded_example :
    IsLoaded
      (λ fields. "h")
      python
      "n"
      (value_in (λ fields. "h") python "n" (some "7"))
      (load_registry (λ fields. "h") python "n" (some "7"))
load_registry-IsLoaded_example = load_registry-IsLoaded (λ fields. "h") python "n" (some "7")

spec_from-to_dict_example :
    spec_from_dict python (spec_to_dict (spec_of "t" "g")) ≡ ok (spec_of "t" "g")
unfolding strip lstrip rstrip is_space
spec_from-to_dict_example = spec_from-to_dict python (spec_of "t" "g") (record {
  title = (refl, refl);
  goal = (refl, refl);
  success_criteria = tt;
  expected_artifacts = tt;
  allowed_write_paths = tt;
  verification_commands = tt;
  skills_to_preload = tt;
  constraints = tt;
})

abbrev report : TaskResultReport
report = record {
  status = ReportStatus.completed;
  summary = "done";
  changed_files = "x.py" ∷ [];
  created_files = [];
  artifacts = [];
  verification = record { command = "pytest"; status = "passed"; reason = "" } ∷ [];
  blockers = [];
  evidence = [];
}

abbrev review : ReviewReport
review = record {
  round = 1;
  verifier_id = "v";
  status = ReviewStatus.needs_revision;
  summary = "not yet";
  evidence = "";
  issues = "";
  feedback_to_worker = "again";
  summary_for_main = "";
  full_text = "";
  created_at = "c";
}
