-- ===== src/Tasks/Registry/Recovery.antt =====
-- TaskStore.load_registry of async_runtime/task_store.py: a registry from saved data, and what
-- happens to the tasks that a restart interrupted.
pub mod Laws
use xiao_ming.Prelude.{
  ℕ, String, Bool, true, false, not, Option, none, some, List, [], ◌∷◌, ◌++◌, map, ◌==◌,
  if◌then◌else◌, Result, ok, error, ◌>>=◌, keep, contains, any,
}
use xiao_ming.Prelude.Dict
use xiao_ming.Prelude.Dict.{Dict}
use xiao_ming.Json
use xiao_ming.Json.{
  Value, str, arr, obj, Fields, Python, to_list, text, text_or, truth, optional_text, int_or_zero,
  items_or_empty, truthy,
}
use xiao_ming.Tasks.Status.{
  TaskStatus, other, unhashable, status_or_other, failed, is_waiting, is_stale, is_unhashable,
}
use xiao_ming.Tasks.Spec.{TaskSpec, spec_from_dict, dicts}
use xiao_ming.Tasks.Report.{
  TaskResultReport, VerificationResult, WorkerSubmission, ReviewReport, report_from_dict,
  submission_from_dict, review_from_dict,
}
use xiao_ming.Tasks.Packet.{packet_from_dict}
use xiao_ming.Tasks.Record.{TaskRecord, transition, set_of}
use xiao_ming.Tasks.Registry.{TaskRegistry, add, empty}

abbrev pub restarted : String
restarted = "coordinator restarted before this task finished; reschedule the task to continue."

-- The body of the first loop of _recover_loaded_registry.
unfoldable pub fail_task : String → TaskRecord → TaskRecord
unfolding transition
fail_task now task =
    if is_stale task.status then transition now failed (some restarted) task else task

-- The first loop of _recover_loaded_registry: the tasks, and the set stale_active_ids.
unfoldable pub fail_stale : String → Dict TaskRecord → Dict TaskRecord
unfolding fail_task
fail_stale now [] = []
fail_stale now ((k, task) ∷ tasks) = (k, fail_task now task) ∷ fail_stale now tasks

unfoldable pub stale_active_ids : Dict TaskRecord → List String
stale_active_ids [] = []
stale_active_ids ((k, task) ∷ tasks) =
    let ids = stale_active_ids tasks in if is_stale task.status then task.task_id ∷ ids else ids

-- xs.difference_update(ids)
abbrev pub difference : List String → List String → List String
difference xs ids = keep (λ x. not (contains ids x)) xs

-- The body of the second loop of _recover_loaded_registry.
unfoldable pub forget_task : List String → TaskRecord → TaskRecord
forget_task ids task =
    if is_waiting task.status
    then record task { conflicts_with = difference task.conflicts_with ids }
    else task

-- The second loop of _recover_loaded_registry.
unfoldable pub forget_conflicts : List String → Dict TaskRecord → Dict TaskRecord
unfolding forget_task
forget_conflicts ids [] = []
forget_conflicts ids ((k, task) ∷ tasks) = (k, forget_task ids task) ∷ forget_conflicts ids tasks

abbrev pub recover_from : List String → Dict TaskRecord → Dict TaskRecord
unfolding forget_conflicts
recover_from [] tasks = tasks
recover_from (id ∷ ids) tasks = forget_conflicts (id ∷ ids) tasks

-- _recover_loaded_registry, at a time
unfoldable pub recover_loaded_registry : String → TaskRegistry → TaskRegistry
unfolding fail_stale stale_active_ids forget_conflicts
recover_loaded_registry now registry = record registry {
  tasks = recover_from (stale_active_ids registry.tasks) (fail_stale now registry.tasks);
}

-- The values of the results that are no errors.
abbrev successes {ℓ} : {A : Type ℓ} → List (Result A) → List A
successes [] = []
successes (ok x ∷ results) = x ∷ successes results
successes (error e ∷ results) = successes results

module _ (stable_hash : Fields → String) (python : Python) (now : String) where
  -- _worker_submissions_from_list
  unfoldable pub worker_submissions_from_list : Option Value → List WorkerSubmission
  unfolding submission_from_dict dicts
  worker_submissions_from_list raw =
      successes (map (submission_from_dict python now) (dicts (items_or_empty python raw)))

  -- _review_reports_from_list
  unfoldable pub review_reports_from_list : Option Value → List ReviewReport
  unfolding review_from_dict dicts
  review_reports_from_list raw =
      successes (map (review_from_dict python now) (dicts (items_or_empty python raw)))

  -- f(value) if isinstance(value, dict) else None
  abbrev if_dict {ℓ} : {A : Type ℓ} → (Fields → Result A) → Option Value → Result (Option A)
  if_dict f (some (obj fields)) = do x ← f fields; ok (some x)
  if_dict f _ = ok none

  abbrev strings : Option Value → List String
  strings value = map (text python) (items_or_empty python value)

  -- data.get("status") or "failed", whatever it is
  unfoldable pub saved_status : Option Value → TaskStatus
  unfolding status_or_other
  saved_status none = failed
  saved_status (some (str s)) = if s == "" then failed else status_or_other s
  saved_status (some (arr items)) =
      if truthy (arr items) then unhashable (text python (arr items)) else failed
  saved_status (some (obj fields)) =
      if truthy (obj fields) then unhashable (text python (obj fields)) else failed
  saved_status (some v) = if truthy v then other (text python v) else failed

  unfoldable pub saved_verification : Fields → Result VerificationResult
  saved_verification raw = ok (record {
    accepted = truth (Json.get raw "accepted");
    reasons = strings (Json.get raw "reasons");
  })

  -- The arguments of TaskRecord(...) in _record_from_dict, and the attributes set after it.
  unfoldable pub read_record : Fields → Result TaskRecord
  unfolding spec_from_dict report_from_dict packet_from_dict dicts saved_status saved_verification
      worker_submissions_from_list review_reports_from_list
  read_record fields = do
    task_spec ← if_dict (spec_from_dict python) (Json.get fields "task_spec")
    revision_attempts ← int_or_zero python (Json.get fields "revision_attempts")
    context_packet ←
        if_dict (λ fields. ok (packet_from_dict stable_hash python fields))
          (Json.get fields "context_packet")
    result_report ← if_dict (report_from_dict python) (Json.get fields "result_report")
    verification_result ← if_dict saved_verification (Json.get fields "verification_result")
    ok (record {
      title = text_or python (Json.get fields "title") "后台任务";
      original_request =
          text_or python (Json.get fields "original_request")
            (text_or python (Json.get fields "current_goal") "");
      current_goal = text_or python (Json.get fields "current_goal") "";
      task_spec = task_spec;
      status = saved_status (Json.get fields "status");
      task_id = text_or python (Json.get fields "task_id") "";
      affected_files = set_of (strings (Json.get fields "affected_files"));
      affected_modules = set_of (strings (Json.get fields "affected_modules"));
      domains = set_of (strings (Json.get fields "domains"));
      conflicts_with = set_of (strings (Json.get fields "conflicts_with"));
      worker_pid = none;
      last_progress = text_or python (Json.get fields "last_progress") "";
      authorization_note = text_or python (Json.get fields "authorization_note") "";
      result_report = result_report;
      verification_result = verification_result;
      agent_type = text_or python (Json.get fields "agent_type") "worker";
      context_policy = text_or python (Json.get fields "context_policy") "forked";
      skills_to_preload = strings (Json.get fields "skills_to_preload");
      context_packet = context_packet;
      forked_instructions = text_or python (Json.get fields "forked_instructions") "";
      forked_input_items = dicts (items_or_empty python (Json.get fields "forked_input_items"));
      forked_loaded_skills = dicts (items_or_empty python (Json.get fields "forked_loaded_skills"));
      task_decision_log = strings (Json.get fields "task_decision_log");
      worker_question_log = strings (Json.get fields "worker_question_log");
      last_worker_answer_decision =
          text_or python (Json.get fields "last_worker_answer_decision") "";
      authorization_log = strings (Json.get fields "authorization_log");
      revision_attempts = revision_attempts;
      parent_task_id = optional_text python (Json.get fields "parent_task_id");
      verifier_task_ids = strings (Json.get fields "verifier_task_ids");
      worker_submissions = worker_submissions_from_list (Json.get fields "worker_submissions");
      review_reports = review_reports_from_list (Json.get fields "review_reports");
      active_verifier_id = text_or python (Json.get fields "active_verifier_id") "";
      needs_user_decision_summary =
          text_or python (Json.get fields "needs_user_decision_summary") "";
      created_at = now;
      updated_at = now;
    })

  -- _record_from_dict
  unfoldable pub record_from_dict : Fields → Option TaskRecord
  unfolding read_record
  record_from_dict fields = elim (read_record fields) [
    | ok task ↦ if task.task_id == "" then none else some task
    | error e ↦ none
  ]

  -- The loop of TaskStore.load_registry over the saved items.
  unfoldable pub load_items : List Fields → TaskRegistry → TaskRegistry
  unfolding record_from_dict add
  load_items [] registry = registry
  load_items (item ∷ items) registry =
      load_items items
        (elim (record_from_dict item) [ none ↦ registry | some task ↦ add task registry ])

  -- _recover_loaded_registry where a test of a status raises a TypeError, for a list or a dict.
  unfoldable pub recover_or_raise : TaskRegistry → Result TaskRegistry
  unfolding recover_loaded_registry
  recover_or_raise registry =
      if any (λ task. is_unhashable task.status) (Dict.values registry.tasks)
      then error "unhashable type"
      else ok (recover_loaded_registry now registry)

  -- The registry of the saved items, before the recovery.
  unfoldable pub loaded : List Value → TaskRegistry
  unfolding load_items dicts
  loaded items = record (load_items (dicts items) empty) { current_task_id = none }

  -- The part of TaskStore.load_registry after the reading of the file.
  unfoldable pub load_value : Option Value → Result TaskRegistry
  unfolding loaded recover_or_raise
  load_value (some (arr items)) = recover_or_raise (loaded (to_list items))
  load_value value = ok empty

  -- TaskStore.load_registry, of the text of the file if it exists and is read.
  unfoldable pub load_registry : Option String → Result TaskRegistry
  unfolding load_value
  load_registry none = ok empty
  load_registry (some file) = load_value (python.loads file)
