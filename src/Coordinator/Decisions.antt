-- ===== src/Coordinator/Decisions.antt =====
-- _apply_decision_locked, schedule_background_task and register_running_worker_task of
-- async_runtime/coordinator.py. The scheduler is an argument; the ids of the messages that it can ask
-- the user with are not used.
use xiao_ming.Prelude.{
  String, Bool, true, false, Option, none, some, List, [], ◌∷◌, ◌++◌, ◌==◌, if◌then◌else◌, concat,
  strip, join, Result, ok, error,
}
use xiao_ming.Prelude.Dict
use xiao_ming.Tasks.Status.{TaskStatus, running, waiting}
use xiao_ming.Tasks.Spec.{TaskSpec, spec_of}
use xiao_ming.Tasks.Record.{TaskRecord, transition, sorted}
use xiao_ming.Tasks.Registry
use xiao_ming.Tasks.Registry.{TaskRegistry}
use xiao_ming.Coordinator.State.{
  Coordinator, notice_text, append_user_message, store_task, send_to_worker, persist,
}
use xiao_ming.Coordinator.Services.{Services}
use xiao_ming.Coordinator.Start.{prepare_worker_task, start_worker}
use xiao_ming.Coordinator.Cancel.{ToolResult, success, failure, cancel}
use xiao_ming.Coordinator.Scheduler.{
  DecisionAction, SchedulerDecision, start_new_task, attach_to_task, queue_task, cancel_and_restart,
  first, action_text,
}

-- TaskSpec.from_request, without a title
unfoldable pub spec_from_request : String → TaskSpec
unfolding strip
spec_from_request request =
    let start = first 80 (strip request) in
    spec_of (strip (if start == "" then "后台任务" else start)) (strip request)

-- TaskRecord with these fields, and the defaults of the others.
abbrev pub new_task : Services → String → String → String → TaskSpec → TaskStatus → TaskRecord
new_task services title request goal spec status = record {
  title = title;
  original_request = request;
  current_goal = goal;
  task_spec = some spec;
  status = status;
  task_id = services.new_id;
  affected_files = [];
  affected_modules = [];
  domains = [];
  conflicts_with = [];
  worker_pid = none;
  last_progress = "";
  authorization_note = "";
  result_report = none;
  verification_result = none;
  agent_type = "worker";
  context_policy = "forked";
  skills_to_preload = [];
  context_packet = none;
  forked_instructions = "";
  forked_input_items = [];
  forked_loaded_skills = [];
  task_decision_log = [];
  worker_question_log = [];
  last_worker_answer_decision = "";
  authorization_log = [];
  revision_attempts = 0;
  parent_task_id = none;
  verifier_task_ids = [];
  worker_submissions = [];
  review_reports = [];
  active_verifier_id = "";
  needs_user_decision_summary = "";
  created_at = services.now;
  updated_at = services.now;
}

-- The task of a decision, for a request and the spec that comes with it.
unfoldable pub task_of :
    Services → String → SchedulerDecision → Option TaskSpec → TaskStatus → TaskRecord
task_of services content decision task_spec status =
    let title = elim task_spec as (λ x. String) [
      | none ↦ decision.task_title
      | some spec ↦ spec.title
    ] in
    let goal = elim task_spec as (λ x. String) [
      | none ↦ decision.user_intent
      | some spec ↦ spec.goal
    ] in
    let spec = elim task_spec as (λ x. TaskSpec) [
      | none ↦ spec_of decision.task_title decision.user_intent
      | some spec ↦ spec
    ] in
    record (new_task services title content goal spec status) {
      affected_files = decision.affected_files;
      affected_modules = decision.affected_modules;
      domains = decision.domains;
    }

-- self._prepare_worker_task_locked(task); self.registry.add(task)
unfoldable pub add_prepared : Services → TaskRecord → Coordinator → Coordinator
unfolding prepare_worker_task Registry.add
add_prepared services task c = record c {
  registry = Registry.add (prepare_worker_task services c task) c.registry;
}

-- add_prepared; self._start_worker_locked(task); self._persist()
unfoldable pub add_started : Services → TaskRecord → Coordinator → Coordinator
unfolding add_prepared start_worker prepare_worker_task
add_started services task c =
    persist
      (start_worker services (prepare_worker_task services c task) (add_prepared services task c))

-- The branch of a decision for a running task.
unfoldable pub attach : Services → String → String → Coordinator → Coordinator
unfolding send_to_worker transition
attach services content task_id c =
    let told = send_to_worker task_id (append_user_message content) c in
    elim (Dict.get c.registry.tasks task_id) [
      | none ↦ told
      | some task ↦ persist (
          store_task (transition services.now task.status (some "attached user message") task) told)
    ]

-- The branches of _apply_decision_locked.
unfoldable pub apply_action :
    DecisionAction
    → Option String
    → Services
    → String
    → SchedulerDecision
    → Option TaskSpec
    → Coordinator
    → Coordinator
unfolding add_started add_prepared task_of attach cancel
apply_action start_new_task target services content decision task_spec c =
    add_started services (task_of services content decision task_spec running) c
apply_action queue_task target services content decision task_spec c = persist (
    add_prepared services
      (record (task_of services content decision task_spec waiting) {
        conflicts_with = decision.conflict_task_ids;
      })
      c)
apply_action attach_to_task (some task_id) services content decision task_spec c =
    attach services content task_id c
apply_action cancel_and_restart (some task_id) services content decision task_spec c =
    add_started services
      (new_task services decision.task_title content decision.user_intent
        (spec_of decision.task_title decision.user_intent) running)
      (cancel services task_id c)
apply_action action target services content decision task_spec c = c

-- decision.target_task_id, where it is true
abbrev pub not_empty : Option String → Option String
not_empty none = none
not_empty (some s) = if s == "" then none else some s

-- AsyncCoordinator._apply_decision_locked
unfoldable pub apply_decision :
    Services → String → SchedulerDecision → Bool → Option TaskSpec → Coordinator → Coordinator
unfolding apply_action
apply_decision services content decision emit_visible task_spec c =
    apply_action decision.action (not_empty decision.target_task_id) services content decision
      task_spec (if emit_visible then notice_text decision.visible_message c else c)

abbrev pub line_of : String → String → List String
line_of label value = if value == "" then [] else concat (label ∷ value ∷ []) ∷ []

-- _decision_summary
unfoldable pub decision_summary : SchedulerDecision → String
decision_summary decision = join "\n" (
    concat ("action: " ∷ action_text decision.action ∷ [])
      ∷ concat ("title: " ∷ decision.task_title ∷ [])
      ∷ (elim decision.target_task_id as (λ x. List String) [
        | none ↦ []
        | some id ↦ line_of "target_task_id: " id
      ])
    ++ line_of "conflict_task_ids: " (join ", " (sorted decision.conflict_task_ids))
    ++ line_of "duplicate_task_ids: " (join ", " (sorted decision.duplicate_task_ids))
    ++ line_of "reason: " decision.reason)

-- AsyncCoordinator.schedule_background_task of a TaskSpec, with the scheduler's schedule.
unfoldable pub schedule_background_task :
    (String → TaskRegistry → Result SchedulerDecision)
    → Services
    → TaskSpec
    → Coordinator
    → ToolResult × Coordinator
unfolding apply_decision decision_summary strip
schedule_background_task schedule services task_spec c =
    if strip task_spec.goal == ""
    then (failure "request is empty", c)
    else elim (schedule task_spec.goal c.registry) [
      | error e ↦ (failure e, c)
      | ok decision ↦ (
        success (decision_summary decision),
        persist (apply_decision services task_spec.goal decision false (some task_spec) c),
      )
    ]

-- The step of _run_scheduler for a message of the user.
unfoldable pub run_scheduler :
    (String → TaskRegistry → Result SchedulerDecision)
    → Services
    → String
    → Coordinator
    → Coordinator
unfolding apply_decision
run_scheduler schedule services content c = elim (schedule content c.registry) [
  | error e ↦ persist (notice_text (concat ("Error: " ∷ e ∷ [])) c)
  | ok decision ↦ persist (apply_decision services content decision true none c)
]
