-- ===== src/Coordinator/Samples.antt =====
-- The theorems on reviews, applied to a task that was revised once.
use xiao_ming.Prelude.{
  error, refl, strip, true, false, ℕ, ◌≤◌, ◌≡◌, none, some, [], ◌∷◌, ok, contains, arith,
}
use xiao_ming.Json.{Python, end}
use xiao_ming.Coordinator.Events.{
  WorkerEvent, WorkerEventKind, QuestionKind, event_from_json, event_to_json,
}
use xiao_ming.Coordinator.Events.RoundTrip.{event_from-to_json}
use xiao_ming.Tasks.Status.{TaskStatus, verifying, cancelled, failed, running, waiting, needs_user}
use xiao_ming.Tasks.Report.{TaskResultReport, ReviewReport, ReviewStatus, ReportStatus}
use xiao_ming.Tasks.Record.{TaskRecord}
use xiao_ming.Tasks.Registry
use xiao_ming.Prelude.Dict
use xiao_ming.Mailbox.Store
use xiao_ming.Coordinator.State.{Coordinator}
use xiao_ming.Coordinator.Services.{Services}
use xiao_ming.Coordinator.Start.{try_start_waiting}
use xiao_ming.Coordinator.Handling.{handle_worker_event, run_worker_events}
use xiao_ming.Coordinator.Cancel.{cancel_task}
use xiao_ming.Coordinator.Frame.{IsKeyed, entry, status_in, Frame}
use xiao_ming.Coordinator.Frame.Starts.{Waits}
use xiao_ming.Coordinator.Frame.Handling.{subject, handle_worker_event-Frame}
use xiao_ming.Coordinator.Frame.Progress.{is_free, try_start_waiting-progress}
use xiao_ming.Coordinator.Ended.{Ended}
use xiao_ming.Coordinator.Ended.Traces.{Ended-run_worker_events, cancel_task-stays}
use xiao_ming.Coordinator.Ended.Questions.{status-question}
use xiao_ming.Coordinator.Review.{apply_review_report, apply_verification_result}
use xiao_ming.Coordinator.Review.Outcome.{
  progress_in, outcome, verification_outcome, apply_review_report_lem,
  apply_verification_result_lem, apply_review_report-bounded,
}

abbrev pub python : Python
python = record { repr = λ v. "?"; loads = λ s. none; literal_eval = λ s. none; to_int = λ v. ok 0 }

abbrev pub event : WorkerEvent
event = record {
  task_id = "1";
  kind = WorkerEventKind.progress;
  message = "half";
  data_fields = end;
}

event_from-to_json_example : event_from_json python (event_to_json event) ≡ ok event
event_from-to_json_example = event_from-to_json python event

abbrev pub task : TaskRecord
task = record {
  title = "t";
  original_request = "r";
  current_goal = "g";
  task_spec = none;
  status = verifying;
  task_id = "1";
  affected_files = [];
  affected_modules = [];
  domains = [];
  conflicts_with = [];
  worker_pid = none;
  last_progress = "";
  authorization_note = "";
  result_report = none;
  verification_result = none;
  agent_type = "worker";
  context_policy = "forked";
  skills_to_preload = [];
  context_packet = none;
  forked_instructions = "";
  forked_input_items = [];
  forked_loaded_skills = [];
  task_decision_log = [];
  worker_question_log = [];
  last_worker_answer_decision = "";
  authorization_log = [];
  revision_attempts = 1;
  parent_task_id = none;
  verifier_task_ids = [];
  worker_submissions = [];
  review_reports = [];
  active_verifier_id = "";
  needs_user_decision_summary = "";
  created_at = "c";
  updated_at = "u";
}

abbrev report : TaskResultReport
report = record {
  status = ReportStatus.completed;
  summary = "done";
  changed_files = [];
  created_files = [];
  artifacts = [];
  verification = [];
  blockers = [];
  evidence = [];
}

abbrev review : ReviewReport
review = record {
  round = 1;
  verifier_id = "v";
  status = ReviewStatus.needs_revision;
  summary = "not yet";
  evidence = "";
  issues = "";
  feedback_to_worker = "again";
  summary_for_main = "";
  full_text = "";
  created_at = "c";
}

abbrev pub state : Coordinator
state = record {
  registry = record { tasks = ("1", task) ∷ []; current_task_id = some "1" };
  mailbox = Store.empty;
  workers = "1" ∷ [];
  verifiers = [];
  reply_queues = [];
  external_sessions = [];
  terminal_notices = [];
  notice_cache = [];
  max_revision_attempts = 3;
  quiet = false;
  uses_default_worker_factory = false;
  use_verifier_worker = true;
  sent = [];
  notices = [];
  replies = [];
  saved = Registry.empty;
  saved_mailbox = Store.empty;
  saved_sessions = [];
}

apply_review_report_lem_example :
    progress_in (apply_review_report "n" report review task state) "1"
    ≡ some (outcome ReviewStatus.needs_revision 3 1 (contains ("1" ∷ []) "1"))
apply_review_report_lem_example = apply_review_report_lem "n" report review task state

apply_verification_result_lem_example :
    progress_in
      (apply_verification_result "n" report
        (record { accepted = false; reasons = "x" ∷ [] })
        task
        state)
      "1"
    ≡ some (verification_outcome false 3 1 (contains ("1" ∷ []) "1"))
apply_verification_result_lem_example =
    apply_verification_result_lem "n" report (record { accepted = false; reasons = "x" ∷ [] }) task
      state

apply_review_report-bounded_example :
    (status : TaskStatus) × ((n : ℕ) × ((progress_in
            (apply_review_report "n" report review task state)
            "1"
          ≡ some (status, n))
        × (n ≤ 3)))
apply_review_report-bounded_example =
    apply_review_report-bounded "n" report review task state (omega arith)

abbrev pub services : Services
services = record {
  python = python;
  now = "n";
  clock = 5;
  new_id = "m";
  pid = none;
  workspace = "/w";
  parent_session = record {
    session_id = "s";
    last_prompt_instructions = "";
    base_instructions = "";
    last_prompt_input_items = [];
    last_model_output_items = [];
    input_items = [];
    loaded_skills = [];
  };
  build_packet = λ session t spec registry. record {
    task_id = t.task_id;
    session_id = "s";
    agent_type = "worker";
    context_policy = "forked";
    workspace = "/w";
    selected_skills = [];
    active_tasks_summary = "";
    source_item_ids = [];
    resource_claims = [];
    handoff_summary = "";
    decisions_already_made = [];
    relevant_messages = [];
    prior_worker_summary = none;
    content_hash = "";
  };
  verify = λ spec r. record { accepted = true; reasons = [] };
  review_report_from_message = λ message round verifier. error "unread";
  decide = none;
}

state-IsKeyed : IsKeyed state.registry.tasks
unfolding Dict.get
state-IsKeyed = record { distinct = (refl, tt); keyed = (refl, tt) }

handle_worker_event-Frame_example :
    Frame (subject event state) state (handle_worker_event services event state)
handle_worker_event-Frame_example = handle_worker_event-Frame services event state state-IsKeyed

cancel_task-stays_example :
    status_in
      (entry (run_worker_events ((services, event) ∷ []) (cancel_task services "1" state).1) "1")
    ≡ some cancelled
unfolding strip Dict.get
cancel_task-stays_example =
    cancel_task-stays services "1" task state state-IsKeyed refl refl refl ((services, event) ∷ [])
      (refl, tt)

abbrev failed_state : Coordinator
failed_state = record state {
  registry = record { tasks = ("1", record task { status = failed }) ∷ []; current_task_id = none };
}

failed_state-Ended : Ended failed "1" failed_state
unfolding Dict.get
failed_state-Ended = record {
  keyed = record { distinct = (refl, tt); keyed = (refl, tt) };
  ended = refl;
  terminal = refl;
  unchecked = λ v has. absurd (cc);
}

Ended-run_worker_events_example :
    Ended failed "1" (run_worker_events ((services, event) ∷ []) failed_state)
Ended-run_worker_events_example =
    Ended-run_worker_events "1" failed ((services, event) ∷ []) failed_state (refl, tt)
      failed_state-Ended

abbrev question : WorkerEvent
question = record event { kind = WorkerEventKind.asks QuestionKind.decision_request }

status-question_example :
    status_in (entry (handle_worker_event services question failed_state) "1") ≡ some needs_user
unfolding Dict.get
status-question_example =
    status-question services QuestionKind.decision_request question
      (record task { status = failed }) failed_state failed_state-Ended.keyed refl refl refl

abbrev waiting_state : Coordinator
waiting_state = record state {
  registry = record {
    tasks =
        ("1", record task { status = failed })
        ∷ ("2", record task { task_id = "2"; status = waiting; conflicts_with = "1" ∷ [] })
        ∷ [];
    current_task_id = none;
  };
}

try_start_waiting-progress_example :
    (t : TaskRecord) × Waits waiting_state t
    × (is_free waiting_state t ≡ true)
    × (status_in (entry (try_start_waiting services waiting_state) t.task_id) ≡ some running)
unfolding Dict.get Registry.waiting
try_start_waiting-progress_example =
    try_start_waiting-progress services waiting_state
      (record { distinct = (refl, (refl, tt)); keyed = (refl, (refl, tt)) }) refl
