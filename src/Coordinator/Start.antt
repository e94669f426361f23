-- ===== src/Coordinator/Start.antt =====
-- Starting workers: _prepare_worker_task_locked, _start_worker_locked and _try_start_waiting_locked of
-- async_runtime/coordinator.py. The configuration given to the worker's factory is not modelled.
use xiao_ming.Prelude.{
  String, Bool, false, ◌&&◌, ◌||◌, Option, none, some, List, [], ◌∷◌, ◌++◌, ◌==◌, if◌then◌else◌,
  any, contains, concat, strip, lower, splitlines, starts_with,
}
use Prim.Native.Char.{code}
use xiao_ming.Prelude.{eqb}
use xiao_ming.Prelude.Dict
use xiao_ming.Tasks.Status.{running, is_busy}
use xiao_ming.Tasks.Spec.{TaskSpec, spec_of}
use xiao_ming.Tasks.Packet.{WorkerContextPacket}
use xiao_ming.Tasks.Record.{TaskRecord, transition}
use xiao_ming.Tasks.Registry
use xiao_ming.Coordinator.External.{ExternalSessionRecord}
use xiao_ming.Coordinator.State.{
  Coordinator, store_task, notice_text, persist, persist_external_sessions,
}
use xiao_ming.Coordinator.Fork.{forked_instructions, forked_input_items, forked_loaded_skills}
use xiao_ming.Coordinator.Services.{Services}

-- task.task_spec or TaskSpec(title=task.title, goal=task.current_goal)
abbrev pub spec_or_default : TaskRecord → TaskSpec
spec_or_default task = elim task.task_spec [
  | none ↦ spec_of task.title task.current_goal
  | some spec ↦ spec
]

abbrev prepared : Services → TaskRecord → TaskRecord
unfolding forked_instructions forked_input_items forked_loaded_skills
prepared services task = record task {
  agent_type = "worker";
  context_policy = "forked";
  skills_to_preload = [];
  task_spec = some (spec_or_default task);
  forked_instructions = forked_instructions services.parent_session "forked";
  forked_input_items = forked_input_items services.python services.parent_session "forked";
  forked_loaded_skills = forked_loaded_skills services.parent_session "forked";
}

-- AsyncCoordinator._prepare_worker_task_locked: the task after it. The role is the built-in "worker".
unfoldable pub prepare_worker_task : Services → Coordinator → TaskRecord → TaskRecord
unfolding prepared
prepare_worker_task services c task = record (prepared services task) {
  context_packet = some (
      services.build_packet services.parent_session (prepared services task) (spec_or_default task)
        c.registry);
}

-- line.partition("="): what stands before and behind the first "="
abbrev pub partition : String → Option (String × String)
partition String.[] = none
partition (String.◌∷◌ c s) =
    let rest = partition s in
    if eqb (code c) 61
    then some (String.[], s)
    else elim rest [ none ↦ none | some (key, value) ↦ some (String.◌∷◌ c key, value) ]

abbrev executor_in : List String → String
executor_in [] = ""
executor_in (line ∷ lines) =
    let rest = executor_in lines in
    elim (partition line) [
      | none ↦ rest
      | some (key, value) ↦ if strip key == "requested_executor" then lower (strip value) else rest
    ]

-- _requested_executor
unfoldable pub requested_executor : TaskRecord → String
requested_executor task = elim task.task_spec [
  | none ↦ ""
  | some spec ↦ executor_in (splitlines spec.notes)
]

-- sub in text
unfoldable pub occurs : String → String → Bool
occurs s String.[] = starts_with s String.[]
occurs s (String.◌∷◌ c t) = starts_with s (String.◌∷◌ c t) || occurs s t

-- _should_use_codex
unfoldable pub should_use_codex : TaskRecord → Bool
unfolding requested_executor occurs
should_use_codex task =
    (requested_executor task == "codex")
    || occurs "codex"
        (lower (concat (task.title ∷ "\n" ∷ task.current_goal ∷ "\n" ∷ task.original_request ∷ [])))

abbrev codex_session : Services → TaskRecord → ExternalSessionRecord
codex_session services task = record {
  peer_id = task.task_id;
  provider = "codex";
  title = task.title;
  workspace = services.workspace;
  session_id = "";
  status = "running";
  created_at = services.now;
  updated_at = services.now;
}

-- The task, prepared where it has no packet.
unfoldable pub ready_task :
    Option WorkerContextPacket → Services → Coordinator → TaskRecord → TaskRecord
unfolding prepare_worker_task
ready_task none services c task = prepare_worker_task services c task
ready_task (some packet) services c task = task

-- The task as AsyncCoordinator._start_worker_locked leaves it.
unfoldable pub started_task : Services → Coordinator → TaskRecord → TaskRecord
unfolding ready_task should_use_codex transition
started_task services c task =
    let ready = ready_task task.context_packet services c task in
    transition services.now running (some "worker started") (record ready {
      agent_type =
          if c.uses_default_worker_factory && should_use_codex ready
          then "codex"
          else ready.agent_type;
      worker_pid = services.pid;
    })

-- The external session that AsyncCoordinator._start_worker_locked records for a codex worker.
unfoldable pub record_codex : Services → TaskRecord → Coordinator → Coordinator
unfolding should_use_codex
record_codex services task c =
    if c.uses_default_worker_factory && should_use_codex task
    then persist_external_sessions (record c {
      external_sessions = Dict.put c.external_sessions task.task_id (codex_session services task);
    })
    else c

abbrev add_worker : String → List String → List String
add_worker task_id workers = if contains workers task_id then workers else workers ++ task_id ∷ []

-- AsyncCoordinator._start_worker_locked, with the task's object in the registry
unfoldable pub start_worker : Services → TaskRecord → Coordinator → Coordinator
unfolding started_task record_codex
start_worker services task c =
    let recorded = record_codex services task c in
    store_task (started_task services c task)
      (record recorded { workers = add_worker task.task_id recorded.workers })

-- A conflicting task that still runs.
abbrev pub blocks : Coordinator → String → Bool
blocks c conflict_id = elim (Dict.get c.registry.tasks conflict_id) [
  | none ↦ false
  | some task ↦ is_busy task.status
]

-- The steps of _try_start_waiting_locked for the task that it starts.
unfoldable pub start_waiting : Services → TaskRecord → Coordinator → Coordinator
unfolding prepare_worker_task start_worker transition
start_waiting services task c =
    let ready =
      transition services.now running (some "等待结束，重新启动。") (record task { conflicts_with = [] }) in
    let stored = store_task ready c in
    let told = notice_text (concat (task.title ∷ "：waiting task is ready to start" ∷ [])) stored in
    persist (start_worker services (prepare_worker_task services told ready) told)

-- The loop of _try_start_waiting_locked.
unfoldable pub start_first : Services → List TaskRecord → Coordinator → Coordinator
unfolding start_waiting
start_first services [] c = c
start_first services (task ∷ tasks) c =
    let later = start_first services tasks c in
    if any (blocks c) task.conflicts_with then later else start_waiting services task c

-- AsyncCoordinator._try_start_waiting_locked
unfoldable pub try_start_waiting : Services → Coordinator → Coordinator
unfolding start_first
try_start_waiting services c = start_first services (Registry.waiting c.registry) c
