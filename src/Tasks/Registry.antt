-- ===== src/Tasks/Registry.antt =====
-- TaskRegistry of async_runtime/tasks.py, and the registry that TaskStore.load_registry of
-- async_runtime/task_store.py restores.
pub mod Laws
pub mod Recovery
use xiao_ming.Prelude.{
  ℕ, String, Bool, true, false, not, ◌&&◌, ◌||◌, Option, none, some, List, [], ◌∷◌, ◌++◌, map, ◌==◌,
  if◌then◌else◌, Result, ok, error, ◌>>=◌, keep, any, contains, lower, split, join,
}
use xiao_ming.Prelude.Dict
use xiao_ming.Prelude.Dict.{Dict}
use xiao_ming.Json
use xiao_ming.Json.{
  Value, str, arr, obj, Fields, Python, to_list, text, text_or, truth, optional_text, int_or_zero,
  items_or_empty,
}
use xiao_ming.Tasks.Status.{TaskStatus, status_of, failed, is_active, is_waiting, is_stale}
use xiao_ming.Tasks.Spec.{TaskSpec, spec_from_dict, dicts}
use xiao_ming.Tasks.Report.{
  TaskResultReport, VerificationResult, WorkerSubmission, ReviewReport, report_from_dict,
  submission_from_dict, review_from_dict,
}
use xiao_ming.Tasks.Packet.{packet_from_dict}
use xiao_ming.Tasks.Record.{TaskRecord, transition, set_of, snapshot}

pub record TaskRegistry : Type 0 where
  pub tasks : Dict TaskRecord
  pub current_task_id : Option String

abbrev pub empty : TaskRegistry
empty = record { tasks = []; current_task_id = none }

-- TaskRegistry.add
unfoldable pub add : TaskRecord → TaskRegistry → TaskRegistry
add task registry = record {
  tasks = Dict.put registry.tasks task.task_id task;
  current_task_id = some task.task_id;
}

-- TaskRegistry.get
unfoldable pub get : TaskRegistry → String → Option TaskRecord
get registry task_id = Dict.get registry.tasks task_id

-- TaskRegistry.current
unfoldable pub current : TaskRegistry → Option TaskRecord
current registry = elim registry.current_task_id [
  | none ↦ none
  | some task_id ↦
      if task_id == ""
      then none
      else Dict.filter_value (λ task. is_active task.status) (Dict.get registry.tasks task_id)
]

-- TaskRegistry.list
unfoldable pub list : TaskRegistry → List TaskRecord
list registry = Dict.values registry.tasks

-- TaskRegistry.active
unfoldable pub active : TaskRegistry → List TaskRecord
active registry = keep (λ task. is_active task.status) (Dict.values registry.tasks)

-- TaskRegistry.waiting
unfoldable pub waiting : TaskRegistry → List TaskRecord
waiting registry = keep (λ task. is_waiting task.status) (Dict.values registry.tasks)

-- tasks[-1].task_id if tasks else None
abbrev pub last_id : List TaskRecord → Option String
last_id [] = none
last_id (task ∷ []) = some task.task_id
last_id (task ∷ other ∷ tasks) = last_id (other ∷ tasks)

abbrev pub is_current : Option String → String → Bool
is_current none task_id = false
is_current (some current_id) task_id = current_id == task_id

-- TaskRegistry.clear_current_if
unfoldable pub clear_current_if : String → TaskRegistry → TaskRegistry
unfolding active
clear_current_if task_id registry =
    if is_current registry.current_task_id task_id
    then record registry { current_task_id = last_id (active registry) }
    else registry

-- _normalize of tasks.py
unfoldable pub normalize : String → String
normalize s = join " " (split (lower s))

abbrev pub is_duplicate : String → String → TaskRecord → Bool
unfolding normalize
is_duplicate title goal task =
    (normalize task.title == normalize title) || (normalize task.current_goal == normalize goal)

abbrev pub first : (TaskRecord → Bool) → List TaskRecord → Option TaskRecord
first p [] = none
first p (task ∷ tasks) = if p task then some task else first p tasks

-- TaskRegistry.find_duplicate
unfoldable pub find_duplicate : TaskRegistry → String → String → Option TaskRecord
unfolding active normalize
find_duplicate registry title goal = first (is_duplicate title goal) (active registry)

-- xs.intersection(ys), as a truth value
abbrev pub meets : List String → List String → Bool
meets xs ys = any (contains ys) xs

abbrev pub nonempty : List String → Bool
nonempty [] = false
nonempty (x ∷ xs) = true

-- The loop of TaskRegistry.conflicts_for.
unfoldable pub conflicts_from :
    List String → List String → List String → List TaskRecord → List TaskRecord
conflicts_from files modules domains [] = []
conflicts_from files modules domains (task ∷ tasks) =
    let rest = conflicts_from files modules domains tasks in
    if is_waiting task.status
    then rest
    else if nonempty files && meets task.affected_files files
    then task ∷ rest
    else if nonempty modules && meets task.affected_modules modules
    then task ∷ rest
    else if nonempty domains && meets task.domains domains
    then task ∷ rest
    else rest

-- TaskRegistry.conflicts_for
unfoldable pub conflicts_for :
    TaskRegistry → List String → List String → List String → List TaskRecord
unfolding active conflicts_from
conflicts_for registry files modules domains =
    conflicts_from files modules domains (active registry)

-- TaskRegistry.snapshot
unfoldable pub registry_snapshot : TaskRegistry → List Fields
unfolding snapshot list
registry_snapshot registry = map snapshot (list registry)

-- TaskRegistry.active_snapshot
unfoldable pub active_snapshot : TaskRegistry → List Fields
unfolding snapshot active
active_snapshot registry = map snapshot (active registry)
