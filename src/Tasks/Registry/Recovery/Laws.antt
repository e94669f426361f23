-- ===== src/Tasks/Registry/Recovery/Laws.antt =====
-- After a restart no task is left as if a worker still ran it.
use xiao_ming.Prelude.{
  String, true, any, Result, ok, error, false, ◌≡◌, refl, ap, ap₂, sym, Option, none, some, List,
  [], ◌∷◌, ◌==◌, if◌then◌else◌, Bool-cases, inl, inr, All,
}
use xiao_ming.Prelude.Dict
use xiao_ming.Prelude.Dict.{Dict}
use xiao_ming.Json.{Value, Fields, Python, null, bool, num, literal, str, obj, arr, to_list}
use xiao_ming.Tasks.Status.{failed, is_waiting, is_stale, is_unhashable}
use xiao_ming.Tasks.Record.{TaskRecord, transition}
use xiao_ming.Tasks.Registry.{TaskRegistry}
use xiao_ming.Tasks.Registry.Recovery.{
  restarted, fail_task, forget_task, recover_from, fail_stale, stale_active_ids, difference,
  forget_conflicts, recover_loaded_registry, recover_or_raise, loaded, load_value, load_registry,
}

-- What a restart makes of one task, given the tasks that it interrupts.
abbrev pub recovered : String → List String → TaskRecord → TaskRecord
unfolding transition
recovered now ids task =
    if is_stale task.status
    then transition now failed (some restarted) task
    else if is_waiting task.status
    then record task { conflicts_with = difference task.conflicts_with ids }
    else task

abbrev pub map_option {ℓ κ} : {A : Type ℓ} {B : Type κ} → (A → B) → Option A → Option B
map_option f none = none
map_option f (some x) = some (f x)

difference-nil : (xs : List String) → difference xs [] ≡ xs
difference-nil [] = refl
difference-nil (x ∷ xs) = ap (λ l. x ∷ l) (difference-nil xs)

-- With no stale task there is nothing to forget.
forget_task-nil : (task : TaskRecord) → forget_task [] task ≡ task
unfolding forget_task
forget_task-nil task = elim (Bool-cases (is_waiting task.status)) [
  | inl waits ↦
      rw waits (λ i. record task { conflicts_with = difference-nil task.conflicts_with i })
  | inr other ↦ rw other
]

forget_conflicts-nil : (tasks : Dict TaskRecord) → forget_conflicts [] tasks ≡ tasks
unfolding forget_conflicts
forget_conflicts-nil [] = refl
forget_conflicts-nil ((k, task) ∷ tasks) =
    ap₂ (λ t rest. (k, t) ∷ rest) (forget_task-nil task) (forget_conflicts-nil tasks)

forget_task-fail_task :
    (now : String) (ids : List String) (task : TaskRecord)
    → forget_task ids (fail_task now task) ≡ recovered now ids task
unfolding fail_task forget_task transition
forget_task-fail_task now ids task = elim (Bool-cases (is_stale task.status)) [
  | inl stale ↦ rw stale
  | inr fresh ↦ rw fresh
]

get-forget_conflicts :
    (now : String) (ids : List String) (tasks : Dict TaskRecord) (k : String)
    → Dict.get (forget_conflicts ids (fail_stale now tasks)) k
      ≡ map_option (recovered now ids) (Dict.get tasks k)
unfolding fail_stale forget_conflicts Dict.get
get-forget_conflicts now ids [] k = refl
get-forget_conflicts now ids ((j, task) ∷ tasks) k = elim (Bool-cases (j == k)) [
  | inl same ↦ rw same (ap some (forget_task-fail_task now ids task))
  | inr other ↦ rw other (get-forget_conflicts now ids tasks k)
]

recover_from-forget_conflicts :
    (ids : List String) (tasks : Dict TaskRecord)
    → recover_from ids tasks ≡ forget_conflicts ids tasks
unfolding recover_from
recover_from-forget_conflicts [] tasks = sym (forget_conflicts-nil tasks)
recover_from-forget_conflicts (id ∷ ids) tasks = refl

-- The recovery of a loaded registry treats each task by itself: a task that a worker was to be running
-- becomes failed, with the time and the reason; a waiting task no longer conflicts with the tasks that
-- failed so; every other task, and the set of task ids, stays.
pub recover_loaded_registry_lem :
    (now : String) (registry : TaskRegistry) (k : String)
    → Dict.get (recover_loaded_registry now registry).tasks k
      ≡ map_option (recovered now (stale_active_ids registry.tasks)) (Dict.get registry.tasks k)
unfolding recover_loaded_registry
recover_loaded_registry_lem now registry k =
    rw
      (recover_from-forget_conflicts (stale_active_ids registry.tasks)
        (fail_stale now registry.tasks))
      (get-forget_conflicts now (stale_active_ids registry.tasks) registry.tasks k)

-- No task that a worker is to be running.
abbrev pub NoStale : Dict TaskRecord → Type 0
NoStale tasks = All (λ e. is_stale e.1.status ≡ false) tasks

recovered-fresh :
    (now : String) (ids : List String) (task : TaskRecord)
    → is_stale (forget_task ids (fail_task now task)).status ≡ false
unfolding fail_task forget_task transition
recovered-fresh now ids task = elim (Bool-cases (is_stale task.status)) [
  | inl stale ↦ rw stale
  | inr fresh ↦ rw fresh (elim (Bool-cases (is_waiting task.status)) [
    | inl waits ↦ rw waits fresh
    | inr other ↦ rw other fresh
  ])
]

forget_conflicts-NoStale :
    (now : String) (ids : List String) (tasks : Dict TaskRecord)
    → NoStale (forget_conflicts ids (fail_stale now tasks))
unfolding fail_stale forget_conflicts
forget_conflicts-NoStale now ids [] = tt
forget_conflicts-NoStale now ids ((k, task) ∷ tasks) =
    (recovered-fresh now ids task, forget_conflicts-NoStale now ids tasks)

recover-NoStale :
    (now : String) (registry : TaskRegistry) → NoStale (recover_loaded_registry now registry).tasks
unfolding recover_loaded_registry
recover-NoStale now registry =
    rw
      (recover_from-forget_conflicts (stale_active_ids registry.tasks)
        (fail_stale now registry.tasks))
      (forget_conflicts-NoStale now (stale_active_ids registry.tasks) registry.tasks)

-- A registry without a current task and without a task in a status that only a worker could leave.
abbrev pub IsRecovered : TaskRegistry → Type 0
IsRecovered registry = (registry.current_task_id ≡ none) × NoStale registry.tasks

module _ (stable_hash : Fields → String) (python : Python) (now : String) where
  -- The saved items, where the file is a JSON list of them.
  abbrev pub items_in : Option Value → Option (List Value)
  items_in (some (arr items)) = some (to_list items)
  items_in _ = none

  -- json.loads of the file, if there is one and it is JSON
  abbrev pub value_in : Option String → Option Value
  value_in none = none
  value_in (some file) = python.loads file

  -- The load gives a recovered registry, or it raises: then the file is a list and a record that was
  -- read from it has a list or a dict for its status.
  abbrev pub IsLoaded : Option Value → Result TaskRegistry → Type 0
  IsLoaded value (ok registry) = IsRecovered registry
  IsLoaded value (error e) =
      (items : List Value) × (items_in value ≡ some items)
      × (any (λ task. is_unhashable task.status)
            (Dict.values (loaded stable_hash python now items).tasks)
          ≡ true)

  load_value-IsLoaded :
      (value : Option Value) → IsLoaded value (load_value stable_hash python now value)
  unfolding load_value recover_or_raise recover_loaded_registry loaded
  load_value-IsLoaded none = (refl, tt)
  load_value-IsLoaded (some (arr items)) =
      let read = loaded stable_hash python now (to_list items) in
      elim (Bool-cases (any (λ task. is_unhashable task.status) (Dict.values read.tasks))) [
        | inl bad ↦ rw bad (to_list items, refl, bad)
        | inr good ↦ rw good (refl, recover-NoStale now read)
      ]
  load_value-IsLoaded (some null) = (refl, tt)
  load_value-IsLoaded (some (bool b)) = (refl, tt)
  load_value-IsLoaded (some (num n)) = (refl, tt)
  load_value-IsLoaded (some (literal s)) = (refl, tt)
  load_value-IsLoaded (some (str s)) = (refl, tt)
  load_value-IsLoaded (some (obj fields)) = (refl, tt)

  -- Whatever the file of tasks holds, and also where there is none or it is no JSON, the registry loaded
  -- from it has no current task, and no task in a status that only a running worker could leave; unless
  -- the load raises, and then the file is a list of which a record that was read has a list or a dict for
  -- its status.
  pub load_registry-IsLoaded :
      (file : Option String) → IsLoaded (value_in file) (load_registry stable_hash python now file)
  unfolding load_registry
  load_registry-IsLoaded none = (refl, tt)
  load_registry-IsLoaded (some file) = load_value-IsLoaded (python.loads file)
