-- ===== src/Coordinator/Cancel.antt =====
-- Cancelling tasks: _cancel_task_locked, cancel_task, cancel_current and cancel_all of
-- async_runtime/coordinator.py.
use xiao_ming.Prelude.{
  String, Bool, not, Option, none, some, List, [], ◌∷◌, ◌++◌, map, ◌==◌, if◌then◌else◌, keep,
  concat, strip, length,
}
use xiao_ming.Prelude.Dict
use xiao_ming.Prelude.Dict.{Dict}
use xiao_ming.Json.{num}
use xiao_ming.Tasks.Status.{cancelled, is_terminal, status_text}
use xiao_ming.Tasks.Record.{TaskRecord, transition}
use xiao_ming.Tasks.Registry
use xiao_ming.Mailbox.Store
use xiao_ming.Coordinator.State.{
  Coordinator, WorkerMessage, terminate, store_task, send_to_worker, clear_current, persist,
}
use xiao_ming.Coordinator.Services.{Services}
use xiao_ming.Coordinator.Start.{try_start_waiting}

abbrev pub of_parent : String → String × String → Bool
of_parent task_id entry = entry.1 == task_id

abbrev stops : List (String × String) → List (String × WorkerMessage)
stops entries = map (λ e. (e.0, terminate)) entries

-- AsyncCoordinator._terminate_verifiers_for_task_locked
unfoldable pub terminate_verifiers : String → Coordinator → Coordinator
terminate_verifiers task_id c = record c {
  verifiers = keep (λ e. not (of_parent task_id e)) c.verifiers;
  sent = c.sent ++ stops (keep (of_parent task_id) c.verifiers);
}

-- AsyncCoordinator._cancel_task_locked for the task that it finds.
unfoldable pub cancel_found : Services → TaskRecord → Coordinator → Coordinator
unfolding Store.cancel_task_messages send_to_worker terminate_verifiers transition
cancel_found services task c =
    let cleared = record c {
      mailbox = Store.cancel_task_messages services.now task.task_id c.mailbox;
    } in
    persist (
      clear_current task.task_id (
        store_task (transition services.now cancelled (some "用户请求取消。") task)
          (terminate_verifiers task.task_id (send_to_worker task.task_id terminate cleared))))

-- AsyncCoordinator._cancel_task_locked
unfoldable pub cancel : Services → String → Coordinator → Coordinator
unfolding cancel_found
cancel services task_id c = elim (Dict.get c.registry.tasks task_id) [
  | none ↦ c
  | some task ↦ cancel_found services task c
]

-- The ToolResult of a call: its output or its error.
pub data ToolResult : Type 0 where
  success : String → ToolResult
  failure : String → ToolResult

unfoldable pub cancel_known :
    Services → String → Option TaskRecord → Coordinator → ToolResult × Coordinator
unfolding cancel try_start_waiting
cancel_known services task_id none c = (failure (concat ("unknown task_id: " ∷ task_id ∷ [])), c)
cancel_known services task_id (some task) c =
    if is_terminal task.status
    then (success (concat ("任务已经结束，无需取消：" ∷ status_text task.status ∷ [])), c)
    else (
      success (concat ("已请求取消后台任务：" ∷ task.title ∷ [])),
      try_start_waiting services (cancel services task_id c),
    )

-- AsyncCoordinator.cancel_task
unfoldable pub cancel_task : Services → String → Coordinator → ToolResult × Coordinator
unfolding cancel_known
cancel_task services task_id c =
    if strip task_id == ""
    then (failure "task_id is required", c)
    else cancel_known services (strip task_id) (Dict.get c.registry.tasks (strip task_id)) c

-- AsyncCoordinator.cancel_current
unfoldable pub cancel_current : Services → Coordinator → String × Coordinator
unfolding cancel try_start_waiting Registry.current
cancel_current services c = elim (Registry.current c.registry) [
  | none ↦ ("当前没有正在运行的后台任务。", c)
  | some task ↦ (
    concat ("已请求取消后台任务：" ∷ task.title ∷ []),
    try_start_waiting services (cancel services task.task_id c),
  )
]

-- The loop of cancel_all.
unfoldable pub cancel_each : Services → List TaskRecord → Coordinator → Coordinator
unfolding cancel
cancel_each services [] c = c
cancel_each services (task ∷ tasks) c = cancel_each services tasks (cancel services task.task_id c)

-- AsyncCoordinator.cancel_all: the coordinator after it, and the number of tasks
unfoldable pub cancel_all : Services → Coordinator → String × Coordinator
unfolding cancel_each try_start_waiting Registry.active
cancel_all services c =
    let tasks = Registry.active c.registry in
    let after = try_start_waiting services (cancel_each services tasks c) in
    (
      elim tasks as (λ x. String) [
        | [] ↦ "当前没有正在运行的后台任务。"
        | task ∷ rest ↦
            concat ("已请求取消 " ∷ services.python.repr (num (length tasks)) ∷ " 个后台任务。" ∷ [])
      ],
      after,
    )
