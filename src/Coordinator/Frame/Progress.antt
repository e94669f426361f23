-- ===== src/Coordinator/Frame/Progress.antt =====
-- A waiting task whose conflicts have ended does not wait for nothing.
use xiao_ming.Prelude.{
  String, Bool, true, false, not, ◌||◌, ◌≡◌, refl, sym, ◌∙◌, some, List, [], ◌∷◌, Bool-cases, inl,
  inr, All, any, eq_refl, concat, subst,
}
use xiao_ming.Prelude.Dict
use xiao_ming.Tasks.Status.{running}
use xiao_ming.Tasks.Record.{TaskRecord, transition}
use xiao_ming.Tasks.Registry.{waiting}
use xiao_ming.Coordinator.State.{Coordinator, store_task, notice_text}
use xiao_ming.Coordinator.Services.{Services}
use xiao_ming.Coordinator.Start.{
  prepare_worker_task, started_task, record_codex, start_worker, blocks, start_waiting, start_first,
  try_start_waiting,
}
use xiao_ming.Coordinator.Frame.{IsKeyed, status_in, entry}
use xiao_ming.Coordinator.Frame.Starts.{Waits, keep-Waits, values-Found, task_id-started_task}

-- None of the tasks that a task conflicts with is planned, runs or waits for the user.
abbrev pub is_free : Coordinator → TaskRecord → Bool
is_free c task = not (any (blocks c) task.conflicts_with)

some_later : (b later : Bool) → b ≡ true → (not b || later) ≡ true → later ≡ true
some_later true later blocked h = h
some_later false later blocked h = absurd (cc)

module _ (services : Services) where
  status-start_worker :
      (task : TaskRecord) (c : Coordinator) (id : String)
      → task.task_id ≡ id
      → status_in (entry (start_worker services task c) id) ≡ some running
  unfolding start_worker started_task transition
  status-start_worker task c id same =
      subst (λ o. status_in o ≡ some running)
        (sym (
          Dict.get-put (record_codex services task c).registry.tasks
            (started_task services c task).task_id (started_task services c task) id))
        (rw (task_id-started_task services c task ∙ same, eq_refl id) refl)

  status-start_waiting :
      (task : TaskRecord) (c : Coordinator)
      → status_in (entry (start_waiting services task c) task.task_id) ≡ some running
  unfolding start_waiting prepare_worker_task transition
  status-start_waiting task c =
      let ready =
        transition services.now running (some "等待结束，重新启动。") (record task { conflicts_with = [] }) in
      let told =
        notice_text (concat (task.title ∷ "：waiting task is ready to start" ∷ []))
          (store_task ready c) in
      status-start_worker (prepare_worker_task services told ready) told task.task_id refl

  start_first-progress :
      (c : Coordinator) (tasks : List TaskRecord)
      → All (Waits c) tasks
      → any (is_free c) tasks ≡ true
      → (task : TaskRecord) × Waits c task
        × (is_free c task ≡ true)
        × (status_in (entry (start_first services tasks c) task.task_id) ≡ some running)
  unfolding start_first
  start_first-progress c [] h some_free = absurd (cc)
  start_first-progress c (task ∷ tasks) h some_free =
      elim (Bool-cases (any (blocks c) task.conflicts_with)) [
        | inl blocked ↦
            let later : any (is_free c) tasks ≡ true =
              some_later (any (blocks c) task.conflicts_with) _ blocked some_free in
            rw blocked (start_first-progress c tasks h.1 later)
        | inr free ↦ rw free (task, h.0, rw free refl, status-start_waiting task c)
      ]

  -- Where some waiting task conflicts with no task that is planned, runs or waits for the user, and the
  -- registry holds each task under its id and none twice, the step that starts waiting tasks starts such a
  -- task: a task that waited and conflicts with none of these runs after it.
  pub try_start_waiting-progress :
      (c : Coordinator)
      → IsKeyed c.registry.tasks
      → any (is_free c) (waiting c.registry) ≡ true
      → (task : TaskRecord) × Waits c task
        × (is_free c task ≡ true)
        × (status_in (entry (try_start_waiting services c) task.task_id) ≡ some running)
  unfolding try_start_waiting waiting
  try_start_waiting-progress c h =
      start_first-progress c (waiting c.registry)
        (keep-Waits c (Dict.values c.registry.tasks) (values-Found c.registry.tasks h))
