-- ===== src/Coordinator/Frame/Starts.antt =====
-- Starting a waiting task changes waiting tasks only.
use xiao_ming.Prelude.{
  String, true, ◌≡◌, refl, ap, ◌∙◌, Option, none, some, List, [], ◌∷◌, ◌++◌, ◌==◌, if◌then◌else◌,
  Bool-cases, inl, inr, arith, All, contains, any, keep, eq_iff, eq_refl, subst, concat, ◌&&◌,
}
use xiao_ming.Prelude.Dict
use xiao_ming.Prelude.Dict.{Dict, Distinct}
use xiao_ming.Tasks.Status.{is_waiting, running}
use xiao_ming.Tasks.Packet.{WorkerContextPacket}
use xiao_ming.Tasks.Record.{TaskRecord, transition}
use xiao_ming.Tasks.Registry.{waiting}
use xiao_ming.Coordinator.State.{Coordinator, store_task, notice_text}
use xiao_ming.Coordinator.Services.{Services}
use xiao_ming.Coordinator.Start.{
  prepare_worker_task, ready_task, should_use_codex, started_task, record_codex, start_worker,
  blocks, start_waiting, start_first, try_start_waiting,
}
use xiao_ming.Coordinator.Frame.{
  IsKeyed, entry, waits, shared, Frame, Frame-store, Frame-self, Frame-shared, Frame-waiting,
  Frame-same, Frame-then_store, Frame-then,
}

All-map {ℓ κ} :
    {A : Type ℓ} (P Q : A → Type κ) (xs : List A) → ((x : A) → P x → Q x) → All P xs → All Q xs
All-map P Q [] f h = tt
All-map P Q (x ∷ xs) f h = (f x h.0, All-map P Q xs f h.1)

abbrev pub Found : Dict TaskRecord → TaskRecord → Type 0
Found d task = Dict.get d task.task_id ≡ some task

pub values-Found : (d : Dict TaskRecord) → IsKeyed d → All (Found d) (Dict.values d)
unfolding Dict.get
values-Found [] h = tt
values-Found ((j, w) ∷ d) h = (
  rw (h.keyed.0, eq_refl j),
  All-map (Found d) (Found ((j, w) ∷ d)) (Dict.values d)
      (λ task found.
        let fresh = h.distinct.0 in ground (arith, found, fresh, eq_iff j task.task_id))
      (values-Found d (record { distinct = h.distinct.1; keyed = h.keyed.1 })),
)

-- A waiting task of the registry, under its id.
abbrev pub Waits : Coordinator → TaskRecord → Type 0
Waits c task = (entry c task.task_id ≡ some task) × (is_waiting task.status ≡ true)

pub keep-Waits :
    (c : Coordinator) (tasks : List TaskRecord)
    → All (Found c.registry.tasks) tasks
    → All (Waits c) (keep (λ task. is_waiting task.status) tasks)
keep-Waits c [] h = tt
keep-Waits c (task ∷ tasks) h = elim (Bool-cases (is_waiting task.status)) [
  | inl waiting_now ↦ rw waiting_now ((h.0, waiting_now), keep-Waits c tasks h.1)
  | inr other ↦ rw other (keep-Waits c tasks h.1)
]

module _ (services : Services) where
  pub task_id-prepare_worker_task :
      (c : Coordinator) (task : TaskRecord)
      → (prepare_worker_task services c task).task_id ≡ task.task_id
  unfolding prepare_worker_task
  task_id-prepare_worker_task c task = refl

  pub task_id-ready_task :
      (packet : Option WorkerContextPacket) (c : Coordinator) (task : TaskRecord)
      → (ready_task packet services c task).task_id ≡ task.task_id
  unfolding ready_task prepare_worker_task
  task_id-ready_task none c task = refl
  task_id-ready_task (some packet) c task = refl

  pub task_id-started_task :
      (c : Coordinator) (task : TaskRecord) → (started_task services c task).task_id ≡ task.task_id
  unfolding started_task transition
  task_id-started_task c task = task_id-ready_task task.context_packet c task

  shared-record_codex :
      (task : TaskRecord) (c : Coordinator) → shared (record_codex services task c) ≡ shared c
  unfolding record_codex
  shared-record_codex task c =
      elim (Bool-cases (c.uses_default_worker_factory && should_use_codex task)) [
        | inl codex ↦ rw codex
        | inr other ↦ rw other
      ]

  pub Frame-start_worker :
      (c : Coordinator) (task : TaskRecord)
      → IsKeyed c.registry.tasks
      → Frame task.task_id c (start_worker services task c)
  unfolding start_worker
  Frame-start_worker c task h =
      let id = task.task_id in
      let recorded = record_codex services task c in
      let begun = record recorded {
        workers =
            if contains recorded.workers id then recorded.workers else recorded.workers ++ id ∷ [];
      } in
      Frame-then_store id c begun (started_task services c task) (task_id-started_task c task)
        (Frame-same id c begun (shared-record_codex task c) h)

  shared-notice_text : (text : String) (c : Coordinator) → shared (notice_text text c) ≡ shared c
  shared-notice_text text c = elim (Bool-cases (text == "")) [
    | inl nothing ↦ rw nothing
    | inr something ↦ rw something
  ]

  Frame-start_waiting :
      (c : Coordinator) (task : TaskRecord)
      → IsKeyed c.registry.tasks
      → Frame task.task_id c (start_waiting services task c)
  unfolding start_waiting transition
  Frame-start_waiting c task h =
      let id = task.task_id in
      let ready =
        transition services.now running (some "等待结束，重新启动。") (record task { conflicts_with = [] }) in
      let text = concat (task.title ∷ "：waiting task is ready to start" ∷ []) in
      let told = notice_text text (store_task ready c) in
      let f : Frame id c told =
        Frame-shared id c (store_task ready c) told (shared-notice_text text (store_task ready c))
          (Frame-store c ready h) in
      let same : (prepare_worker_task services told ready).task_id ≡ id =
        task_id-prepare_worker_task told ready in
      let started = start_worker services (prepare_worker_task services told ready) told in
      Frame-shared id c started (start_waiting services task c) refl (
        Frame-then id c told started f (λ keyed.
          subst (λ i. Frame i told started) same
            (Frame-start_worker told (prepare_worker_task services told ready) keyed)))

  Frame-start_first :
      (id : String) (c : Coordinator) (tasks : List TaskRecord)
      → IsKeyed c.registry.tasks
      → All (Waits c) tasks
      → Frame id c (start_first services tasks c)
  unfolding start_first
  Frame-start_first id c [] h waits_all = Frame-self id c h
  Frame-start_first id c (task ∷ tasks) h waits_all =
      elim (Bool-cases (any (blocks c) task.conflicts_with)) [
        | inl blocked ↦ rw blocked (Frame-start_first id c tasks h waits_all.1)
        | inr free ↦ rw free (
            Frame-waiting id task.task_id c (start_waiting services task c)
              (ap waits waits_all.0.0 ∙ waits_all.0.1) (Frame-start_waiting c task h))
      ]

  pub Frame-try_start_waiting :
      (id : String) (c : Coordinator)
      → IsKeyed c.registry.tasks
      → Frame id c (try_start_waiting services c)
  unfolding try_start_waiting waiting
  Frame-try_start_waiting id c h =
      Frame-start_first id c (waiting c.registry) h
        (keep-Waits c (Dict.values c.registry.tasks) (values-Found c.registry.tasks h))
