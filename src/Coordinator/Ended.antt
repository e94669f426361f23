-- ===== src/Coordinator/Ended.antt =====
-- A task that has ended stays as it ended.
pub mod Traces
pub mod Questions
use xiao_ming.Prelude.{
  String, Bool, true, false, not, ◌&&◌, ◌≡◌, refl, sym, ap, ◌∙◌, Option, none, some, List, [], ◌∷◌,
  ◌++◌, ◌==◌, if◌then◌else◌, contains, keep, any, strip, Bool-cases, Option-cases, inl, inr, subst,
  concat, eq_iff, eq_refl, arith,
}
use mathlib.Core.Option.{some-injective}
use xiao_ming.Prelude.Dict
use xiao_ming.Prelude.Dict.{Dict}
use xiao_ming.Json
use xiao_ming.Tasks.Status.{TaskStatus, is_terminal, is_waiting}
use xiao_ming.Tasks.Record.{TaskRecord, transition}
use xiao_ming.Mailbox.Message.{MailboxKind}
use xiao_ming.Coordinator.Events.{WorkerEvent, WorkerEventKind}
use xiao_ming.Coordinator.State.{Coordinator, store_task, notice_once, persist}
use xiao_ming.Coordinator.Services.{Services}
use xiao_ming.Coordinator.Fork.{is_text}
use xiao_ming.Coordinator.Handling.{
  record_external_session, record_mailbox_status, note_progress, peer_replied, handle_kind,
  is_ending, handle_task_event, handle_worker_event,
}
use xiao_ming.Coordinator.Frame.{
  IsKeyed, status_in, entry, waits, shared, Frame, Keeps, shared-notice_once,
}
use xiao_ming.Coordinator.Frame.Handling.{subject, checked, keyed-get, handle_worker_event-Frame}

-- The task under an id has ended with a status, and no verifier worker checks it.
pub record Ended (status : TaskStatus) (id : String) (c : Coordinator) : Type 0 where
  pub keyed : IsKeyed c.registry.tasks
  pub ended : status_in (entry c id) ≡ some status
  pub terminal : is_terminal status ≡ true
  pub unchecked : (verifier : String) → ¬ (Dict.get c.verifiers verifier ≡ some id)

abbrev pub is_question : WorkerEventKind → Bool
is_question (WorkerEventKind.asks kind) = true
is_question _ = false

-- The worker of a task asks a question.
abbrev pub asks_for : String → WorkerEvent → Bool
asks_for id event = (event.task_id == id) && is_question event.kind

terminal-not_waiting : (status : TaskStatus) → is_terminal status ≡ true → is_waiting status ≡ false
terminal-not_waiting status = elim status as (λ s. is_terminal s ≡ true → is_waiting s ≡ false) [
  | TaskStatus.waiting ↦ λ h. absurd (cc)
  | _ ↦ λ h. refl
]

not_both : (a b : Bool) → a ≡ true → (a && b) ≡ false → b ≡ false
not_both true b h both = both
not_both false b h both = absurd (cc)

-- The status of the task under `id`, and the verifiers, as they were.
module _ (services : Services) (id : String) (status : TaskStatus) (c : Coordinator) where
  abbrev Rests : Dict TaskRecord × Dict String → Type 0
  Rests now = (status_in (Dict.get now.0 id) ≡ some status) × (now.1 ≡ c.verifiers)

  Rests-store :
      (task : TaskRecord) (d : Coordinator)
      → task.task_id ≡ id
      → task.status ≡ status
      → d.verifiers ≡ c.verifiers
      → Rests (shared (store_task task d))
  Rests-store task d same is verifiers = (
    subst (λ o. status_in o ≡ some status)
        (sym (Dict.get-put d.registry.tasks task.task_id task id))
        (rw (same, eq_refl id) (ap some is)),
    verifiers,
  )

  Rests-shared : (d e : Coordinator) → shared e ≡ shared d → Rests (shared d) → Rests (shared e)
  Rests-shared d e same h = subst Rests (sym same) h

  pub shared-record_external_session :
      (event : WorkerEvent) (task : TaskRecord) (d : Coordinator)
      → shared (record_external_session services event task d) ≡ shared d
  unfolding record_external_session
  shared-record_external_session event task d =
      elim (Bool-cases (is_text (Json.get event.data_fields "external_provider") "codex")) [
        | inl codex ↦ rw codex refl
        | inr other ↦ rw other refl
      ]

  shared-record_mailbox_status :
      (kind : MailboxKind) (event : WorkerEvent) (task : TaskRecord) (d : Coordinator)
      → shared (record_mailbox_status services kind event task d) ≡ shared d
  unfolding record_mailbox_status
  shared-record_mailbox_status kind event task d = elim (Bool-cases (strip event.message == "")) [
    | inl blank ↦ rw blank refl
    | inr something ↦ rw something refl
  ]

  module _ (event : WorkerEvent) (task : TaskRecord) (d : Coordinator) (same : task.task_id ≡ id)
      (is : task.status ≡ status) (verifiers : d.verifiers ≡ c.verifiers) where
    Rests-progress :
        Rests
          (shared (store_task (transition services.now task.status (some event.message) task) d))
    unfolding transition
    Rests-progress = Rests-store _ d same is verifiers

    Rests-note_progress : Rests (shared (note_progress services event task d))
    unfolding note_progress
    Rests-note_progress =
        let stored = store_task (transition services.now task.status (some event.message) task) d in
        let text = concat (task.title ∷ "：" ∷ event.message ∷ []) in
        elim (Bool-cases (not d.quiet && not (event.message == ""))) [
          | inl tells ↦ rw tells (
              Rests-shared stored (notice_once services.clock task.task_id text stored)
                (shared-notice_once services.clock task.task_id text stored) Rests-progress)
          | inr silent ↦ rw silent Rests-progress
        ]

    Rests-peer_replied : Rests (shared (peer_replied services event task d))
    unfolding peer_replied transition
    Rests-peer_replied = elim (Bool-cases (contains d.reply_queues event.task_id)) [
      | inl asked ↦ rw asked (
          Rests-store (transition services.now task.status (some "peer replied") task) d same is
            verifiers)
      | inr nobody ↦ rw nobody (
          Rests-store (transition services.now task.status (some "peer replied") task) d same is
            verifiers)
    ]

    shared-verifiers : (e : Coordinator) → shared e ≡ shared d → e.verifiers ≡ c.verifiers
    shared-verifiers e same_tasks = ap (λ s. s.1) same_tasks ∙ verifiers

  Rests-handle_kind :
      (kind : WorkerEventKind) (event : WorkerEvent) (task : TaskRecord) (d : Coordinator)
      → is_ending kind ≡ false
      → is_question kind ≡ false
      → task.task_id ≡ id
      → task.status ≡ status
      → d.verifiers ≡ c.verifiers
      → Rests (shared (handle_kind kind services event task d))
  unfolding handle_kind
  Rests-handle_kind (WorkerEventKind.asks kind) event task d ongoing told same is v = absurd (cc)
  Rests-handle_kind WorkerEventKind.reported event task d ongoing told same is v = absurd (cc)
  Rests-handle_kind WorkerEventKind.completed event task d ongoing told same is v = absurd (cc)
  Rests-handle_kind WorkerEventKind.failed event task d ongoing told same is v = absurd (cc)
  Rests-handle_kind WorkerEventKind.cancelled event task d ongoing told same is v = absurd (cc)
  Rests-handle_kind WorkerEventKind.peer_reply event task d ongoing told same is v =
      Rests-peer_replied event task d same is v
  Rests-handle_kind WorkerEventKind.assistant_delta event task d ongoing told same is v =
      Rests-progress event task d same is v
  Rests-handle_kind WorkerEventKind.progress event task d ongoing told same is v =
      let recorded = record_mailbox_status services MailboxKind.progress event task d in
      Rests-note_progress event task recorded same is (
        shared-verifiers event task d same is v recorded
          (shared-record_mailbox_status MailboxKind.progress event task d))
  Rests-handle_kind WorkerEventKind.started event task d ongoing told same is v =
      Rests-note_progress event task d same is v
  Rests-handle_kind WorkerEventKind.heartbeat event task d ongoing told same is v =
      Rests-note_progress event task d same is v
  Rests-handle_kind WorkerEventKind.tool_started event task d ongoing told same is v =
      Rests-note_progress event task d same is v
  Rests-handle_kind WorkerEventKind.tool_finished event task d ongoing told same is v =
      Rests-note_progress event task d same is v

  module _ (event : WorkerEvent) (task : TaskRecord) (there : entry c id ≡ some task)
      (is : task.status ≡ status) (terminal : is_terminal status ≡ true) (same : task.task_id ≡ id)
      (silent : is_question event.kind ≡ false) where
    Rests-recorded : Rests (shared (record_external_session services event task c))
    Rests-recorded =
        Rests-shared c (record_external_session services event task c)
          (shared-record_external_session event task c) (ap status_in there ∙ ap some is, refl)

    Rests-handle_task_event : Rests (shared (handle_task_event services event task c))
    unfolding handle_task_event
    Rests-handle_task_event = elim (Bool-cases (is_terminal task.status && is_ending event.kind)) [
      | inl late ↦ rw late Rests-recorded
      | inr progress ↦
          let ends : is_terminal task.status ≡ true = ap is_terminal is ∙ terminal in
          let goes_on : is_ending event.kind ≡ false =
            not_both (is_terminal task.status) (is_ending event.kind) ends progress in
          rw progress (
            Rests-handle_kind event.kind event task (record_external_session services event task c)
              goes_on silent same is (ap (λ s. s.1) (shared-record_external_session event task c)))
    ]

module _ (services : Services) (id : String) (status : TaskStatus) where
  still : (c : Coordinator) → Ended status id c → waits (entry c id) ≡ false
  still c h = elim (Option-cases (entry c id)) [
    | inl unknown ↦ rw unknown refl
    | inr (task, there) ↦
        let is : task.status ≡ status =
          some-injective task.status status (sym (ap status_in there) ∙ h.ended) in
        rw there (ap is_waiting is ∙ terminal-not_waiting status h.terminal)
  ]

  pub Ended-Frame :
      (subject_id : String) (c d : Coordinator)
      → (id == subject_id) ≡ false
      → Frame subject_id c d
      → Ended status id c
      → Ended status id d
  Ended-Frame subject_id c d other f h = record {
    keyed = f.keyed;
    ended = ap status_in (f.kept id other (still c h)) ∙ h.ended;
    terminal = h.terminal;
    unchecked = λ verifier has. h.unchecked verifier (f.checks id verifier other (still c h) has);
  }

  no_other :
      (event : WorkerEvent) (c : Coordinator)
      → Ended status id c
      → id ≡ checked event c
      → entry c event.task_id ≡ none
      → ⊥
  no_other event c h own unknown = elim (Option-cases (Dict.get c.verifiers event.task_id)) [
    | inr (parent, there) ↦
        let is_parent : id ≡ parent = own ∙ rw (checked, there) refl in
        h.unchecked event.task_id (there ∙ ap some (sym is_parent))
    | inl nobody ↦
        let same_id : id ≡ event.task_id = own ∙ rw (checked, nobody) refl in
        let gone : none ≡ some status =
          sym (ap status_in (ap (entry c) same_id ∙ unknown)) ∙ h.ended in
        absurd (cc)
  ]

  Rests-own :
      (event : WorkerEvent) (c : Coordinator)
      → asks_for id event ≡ false
      → Ended status id c
      → id ≡ subject event c
      → Rests services id status c (shared (handle_worker_event services event c))
  unfolding handle_worker_event
  Rests-own event c silent h own = elim (Option-cases (entry c event.task_id)) [
    | inr (task, there) ↦
        let same_id : id ≡ event.task_id = own ∙ rw (subject, there) refl in
        let found : entry c id ≡ some task = ap (entry c) same_id ∙ there in
        let is : task.status ≡ status =
          some-injective task.status status (sym (ap status_in found) ∙ h.ended) in
        rw (shared, handle_worker_event, there)
          (Rests-handle_task_event services id status c event task found is h.terminal
            (keyed-get c.registry.tasks id task h.keyed.keyed found)
            (not_both (event.task_id == id) (is_question event.kind)
              ((eq_iff event.task_id id).1 (sym same_id)) silent))
    | inl unknown ↦ absurd (no_other event c h (own ∙ rw (subject, unknown) refl) unknown)
  ]

  -- Each event but a question of that task's worker.
  pub Ended-handle_worker_event :
      (event : WorkerEvent) (c : Coordinator)
      → asks_for id event ≡ false
      → Ended status id c
      → Ended status id (handle_worker_event services event c)
  Ended-handle_worker_event event c silent h =
      let f = handle_worker_event-Frame services event c h.keyed in
      elim (Bool-cases (id == subject event c)) [
        | inr other ↦
            Ended-Frame (subject event c) c (handle_worker_event services event c) other f h
        | inl own ↦
            let rests = Rests-own event c silent h ((eq_iff id (subject event c)).0 own) in
            record {
              keyed = f.keyed;
              ended = rests.0;
              terminal = h.terminal;
              unchecked = λ verifier has.
                  h.unchecked verifier (ap (λ d. Dict.get d verifier) (sym rests.1) ∙ has);
            }
      ]
