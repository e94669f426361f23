-- ===== src/Coordinator/Frame/Handling.antt =====
-- A worker's event leaves every task but its own, and waiting ones, as it was.
use xiao_ming.Prelude.{
  All, String, not, ◌&&◌, ◌≡◌, sym, ap, ◌∙◌, none, some, [], ◌∷◌, ◌++◌, ◌==◌, if◌then◌else◌,
  contains, keep, any, strip, Bool-cases, Option-cases, inl, inr, subst, concat, eq_iff,
}
use mathlib.Core.Option.{some-injective}
use xiao_ming.Prelude.Dict
use xiao_ming.Prelude.Dict.{Dict}
use xiao_ming.Json
use xiao_ming.Tasks.Status.{TaskStatus, is_terminal, failed, cancelled}
use xiao_ming.Tasks.Record.{TaskRecord, transition}
use xiao_ming.Mailbox.Message.{MailboxKind}
use xiao_ming.Coordinator.Events.{WorkerEvent, WorkerEventKind}
use xiao_ming.Coordinator.Fork.{is_text}
use xiao_ming.Coordinator.State.{
  Coordinator, said, store_task, notice, notice_text, notice_once, drop_worker, clear_current,
}
use xiao_ming.Coordinator.Services.{Services}
use xiao_ming.Coordinator.Handling.{
  record_external_session, mark_external_terminal, record_mailbox_status, note_progress, notice_end,
  end_worker, peer_replied, handle_kind, is_ending, handle_task_event, handle_other_event,
  handle_worker_event, same_key,
}
use xiao_ming.Coordinator.Frame.{IsKeyed, entry, Frame, Frame-self, Frame-then_store, Frame-if}
use xiao_ming.Coordinator.Frame.Reviews.{
  Frame-then_clear, Frame-then_waiting, Frame-handle_reported_task, Frame-handle_completed_task,
}
use xiao_ming.Coordinator.Frame.Events.{
  Frame-then_notice_once, Frame-handle_question, Frame-handle_verifier_event,
}

module _ (id : String) (c : Coordinator) (services : Services) where
  Frame-mark_external_terminal :
      (task_id status : String) (d : Coordinator)
      → Frame id c d
      → Frame id c (mark_external_terminal services task_id status d)
  unfolding mark_external_terminal
  Frame-mark_external_terminal task_id status d f =
      elim (Option-cases (Dict.get d.external_sessions task_id)) [
        | inl unknown ↦ rw (mark_external_terminal, unknown) f
        | inr (session, there) ↦ rw (mark_external_terminal, there) f
      ]

  Frame-notice_end :
      (kind text : String) (task : TaskRecord) (d : Coordinator)
      → Frame id c d
      → Frame id c (notice_end kind text task d)
  unfolding notice_end
  Frame-notice_end kind text task d f =
      let told = record d { terminal_notices = d.terminal_notices ++ (task.task_id, kind) ∷ [] } in
      Frame-if id c (any (same_key task.task_id kind) d.terminal_notices) d (notice_text text told)
        f (Frame-if id c (text == "") told (notice (said text) told) f f)

  module _ (event : WorkerEvent) (task : TaskRecord) where
    pub Frame-record_external_session :
        (d : Coordinator)
        → Frame id c d
        → Frame id c (record_external_session services event task d)
    unfolding record_external_session
    Frame-record_external_session d f =
        elim (Bool-cases (is_text (Json.get event.data_fields "external_provider") "codex")) [
          | inl codex ↦ rw codex f
          | inr other ↦ rw other f
        ]

    pub Frame-record_mailbox_status :
        (kind : MailboxKind) (d : Coordinator)
        → Frame id c d
        → Frame id c (record_mailbox_status services kind event task d)
    unfolding record_mailbox_status
    Frame-record_mailbox_status kind d f = elim (Bool-cases (strip event.message == "")) [
      | inl blank ↦ rw blank f
      | inr something ↦ rw something f
    ]

  -- The handlers of an event of the task under `id`.
  module _ (event : WorkerEvent) (task : TaskRecord) (d : Coordinator) (same : task.task_id ≡ id)
      (f : Frame id c d) where
    Frame-progress :
        Frame id c (store_task (transition services.now task.status (some event.message) task) d)
    unfolding transition
    Frame-progress = Frame-then_store id c d _ same f

    Frame-note_progress : Frame id c (note_progress services event task d)
    unfolding note_progress
    Frame-note_progress =
        let stored = store_task (transition services.now task.status (some event.message) task) d in
        let text = concat (task.title ∷ "：" ∷ event.message ∷ []) in
        Frame-if id c (not d.quiet && not (event.message == ""))
          (notice_once services.clock task.task_id text stored) stored
          (Frame-then_notice_once id c services services.clock task.task_id text stored
            Frame-progress)
          Frame-progress

    Frame-peer_replied : Frame id c (peer_replied services event task d)
    unfolding peer_replied transition
    Frame-peer_replied =
        let answered = record d {
          reply_queues = keep (λ k. not (k == event.task_id)) d.reply_queues;
          replies = d.replies ++ (event.task_id, event.message) ∷ [];
        } in
        Frame-then_store id c (if contains d.reply_queues event.task_id then answered else d)
          (transition services.now task.status (some "peer replied") task) same
          (Frame-if id c (contains d.reply_queues event.task_id) answered d f f)

    Frame-end_worker :
        (status : TaskStatus) (kind text : String)
        → Frame id c (end_worker services status kind text event task d)
    unfolding end_worker transition
    Frame-end_worker status kind text =
        let ended = transition services.now status (some event.message) task in
        let external = mark_external_terminal services task.task_id kind d in
        let marked = record_mailbox_status services MailboxKind.result event task external in
        let stored = store_task ended (drop_worker task.task_id marked) in
        let cleared = clear_current task.task_id stored in
        Frame-then_waiting id c services (notice_end kind text task cleared) (
          Frame-notice_end kind text task cleared (
            Frame-then_clear id c stored task.task_id (
              Frame-then_store id c (drop_worker task.task_id marked) ended same (
                Frame-record_mailbox_status event task MailboxKind.result external
                  (Frame-mark_external_terminal task.task_id kind d f)))))

    Frame-recorded :
        (kind : MailboxKind) → Frame id c (record_mailbox_status services kind event task d)
    Frame-recorded kind = Frame-record_mailbox_status event task kind d f

  Frame-handle_kind :
      (kind : WorkerEventKind) (event : WorkerEvent) (task : TaskRecord) (d : Coordinator)
      → task.task_id ≡ id
      → Frame id c d
      → Frame id c (handle_kind kind services event task d)
  unfolding handle_kind
  Frame-handle_kind (WorkerEventKind.asks kind) event task d same f =
      Frame-handle_question id c services kind event task d same f
  Frame-handle_kind WorkerEventKind.peer_reply event task d same f =
      Frame-peer_replied event task d same f
  Frame-handle_kind WorkerEventKind.reported event task d same f =
      Frame-handle_reported_task id c services (Json.get event.data_fields "report") task
        (record_mailbox_status services MailboxKind.result event task d) same
        (Frame-recorded event task d same f MailboxKind.result)
  Frame-handle_kind WorkerEventKind.completed event task d same f =
      Frame-handle_completed_task id c services event.message task
        (record_mailbox_status services MailboxKind.result event task d) same
        (Frame-recorded event task d same f MailboxKind.result)
  Frame-handle_kind WorkerEventKind.failed event task d same f =
      Frame-end_worker event task d same f failed "failed" _
  Frame-handle_kind WorkerEventKind.cancelled event task d same f =
      Frame-end_worker event task d same f cancelled "cancelled" _
  Frame-handle_kind WorkerEventKind.assistant_delta event task d same f =
      Frame-progress event task d same f
  Frame-handle_kind WorkerEventKind.progress event task d same f =
      Frame-note_progress event task
        (record_mailbox_status services MailboxKind.progress event task d) same
        (Frame-recorded event task d same f MailboxKind.progress)
  Frame-handle_kind WorkerEventKind.started event task d same f =
      Frame-note_progress event task d same f
  Frame-handle_kind WorkerEventKind.heartbeat event task d same f =
      Frame-note_progress event task d same f
  Frame-handle_kind WorkerEventKind.tool_started event task d same f =
      Frame-note_progress event task d same f
  Frame-handle_kind WorkerEventKind.tool_finished event task d same f =
      Frame-note_progress event task d same f

  Frame-handle_task_event :
      (event : WorkerEvent) (task : TaskRecord)
      → task.task_id ≡ id
      → Frame id c c
      → Frame id c (handle_task_event services event task c)
  unfolding handle_task_event
  Frame-handle_task_event event task same f =
      let recorded = record_external_session services event task c in
      let g = Frame-record_external_session event task c f in
      Frame-if id c (is_terminal task.status && is_ending event.kind) recorded
        (handle_kind event.kind services event task recorded) g
        (Frame-handle_kind event.kind event task recorded same g)

pub keyed-get :
    (d : Dict TaskRecord) (k : String) (task : TaskRecord)
    → All (λ e. e.1.task_id ≡ e.0) d
    → Dict.get d k ≡ some task
    → task.task_id ≡ k
unfolding Dict.get
keyed-get [] k task all there = absurd (cc)
keyed-get ((j, w) ∷ d) k task all there = elim (Bool-cases (j == k)) [
  | inl same ↦
      let found : some w ≡ some task =
        subst (λ b. (if b then some w else Dict.get d k) ≡ some task) same there in
      ap (λ t. t.task_id) (sym (some-injective w task found)) ∙ all.0 ∙ (eq_iff j k).0 same
  | inr other ↦
      keyed-get d k task all.1
        (subst (λ b. (if b then some w else Dict.get d k) ≡ some task) other there)
]

-- The task whose verifier an event comes from.
abbrev pub checked : WorkerEvent → Coordinator → String
checked event c = elim (Dict.get c.verifiers event.task_id) [
  | none ↦ event.task_id
  | some parent ↦ parent
]

-- The task that an event is about: its own, or the one that the verifier of that name checks.
abbrev pub subject : WorkerEvent → Coordinator → String
subject event c = elim (entry c event.task_id) [
  | some task ↦ event.task_id
  | none ↦ checked event c
]

module _ (services : Services) (event : WorkerEvent) (c : Coordinator)
    (h : IsKeyed c.registry.tasks) where
  Frame-handle_other_event : Frame (checked event c) c (handle_other_event services event c)
  unfolding handle_other_event
  Frame-handle_other_event = elim (Option-cases (Dict.get c.verifiers event.task_id)) [
    | inl nobody ↦ rw (checked, handle_other_event, nobody) (Frame-self event.task_id c h)
    | inr (parent_id, there) ↦ elim (Option-cases (entry c parent_id)) [
      | inl gone ↦ rw (checked, handle_other_event, there, gone) (Frame-self parent_id c h)
      | inr (parent, found) ↦
          rw (checked, handle_other_event, there, found)
            (Frame-handle_verifier_event parent_id c services event parent c
              (keyed-get c.registry.tasks parent_id parent h.keyed found) (Frame-self parent_id c h)
              event.kind)
    ]
  ]

  -- Where the registry holds each task under its id and none twice, it does so after an event of a
  -- worker, and each task that is not waiting, but for the event's own or the one whose verifier it comes
  -- from, is then what it was and has no verifier worker that it did not have.
  pub handle_worker_event-Frame : Frame (subject event c) c (handle_worker_event services event c)
  unfolding handle_worker_event
  handle_worker_event-Frame = elim (Option-cases (entry c event.task_id)) [
    | inl unknown ↦ rw (handle_worker_event, subject, unknown) Frame-handle_other_event
    | inr (task, there) ↦
        rw (handle_worker_event, subject, there)
          (Frame-handle_task_event event.task_id c services event task
            (keyed-get c.registry.tasks event.task_id task h.keyed there)
            (Frame-self event.task_id c h))
  ]
