-- ===== src/Coordinator/Handling.antt =====
-- _handle_worker_event_locked of async_runtime/coordinator.py: what an event of a worker does.
use xiao_ming.Prelude.{
  String, Bool, true, false, not, ◌&&◌, Option, none, some, List, [], ◌∷◌, ◌++◌, ◌==◌,
  if◌then◌else◌, any, contains, keep, concat, strip,
}
use xiao_ming.Prelude.Dict
use xiao_ming.Json
use xiao_ming.Json.{Value, obj, str, Fields, dict, text_or}
use xiao_ming.Tasks.Status.{TaskStatus, failed, cancelled, is_terminal}
use xiao_ming.Tasks.Record.{TaskRecord, transition}
use xiao_ming.Mailbox.Message.{MailboxKind}
use xiao_ming.Mailbox.Store
use xiao_ming.Tasks.Report.{raises_type_error}
use xiao_ming.Coordinator.Events.{WorkerEvent, WorkerEventKind, event_kind_text}
use xiao_ming.Coordinator.External.{ExternalSessionRecord}
use xiao_ming.Coordinator.Fork.{is_text}
use xiao_ming.Coordinator.State.{
  Coordinator, store_task, notice_text, notice_once, drop_worker, clear_current, persist,
  persist_external_sessions,
}
use xiao_ming.Coordinator.Services.{Services}
use xiao_ming.Coordinator.Start.{try_start_waiting}
use xiao_ming.Coordinator.Reports.{handle_reported_task, handle_completed_task}
use xiao_ming.Coordinator.Verifiers.{handle_verifier_event}
use xiao_ming.Coordinator.Questions.{handle_question}

abbrev session_of : Services → TaskRecord → Option ExternalSessionRecord → ExternalSessionRecord
session_of services task (some r) = r
session_of services task none = record {
  peer_id = task.task_id;
  provider = "codex";
  title = task.title;
  workspace = services.workspace;
  session_id = "";
  status = "active";
  created_at = services.now;
  updated_at = services.now;
}

-- AsyncCoordinator._record_external_session_from_event_locked
unfoldable pub record_external_session :
    Services → WorkerEvent → TaskRecord → Coordinator → Coordinator
record_external_session services event task c =
    let r = session_of services task (Dict.get c.external_sessions task.task_id) in
    let id = text_or services.python (Json.get event.data_fields "external_session_id") "" in
    if is_text (Json.get event.data_fields "external_provider") "codex"
    then persist_external_sessions (record c {
      external_sessions = Dict.put c.external_sessions task.task_id (record r {
        session_id = if id == "" then r.session_id else id;
        status = "active";
        updated_at = services.now;
      });
    })
    else c

-- AsyncCoordinator._mark_external_session_terminal_locked
unfoldable pub mark_external_terminal : Services → String → String → Coordinator → Coordinator
mark_external_terminal services task_id status c = elim (Dict.get c.external_sessions task_id) [
  | none ↦ c
  | some r ↦ persist_external_sessions (record c {
    external_sessions =
        Dict.put c.external_sessions task_id
          (record r { status = status; updated_at = services.now });
  })
]

-- AsyncCoordinator._record_mailbox_status_locked
unfoldable pub record_mailbox_status :
    Services → MailboxKind → WorkerEvent → TaskRecord → Coordinator → Coordinator
unfolding Store.create_message
record_mailbox_status services kind event task c =
    if strip event.message == "" then c else record c {
      mailbox =
          (Store.create_message services.new_id services.now task.task_id "worker" "main" kind
            (strip event.message) false (some event.task_id)
            (dict (
              ("event_kind", str (event_kind_text event.kind))
              ∷ ("task_title", str task.title)
              ∷ []))
            c.mailbox).1;
    }

-- The branch of _handle_worker_event_locked for a message of the worker that changes no status.
unfoldable pub note_progress : Services → WorkerEvent → TaskRecord → Coordinator → Coordinator
unfolding transition notice_once
note_progress services event task c =
    let stored = store_task (transition services.now task.status (some event.message) task) c in
    persist (
      if not c.quiet && not (event.message == "")
      then notice_once services.clock task.task_id (concat (task.title ∷ "：" ∷ event.message ∷ []))
          stored
      else stored)

abbrev pub same_key : String → String → String × String → Bool
same_key task_id kind key = (key.0 == task_id) && (key.1 == kind)

-- AsyncCoordinator._worker_notice for a task that failed or was cancelled: the text, empty if it was
-- given before, is said.
unfoldable pub notice_end : String → String → TaskRecord → Coordinator → Coordinator
notice_end kind text task c =
    if any (same_key task.task_id kind) c.terminal_notices
    then c
    else notice_text text
        (record c { terminal_notices = c.terminal_notices ++ (task.task_id, kind) ∷ [] })

-- The branch of _handle_worker_event_locked for a worker that failed or was cancelled.
unfoldable pub end_worker :
    Services → TaskStatus → String → String → WorkerEvent → TaskRecord → Coordinator → Coordinator
unfolding mark_external_terminal record_mailbox_status transition notice_end try_start_waiting
end_worker services status kind text event task c =
    let marked =
      record_mailbox_status services MailboxKind.result event task
        (mark_external_terminal services task.task_id kind c) in
    persist (
      try_start_waiting services (
        notice_end kind text task (
          clear_current task.task_id (
            store_task (transition services.now status (some event.message) task)
              (drop_worker task.task_id marked)))))

-- The branch of _handle_worker_event_locked for a reply to the peer who waits.
unfoldable pub peer_replied : Services → WorkerEvent → TaskRecord → Coordinator → Coordinator
unfolding transition
peer_replied services event task c =
    let answered =
      if contains c.reply_queues event.task_id
      then record c {
        reply_queues = keep (λ k. not (k == event.task_id)) c.reply_queues;
        replies = c.replies ++ (event.task_id, event.message) ∷ [];
      }
      else c in
    persist (store_task (transition services.now task.status (some "peer replied") task) answered)

-- The branches of _handle_worker_event_locked, by the kind of the event, for the worker's task.
unfoldable pub handle_kind :
    WorkerEventKind → Services → WorkerEvent → TaskRecord → Coordinator → Coordinator
unfolding peer_replied handle_question record_mailbox_status handle_reported_task
    handle_completed_task end_worker transition note_progress
handle_kind WorkerEventKind.peer_reply services event task c = peer_replied services event task c
handle_kind (WorkerEventKind.asks kind) services event task c =
    handle_question services kind event task c
handle_kind WorkerEventKind.reported services event task c =
    handle_reported_task services (Json.get event.data_fields "report") task
      (record_mailbox_status services MailboxKind.result event task c)
handle_kind WorkerEventKind.completed services event task c =
    handle_completed_task services event.message task
      (record_mailbox_status services MailboxKind.result event task c)
handle_kind WorkerEventKind.failed services event task c =
    end_worker services failed "failed"
      (concat
        (task.title ∷ " 失败：" ∷ (if event.message == "" then "后台任务失败。" else event.message) ∷ []))
      event task c
handle_kind WorkerEventKind.cancelled services event task c =
    end_worker services cancelled "cancelled"
      (concat (
        task.title
        ∷ " 已取消"
        ∷ (if event.message == "" then "" else concat ("：" ∷ event.message ∷ []))
        ∷ []))
      event task c
handle_kind WorkerEventKind.assistant_delta services event task c =
    persist (store_task (transition services.now task.status (some event.message) task) c)
handle_kind WorkerEventKind.progress services event task c =
    note_progress services event task
      (record_mailbox_status services MailboxKind.progress event task c)
handle_kind kind services event task c = note_progress services event task c

-- event.kind in {"reported", "completed", "failed", "cancelled"}
abbrev pub is_ending : WorkerEventKind → Bool
is_ending WorkerEventKind.reported = true
is_ending WorkerEventKind.completed = true
is_ending WorkerEventKind.failed = true
is_ending WorkerEventKind.cancelled = true
is_ending _ = false

-- _handle_worker_event_locked for an event of a task in the registry.
unfoldable pub handle_task_event : Services → WorkerEvent → TaskRecord → Coordinator → Coordinator
unfolding record_external_session handle_kind
handle_task_event services event task c =
    let recorded = record_external_session services event task c in
    if is_terminal task.status && is_ending event.kind
    then recorded
    else handle_kind event.kind services event task recorded

-- _handle_worker_event_locked for an event of no task in the registry: a verifier's, or nobody's.
unfoldable pub handle_other_event : Services → WorkerEvent → Coordinator → Coordinator
unfolding handle_verifier_event
handle_other_event services event c = elim (Dict.get c.verifiers event.task_id) [
  | none ↦ c
  | some parent_id ↦ elim (Dict.get c.registry.tasks parent_id) [
    | none ↦ c
    | some parent ↦ handle_verifier_event event.kind services event parent c
  ]
]

-- AsyncCoordinator._handle_worker_event_locked
unfoldable pub handle_worker_event : Services → WorkerEvent → Coordinator → Coordinator
unfolding handle_task_event handle_other_event
handle_worker_event services event c = elim (Dict.get c.registry.tasks event.task_id) [
  | some task ↦ handle_task_event services event task c
  | none ↦ handle_other_event services event c
]

-- event.data.get("report") is a dict whose status is a list or a dict
abbrev pub bad_report : Option Value → Bool
bad_report (some (obj fields)) = raises_type_error fields
bad_report _ = false

abbrev pub raises_in : WorkerEventKind → WorkerEvent → Bool
raises_in WorkerEventKind.reported event = bad_report (Json.get event.data_fields "report")
raises_in _ event = false

-- The handling of an event ends with an exception.
abbrev pub raises : WorkerEvent → Coordinator → Bool
raises event c = elim (Dict.get c.registry.tasks event.task_id) [
  | none ↦ false
  | some task ↦ not (is_terminal task.status) && raises_in event.kind event
]

-- AsyncCoordinator._run_worker_events: the events in the order in which the workers gave them, each
-- with the services at its time. An exception ends the loop.
unfoldable pub run_worker_events : List (Services × WorkerEvent) → Coordinator → Coordinator
unfolding handle_worker_event
run_worker_events [] c = c
run_worker_events ((services, event) ∷ events) c =
    let handled = handle_worker_event services event c in
    let rest = run_worker_events events handled in if raises event c then handled else rest
