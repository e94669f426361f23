-- ===== src/Coordinator/State.antt =====
-- The state of the AsyncCoordinator of async_runtime/coordinator.py. Its lock makes each handler one
-- step. A task is one object, shared by the registry and the handler that changes it: a change is
-- stored at once. A notice is named for its text; its arguments are what the text is written with.
use xiao_ming.Prelude.{
  ℕ, ◌-◌, String, Bool, not, ◌&&◌, Option, none, some, List, [], ◌∷◌, ◌++◌, ◌==◌, if◌then◌else◌,
  any, contains, keep, ltb,
}
use xiao_ming.Prelude.Dict
use xiao_ming.Prelude.Dict.{Dict}
use xiao_ming.Tasks.Status.{status_text}
use xiao_ming.Tasks.Record.{TaskRecord}
use xiao_ming.Tasks.Registry.{TaskRegistry}
use xiao_ming.Tasks.Registry
use xiao_ming.Mailbox.Store.{MailboxStore}
use xiao_ming.Coordinator.External.{ExternalSessionRecord}

-- The texts that the handlers give to AsyncCoordinator._notice: those about a review, and others.
pub data Notice : Type 0 where
  is_submitted : String → Notice
  is_accepted : String → String → Notice
  is_rejected : String → String → Notice
  rejected_by_review : String → String → Notice
  needs_decision : String → String → Notice
  needs_correction : String → ℕ → ℕ → String → Notice
  corrections_used_up : String → ℕ → String → Notice
  worker_is_gone : String → String → Notice
  said : String → Notice

-- The messages that the handlers send to a worker.
pub data WorkerMessage : Type 0 where
  review_accepted : WorkerMessage
  review_feedback : String → List String → ℕ → ℕ → WorkerMessage
  answer_question : String → String → String → WorkerMessage
  append_user_message : String → WorkerMessage
  terminate : WorkerMessage

-- An entry of _notice_cache: the task, its status, the text, and when it was seen, in milliseconds.
pub record SeenNotice : Type 0 where
  pub task_id : String
  pub status : String
  pub text : String
  pub seen_at : ℕ

-- The keys of _workers, of _peer_reply_queues, and of _verifier_workers with their parents in
-- _verifier_parent_ids, which are always set and popped together; what was sent, told, answered and
-- saved; and of the configuration the limit max(max_revision_attempts, 0), the quiet flag, and whether
-- the default worker factory and verifier workers are used.
pub record Coordinator : Type 0 where
  pub registry : TaskRegistry
  pub mailbox : MailboxStore
  pub workers : List String
  pub verifiers : Dict String
  pub reply_queues : List String
  pub external_sessions : Dict ExternalSessionRecord
  pub terminal_notices : List (String × String)
  pub notice_cache : List SeenNotice
  pub max_revision_attempts : ℕ
  pub quiet : Bool
  pub uses_default_worker_factory : Bool
  pub use_verifier_worker : Bool
  pub sent : List (String × WorkerMessage)
  pub notices : List Notice
  pub replies : List (String × String)
  pub saved : TaskRegistry
  pub saved_mailbox : MailboxStore
  pub saved_sessions : List ExternalSessionRecord

-- A change of the task's object in place: the source changes the object that the registry holds, and no handler changes
-- its task_id, so the model puts the changed record under that id.
abbrev pub store_task : TaskRecord → Coordinator → Coordinator
store_task task c = record c {
  registry = record c.registry { tasks = Dict.put c.registry.tasks task.task_id task };
}

-- AsyncCoordinator._send_to_worker
unfoldable pub send_to_worker : String → WorkerMessage → Coordinator → Coordinator
send_to_worker task_id message c =
    if contains c.workers task_id then record c { sent = c.sent ++ (task_id, message) ∷ [] } else c

-- AsyncCoordinator._notice without a task, with somebody who listens
abbrev pub notice : Notice → Coordinator → Coordinator
notice n c = record c { notices = c.notices ++ n ∷ [] }

-- The same for a text that may be empty.
abbrev pub notice_text : String → Coordinator → Coordinator
notice_text text c = if text == "" then c else notice (said text) c

abbrev pub same_notice : String → String → String → SeenNotice → Bool
same_notice task_id status text seen =
    (seen.task_id == task_id) && (seen.status == status) && (seen.text == text)

abbrev pub status_of_task : Option TaskRecord → String
status_of_task none = ""
status_of_task (some task) = status_text task.status

-- AsyncCoordinator._notice about a task: an equal text is not said twice in NOTICE_DEDUPE_WINDOW_SECONDS.
unfoldable pub notice_once : ℕ → String → String → Coordinator → Coordinator
notice_once clock task_id text c =
    let status = status_of_task (Dict.get c.registry.tasks task_id) in
    let fresh = keep (λ seen. not (ltb 30000 (clock - seen.seen_at))) c.notice_cache in
    if text == ""
    then c
    else if any (same_notice task_id status text) fresh
    then record c { notice_cache = fresh }
    else notice (said text) (record c {
      notice_cache =
          fresh ++ record { task_id = task_id; status = status; text = text; seen_at = clock } ∷ [];
    })

-- self._workers.pop(task_id, None)
abbrev pub drop_worker : String → Coordinator → Coordinator
drop_worker task_id c = record c { workers = keep (λ w. not (w == task_id)) c.workers }

-- self.registry.clear_current_if(task_id)
abbrev pub clear_current : String → Coordinator → Coordinator
clear_current task_id c = record c { registry = Registry.clear_current_if task_id c.registry }

-- AsyncCoordinator._persist: what the files of the tasks and of the mailbox hold
abbrev pub persist : Coordinator → Coordinator
persist c = record c { saved = c.registry; saved_mailbox = c.mailbox }

-- AsyncCoordinator._persist_external_sessions_locked
abbrev pub persist_external_sessions : Coordinator → Coordinator
persist_external_sessions c = record c { saved_sessions = Dict.values c.external_sessions }
