-- ===== src/Coordinator/Reachable.antt =====
-- The states that the coordinator can reach by the operations that change it, from a state that its files hold.
pub mod Saved
pub mod Handling
pub mod Commands
use xiao_ming.Prelude.{String, Bool, false, ◌≡◌, Option}
use xiao_ming.Tasks.Spec.{TaskSpec}
use xiao_ming.Coordinator.Events.{WorkerEvent}
use xiao_ming.Coordinator.State.{Coordinator}
use xiao_ming.Coordinator.Services.{Services}
use xiao_ming.Coordinator.Handling.{raises, handle_worker_event}
use xiao_ming.Coordinator.Cancel.{cancel_task, cancel_current, cancel_all}
use xiao_ming.Coordinator.Commands.{reply_mailbox_message}
use xiao_ming.Coordinator.Scheduler.{SchedulerDecision}
use xiao_ming.Coordinator.Decisions.{apply_decision}
use xiao_ming.Coordinator.Reachable.Saved.{IsSaved}
use xiao_ming.Coordinator.Reachable.Handling.{IsSaved-handle_worker_event}
use xiao_ming.Coordinator.Reachable.Commands.{
  IsSaved-cancel_task, IsSaved-cancel_current, IsSaved-cancel_all, IsSaved-reply_mailbox_message,
  IsSaved-apply_decision,
}

-- A state in which the operations find the coordinator that began with what its files hold. An event of a worker
-- is one whose handling raises no exception.
pub data Reachable : Coordinator → Type 0 where
  starts : (c : Coordinator) → IsSaved c → Reachable c
  handles :
      (services : Services) (event : WorkerEvent) (c : Coordinator)
      → raises event c ≡ false
      → Reachable c
      → Reachable (handle_worker_event services event c)
  decides :
      (services : Services) (content : String) (decision : SchedulerDecision) (emit_visible : Bool)
      (task_spec : Option TaskSpec) (c : Coordinator)
      → Reachable c
      → Reachable (apply_decision services content decision emit_visible task_spec c)
  cancels :
      (services : Services) (task_id : String) (c : Coordinator)
      → Reachable c
      → Reachable (cancel_task services task_id c).1
  cancels_current :
      (services : Services) (c : Coordinator)
      → Reachable c
      → Reachable (cancel_current services c).1
  cancels_all :
      (services : Services) (c : Coordinator) → Reachable c → Reachable (cancel_all services c).1
  answers :
      (services : Services) (message_id reply decision message_to_user note : String)
      (c : Coordinator)
      → Reachable c
      → Reachable
          (reply_mailbox_message services message_id reply decision message_to_user note c).1

-- In every state that the coordinator reaches from one whose files hold its registry and its mailbox, by events of
-- workers that raise no exception, the scheduler's decisions, the user's cancellations and the user's answers, the files hold the
-- registry and the mailbox as the last operation left them.
pub Reachable-IsSaved : (c : Coordinator) → Reachable c → IsSaved c
Reachable-IsSaved _ (starts c saved) = saved
Reachable-IsSaved _ (handles services event before good h) =
    IsSaved-handle_worker_event services event before good (Reachable-IsSaved before h)
Reachable-IsSaved _ (decides services content decision emit_visible task_spec before h) =
    IsSaved-apply_decision services content decision emit_visible task_spec before
      (Reachable-IsSaved before h)
Reachable-IsSaved _ (cancels services task_id before h) =
    IsSaved-cancel_task services task_id before (Reachable-IsSaved before h)
Reachable-IsSaved _ (cancels_current services before h) =
    IsSaved-cancel_current services before (Reachable-IsSaved before h)
Reachable-IsSaved _ (cancels_all services before h) =
    IsSaved-cancel_all services before (Reachable-IsSaved before h)
Reachable-IsSaved _ (answers services message_id reply decision message_to_user note before h) =
    IsSaved-reply_mailbox_message services message_id reply decision message_to_user note before
      (Reachable-IsSaved before h)
