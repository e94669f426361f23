-- ===== src/Coordinator/Commands/Later.antt =====
-- The user's later commands leave a message that no longer waits for a reply as it is.
use xiao_ming.Prelude.{
  String, false, ◌≡◌, Option, none, some, List, [], ◌∷◌, ◌==◌, Bool-cases, Option-cases, inl, inr,
  strip, contains,
}
use xiao_ming.Prelude.Dict
use xiao_ming.Tasks.Status.{is_terminal}
use xiao_ming.Tasks.Record.{TaskRecord}
use xiao_ming.Tasks.Registry
use xiao_ming.Coordinator.Events.{Question}
use xiao_ming.Coordinator.State.{Coordinator}
use xiao_ming.Coordinator.Services.{Services}
use xiao_ming.Coordinator.Cancel.{
  cancel, cancel_task, cancel_known, cancel_current, cancel_each, cancel_all,
}
use xiao_ming.Mailbox.Message.{MailboxMessage}
use xiao_ming.Mailbox.Store
use xiao_ming.Mailbox.Views.{awaits_reply}
use xiao_ming.Coordinator.Commands.{
  reply_to, reply_to_found, reply_mailbox_message, question_from_message,
}
use xiao_ming.Coordinator.Decisions.{}
use xiao_ming.Coordinator.Commands.Settled.{
  waits_for_reply, Settled, Settled-cancel_found, Settled-try_start_waiting, Settled-deliver,
}

-- What the user can do while tasks run.
pub data UserCommand : Type 0 where
  replies : Services → String → String → String → String → String → UserCommand
  cancels : Services → String → UserCommand
  cancels_current : Services → UserCommand
  cancels_all : Services → UserCommand

abbrev obey : UserCommand → Coordinator → Coordinator
obey (UserCommand.replies services message_id reply decision message_to_user note) c =
    (reply_mailbox_message services message_id reply decision message_to_user note c).1
obey (UserCommand.cancels services task_id) c = (cancel_task services task_id c).1
obey (UserCommand.cancels_current services) c = (cancel_current services c).1
obey (UserCommand.cancels_all services) c = (cancel_all services c).1

abbrev pub obey_all : List UserCommand → Coordinator → Coordinator
obey_all [] c = c
obey_all (command ∷ commands) c = obey_all commands (obey command c)

module _ (id : String) (services : Services) where
  Settled-cancel :
      (task_id : String) (c : Coordinator)
      → Settled id services c
      → Settled id services (cancel services task_id c)
  unfolding cancel
  Settled-cancel task_id c h = elim (Option-cases (Dict.get c.registry.tasks task_id)) [
    | inl unknown ↦ rw (cancel, unknown) h
    | inr (task, there) ↦ rw (cancel, there) (Settled-cancel_found id services task c h)
  ]

  Settled-cancel_known :
      (task_id : String) (found : Option TaskRecord) (c : Coordinator)
      → Settled id services c
      → Settled id services (cancel_known services task_id found c).1
  unfolding cancel_known
  Settled-cancel_known task_id none c h = h
  Settled-cancel_known task_id (some task) c h = elim (Bool-cases (is_terminal task.status)) [
    | inl ended ↦ rw ended h
    | inr active ↦ rw active (
        Settled-try_start_waiting id services (cancel services task_id c)
          (Settled-cancel task_id c h))
  ]

  Settled-cancel_task :
      (task_id : String) (c : Coordinator)
      → Settled id services c
      → Settled id services (cancel_task services task_id c).1
  unfolding cancel_task
  Settled-cancel_task task_id c h = elim (Bool-cases (strip task_id == "")) [
    | inl blank ↦ rw blank h
    | inr named ↦
        rw named
          (Settled-cancel_known (strip task_id) (Dict.get c.registry.tasks (strip task_id)) c h)
  ]

  Settled-cancel_current :
      (c : Coordinator) → Settled id services c → Settled id services (cancel_current services c).1
  unfolding cancel_current
  Settled-cancel_current c h = elim (Option-cases (Registry.current c.registry)) [
    | inl nothing ↦ rw (cancel_current, nothing) h
    | inr (task, there) ↦
        rw (cancel_current, there)
          (Settled-try_start_waiting id services (cancel services task.task_id c)
            (Settled-cancel task.task_id c h))
  ]

  Settled-cancel_each :
      (tasks : List TaskRecord) (c : Coordinator)
      → Settled id services c
      → Settled id services (cancel_each services tasks c)
  unfolding cancel_each
  Settled-cancel_each [] c h = h
  Settled-cancel_each (task ∷ tasks) c h =
      Settled-cancel_each tasks (cancel services task.task_id c) (Settled-cancel task.task_id c h)

  Settled-cancel_all :
      (c : Coordinator) → Settled id services c → Settled id services (cancel_all services c).1
  unfolding cancel_all
  Settled-cancel_all c h =
      Settled-try_start_waiting id services (cancel_each services (Registry.active c.registry) c)
        (Settled-cancel_each (Registry.active c.registry) c h)

  module _ (message_id reply decision message_to_user note : String) where
    Settled-reply_to :
        (message : MailboxMessage) (q : Option Question) (c : Coordinator)
        → Settled id services c
        → Settled id services
            (reply_to services message_id message q reply decision message_to_user note c).1
    unfolding reply_to
    Settled-reply_to message none c h = h
    Settled-reply_to message (some q) c h =
        Settled-deliver id services message q reply decision note c h

    Settled-reply_to_found :
        (found : Option MailboxMessage) (c : Coordinator)
        → Settled id services c
        → Settled id services
            (reply_to_found services message_id found reply decision message_to_user note c).1
    unfolding reply_to_found
    Settled-reply_to_found none c h = h
    Settled-reply_to_found (some message) c h = elim (Bool-cases (awaits_reply message)) [
      | inl waits ↦
          rw waits (Settled-reply_to message (question_from_message services.python message) c h)
      | inr settled ↦ rw settled h
    ]

    Settled-reply_mailbox_message :
        (c : Coordinator)
        → Settled id services c
        → Settled id services
            (reply_mailbox_message services message_id reply decision message_to_user note c).1
    unfolding reply_mailbox_message
    Settled-reply_mailbox_message c h =
        elim (Bool-cases (contains ("approved" ∷ "denied" ∷ "none" ∷ []) decision)) [
          | inl valid ↦ rw valid (Settled-reply_to_found (Store.get c.mailbox message_id) c h)
          | inr invalid ↦ rw invalid h
        ]

settled-obey :
    (id : String) (command : UserCommand) (c : Coordinator)
    → waits_for_reply c.mailbox id ≡ false
    → waits_for_reply (obey command c).mailbox id ≡ false
settled-obey id (UserCommand.replies services message_id reply decision message_to_user note) c h =
    Settled-reply_mailbox_message id services message_id reply decision message_to_user note c h
settled-obey id (UserCommand.cancels services task_id) c h =
    Settled-cancel_task id services task_id c h
settled-obey id (UserCommand.cancels_current services) c h = Settled-cancel_current id services c h
settled-obey id (UserCommand.cancels_all services) c h = Settled-cancel_all id services c h

pub settled-obey_all :
    (id : String) (commands : List UserCommand) (c : Coordinator)
    → waits_for_reply c.mailbox id ≡ false
    → waits_for_reply (obey_all commands c).mailbox id ≡ false
settled-obey_all id [] c h = h
settled-obey_all id (command ∷ commands) c h =
    settled-obey_all id commands (obey command c) (settled-obey id command c h)
