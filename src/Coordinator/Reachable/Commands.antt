-- ===== src/Coordinator/Reachable/Commands.antt =====
-- Cancellations, the user's answers and the scheduler's decisions leave the files with what they changed.
use xiao_ming.Prelude.{
  String, Bool, true, false, refl, Option, none, some, List, [], ◌∷◌, ◌==◌, if◌then◌else◌,
  Bool-cases, Option-cases, inl, inr, strip, contains,
}
use xiao_ming.Prelude.Dict
use xiao_ming.Tasks.Status.{is_terminal, running}
use xiao_ming.Tasks.Spec.{TaskSpec, spec_of}
use xiao_ming.Tasks.Record.{TaskRecord}
use xiao_ming.Tasks.Registry
use xiao_ming.Coordinator.Events.{Question}
use xiao_ming.Coordinator.State.{
  Coordinator, append_user_message, answer_question, notice_text, persist,
}
use xiao_ming.Coordinator.Services.{Services}
use xiao_ming.Coordinator.Cancel.{
  cancel, cancel_found, cancel_task, cancel_known, cancel_current, cancel_each, cancel_all,
}
use xiao_ming.Mailbox.Message.{MailboxMessage}
use xiao_ming.Mailbox.Store
use xiao_ming.Mailbox.Views.{awaits_reply}
use xiao_ming.Coordinator.Commands.{
  change_task, answered_mailbox, answer_task, deliver, reply_to, reply_to_found,
  reply_mailbox_message, question_from_message,
}
use xiao_ming.Coordinator.Scheduler.{DecisionAction, SchedulerDecision}
use xiao_ming.Coordinator.Decisions.{
  new_task, task_of, add_started, attach, apply_action, apply_decision, not_empty,
}
use xiao_ming.Coordinator.Reachable.Saved.{
  IsSaved, IsSaved-send_to_worker, IsSaved-try_start_waiting,
}

module _ (services : Services) where
  IsSaved-cancel_found :
      (task : TaskRecord) (c : Coordinator) → IsSaved (cancel_found services task c)
  unfolding cancel_found
  IsSaved-cancel_found task c = (refl, refl)

  IsSaved-cancel :
      (task_id : String) (c : Coordinator) → IsSaved c → IsSaved (cancel services task_id c)
  unfolding cancel
  IsSaved-cancel task_id c h = elim (Option-cases (Dict.get c.registry.tasks task_id)) [
    | inl unknown ↦ rw (cancel, unknown) h
    | inr (task, there) ↦ rw (cancel, there) (IsSaved-cancel_found task c)
  ]

  IsSaved-cancel_known :
      (task_id : String) (found : Option TaskRecord) (c : Coordinator)
      → IsSaved c
      → IsSaved (cancel_known services task_id found c).1
  unfolding cancel_known
  IsSaved-cancel_known task_id none c h = h
  IsSaved-cancel_known task_id (some task) c h = elim (Bool-cases (is_terminal task.status)) [
    | inl ended ↦ rw ended h
    | inr active ↦ rw active (
        IsSaved-try_start_waiting services (cancel services task_id c) (IsSaved-cancel task_id c h))
  ]

  pub IsSaved-cancel_task :
      (task_id : String) (c : Coordinator) → IsSaved c → IsSaved (cancel_task services task_id c).1
  unfolding cancel_task
  IsSaved-cancel_task task_id c h = elim (Bool-cases (strip task_id == "")) [
    | inl blank ↦ rw blank h
    | inr named ↦
        rw named
          (IsSaved-cancel_known (strip task_id) (Dict.get c.registry.tasks (strip task_id)) c h)
  ]

  pub IsSaved-cancel_current : (c : Coordinator) → IsSaved c → IsSaved (cancel_current services c).1
  unfolding cancel_current
  IsSaved-cancel_current c h = elim (Option-cases (Registry.current c.registry)) [
    | inl nothing ↦ rw (cancel_current, nothing) h
    | inr (task, there) ↦
        rw (cancel_current, there)
          (IsSaved-try_start_waiting services (cancel services task.task_id c)
            (IsSaved-cancel task.task_id c h))
  ]

  IsSaved-cancel_each :
      (tasks : List TaskRecord) (c : Coordinator)
      → IsSaved c
      → IsSaved (cancel_each services tasks c)
  unfolding cancel_each
  IsSaved-cancel_each [] c h = h
  IsSaved-cancel_each (task ∷ tasks) c h =
      IsSaved-cancel_each tasks (cancel services task.task_id c) (IsSaved-cancel task.task_id c h)

  pub IsSaved-cancel_all : (c : Coordinator) → IsSaved c → IsSaved (cancel_all services c).1
  unfolding cancel_all
  IsSaved-cancel_all c h =
      IsSaved-try_start_waiting services (cancel_each services (Registry.active c.registry) c)
        (IsSaved-cancel_each (Registry.active c.registry) c h)

  IsSaved-deliver :
      (message : MailboxMessage) (q : Question) (reply decision note : String) (c : Coordinator)
      → IsSaved (deliver services message q reply decision note c)
  unfolding deliver
  IsSaved-deliver message q reply decision note c =
      let answered = answered_mailbox services message reply decision c in
      let changed =
        change_task (answer_task services message q reply decision note answered)
          (Dict.get c.registry.tasks message.task_id) answered in
      IsSaved-send_to_worker q.task_id (answer_question q.request_id reply decision)
        (persist changed) (refl, refl)

  module _ (message_id reply decision message_to_user note : String) where
    IsSaved-reply_to :
        (message : MailboxMessage) (q : Option Question) (c : Coordinator)
        → IsSaved c
        → IsSaved (reply_to services message_id message q reply decision message_to_user note c).1
    unfolding reply_to
    IsSaved-reply_to message none c h = h
    IsSaved-reply_to message (some q) c h = IsSaved-deliver message q reply decision note c

    IsSaved-reply_to_found :
        (found : Option MailboxMessage) (c : Coordinator)
        → IsSaved c
        → IsSaved (reply_to_found services message_id found reply decision message_to_user note c).1
    unfolding reply_to_found
    IsSaved-reply_to_found none c h = h
    IsSaved-reply_to_found (some message) c h = elim (Bool-cases (awaits_reply message)) [
      | inl waits ↦
          rw waits (IsSaved-reply_to message (question_from_message services.python message) c h)
      | inr settled ↦ rw settled h
    ]

    pub IsSaved-reply_mailbox_message :
        (c : Coordinator)
        → IsSaved c
        → IsSaved
            (reply_mailbox_message services message_id reply decision message_to_user note c).1
    unfolding reply_mailbox_message
    IsSaved-reply_mailbox_message c h =
        elim (Bool-cases (contains ("approved" ∷ "denied" ∷ "none" ∷ []) decision)) [
          | inl valid ↦ rw valid (IsSaved-reply_to_found (Store.get c.mailbox message_id) c h)
          | inr invalid ↦ rw invalid h
        ]

  IsSaved-add_started :
      (task : TaskRecord) (c : Coordinator) → IsSaved (add_started services task c)
  unfolding add_started
  IsSaved-add_started task c = (refl, refl)

  IsSaved-attach :
      (content task_id : String) (c : Coordinator)
      → IsSaved c
      → IsSaved (attach services content task_id c)
  unfolding attach
  IsSaved-attach content task_id c h = elim (Option-cases (Dict.get c.registry.tasks task_id)) [
    | inl unknown ↦
        rw (attach, unknown) (IsSaved-send_to_worker task_id (append_user_message content) c h)
    | inr (task, there) ↦ rw (attach, there) (refl, refl)
  ]

  IsSaved-apply_action :
      (action : DecisionAction) (target : Option String) (content : String)
      (decision : SchedulerDecision) (task_spec : Option TaskSpec) (c : Coordinator)
      → IsSaved c
      → IsSaved (apply_action action target services content decision task_spec c)
  unfolding apply_action
  IsSaved-apply_action DecisionAction.start_new_task target content decision task_spec c h =
      IsSaved-add_started (task_of services content decision task_spec running) c
  IsSaved-apply_action DecisionAction.queue_task target content decision task_spec c h =
      (refl, refl)
  IsSaved-apply_action DecisionAction.attach_to_task (some task_id) content decision task_spec c h =
      IsSaved-attach content task_id c h
  IsSaved-apply_action DecisionAction.attach_to_task none content decision task_spec c h = h
  IsSaved-apply_action DecisionAction.cancel_and_restart (some task_id) content decision task_spec c
        h =
      IsSaved-add_started
        (new_task services decision.task_title content decision.user_intent
          (spec_of decision.task_title decision.user_intent) running)
        (cancel services task_id c)
  IsSaved-apply_action DecisionAction.cancel_and_restart none content decision task_spec c h = h
  IsSaved-apply_action DecisionAction.ask_user target content decision task_spec c h = h
  IsSaved-apply_action DecisionAction.reject_duplicate target content decision task_spec c h = h
  IsSaved-apply_action DecisionAction.chat_reply target content decision task_spec c h = h

  IsSaved-told :
      (b : Bool) (message : String) (c : Coordinator)
      → IsSaved c
      → IsSaved (if b then notice_text message c else c)
  IsSaved-told false message c h = h
  IsSaved-told true message c h = elim (Bool-cases (message == "")) [
    | inl nothing ↦ rw nothing h
    | inr something ↦ rw something h
  ]

  pub IsSaved-apply_decision :
      (content : String) (decision : SchedulerDecision) (emit_visible : Bool)
      (task_spec : Option TaskSpec) (c : Coordinator)
      → IsSaved c
      → IsSaved (apply_decision services content decision emit_visible task_spec c)
  unfolding apply_decision
  IsSaved-apply_decision content decision emit_visible task_spec c h =
      IsSaved-apply_action decision.action (not_empty decision.target_task_id) content decision
        task_spec (if emit_visible then notice_text decision.visible_message c else c)
        (IsSaved-told emit_visible decision.visible_message c h)
