-- ===== src/Coordinator/Commands/Settled.antt =====
-- A message that no longer waits for a reply: what the user does later leaves it so.
use xiao_ming.Prelude.{
  String, Bool, false, ◌≡◌, refl, sym, ap, ◌∙◌, Option, none, some, List, [], ◌∷◌, ◌&&◌, ◌==◌,
  contains, any, concat, subst, Bool-cases, Option-cases, inl, inr, eq_iff,
}
use xiao_ming.Prelude.Dict
use xiao_ming.Json.{str}
use xiao_ming.Tasks.Status.{running}
use xiao_ming.Tasks.Record.{TaskRecord, transition}
use xiao_ming.Tasks.Registry
use xiao_ming.Mailbox.Message.{MailboxMessage, is_pending, answer}
use xiao_ming.Mailbox.Message
use xiao_ming.Mailbox.Store
use xiao_ming.Mailbox.Store.{MailboxStore}
use xiao_ming.Mailbox.Views.{awaits_reply}
use xiao_ming.Coordinator.Events.{Question}
use xiao_ming.Coordinator.State.{
  Coordinator, WorkerMessage, terminate, answer_question, store_task, notice_text, send_to_worker,
  persist,
}
use xiao_ming.Coordinator.Services.{Services}
use xiao_ming.Coordinator.Start.{
  should_use_codex, prepare_worker_task, record_codex, start_worker, blocks, start_waiting,
  start_first, try_start_waiting,
}
use xiao_ming.Coordinator.Questions.{put_field}
use xiao_ming.Coordinator.Cancel.{terminate_verifiers, cancel_found}
use xiao_ming.Coordinator.Commands.{change_task, answered_mailbox, answer_task, deliver}

-- The message under an id waits for a reply.
abbrev pub waits_for_reply : MailboxStore → String → Bool
waits_for_reply store message_id = elim (Store.get store message_id) [
  | none ↦ false
  | some m ↦ awaits_reply m
]

still-answer :
    (now reply : String) (m : MailboxMessage)
    → awaits_reply m ≡ false
    → awaits_reply (answer now reply m) ≡ false
unfolding answer
still-answer now reply m h = elim (Bool-cases (is_pending m.status)) [
  | inl waits ↦ rw waits refl
  | inr settled ↦ rw (settled, settled) refl
]

still-cancel_if :
    (now task_id : String) (m : MailboxMessage)
    → awaits_reply m ≡ false
    → awaits_reply (Store.cancel_if now task_id m) ≡ false
unfolding Message.cancel
still-cancel_if now task_id m h = elim (Bool-cases (m.task_id == task_id)) [
  | inr other ↦ rw other h
  | inl its ↦ elim (Bool-cases (is_pending m.status)) [
    | inl waits ↦ rw (its, waits) refl
    | inr settled ↦ rw (its, settled, settled) refl
  ]
]

-- A change that makes no message wait keeps those that do not.
module _ (id : String) where
  abbrev IsSettled : MailboxStore → Type 0
  IsSettled store = waits_for_reply store id ≡ false

  IsSettled-change :
      (f : MailboxMessage → MailboxMessage) (key : String) (store : MailboxStore)
      → ((m : MailboxMessage) → awaits_reply m ≡ false → awaits_reply (f m) ≡ false)
      → IsSettled store
      → IsSettled (Store.change f key store)
  unfolding Store.change Store.get
  IsSettled-change f key store keeps h = elim (Option-cases (Dict.get store.messages key)) [
    | inl missing ↦ rw missing h
    | inr (m, there) ↦
        rw (there, waits_for_reply, Dict.get-put store.messages key (f m) id)
          (elim (Bool-cases (key == id)) [
            | inl same ↦ rw same (
                keeps m (
                  sym (
                    rw
                      (
                        waits_for_reply,
                        ap (Dict.get store.messages) (sym ((eq_iff key id).0 same)) ∙ there,
                      )
                      refl)
                  ∙ h))
            | inr other ↦ rw other h
          ])
  ]

  IsSettled-cancel_each :
      (now task_id : String) (order : List String) (store : MailboxStore)
      → IsSettled store
      → IsSettled (Store.cancel_each now task_id order store)
  unfolding Store.cancel_each
  IsSettled-cancel_each now task_id [] store h = h
  IsSettled-cancel_each now task_id (key ∷ order) store h =
      IsSettled-cancel_each now task_id order (Store.change (Store.cancel_if now task_id) key store)
        (IsSettled-change (Store.cancel_if now task_id) key store (still-cancel_if now task_id) h)

mailbox-send_to_worker :
    (task_id : String) (message : WorkerMessage) (c : Coordinator)
    → (send_to_worker task_id message c).mailbox ≡ c.mailbox
unfolding send_to_worker
mailbox-send_to_worker task_id message c = elim (Bool-cases (contains c.workers task_id)) [
  | inl present ↦ rw present refl
  | inr gone ↦ rw gone refl
]

mailbox-change_task :
    (f : TaskRecord → TaskRecord) (found : Option TaskRecord) (c : Coordinator)
    → (change_task f found c).mailbox ≡ c.mailbox
mailbox-change_task f none c = refl
mailbox-change_task f (some task) c = refl

mailbox-notice_text :
    (message : String) (c : Coordinator) → (notice_text message c).mailbox ≡ c.mailbox
mailbox-notice_text message c = elim (Bool-cases (message == "")) [
  | inl nothing ↦ rw nothing refl
  | inr something ↦ rw something refl
]

module _ (services : Services) where
  mailbox-start_worker :
      (task : TaskRecord) (c : Coordinator) → (start_worker services task c).mailbox ≡ c.mailbox
  unfolding start_worker record_codex
  mailbox-start_worker task c =
      elim (Bool-cases (c.uses_default_worker_factory && should_use_codex task)) [
        | inl codex ↦ rw codex refl
        | inr other ↦ rw other refl
      ]

  mailbox-start_waiting :
      (task : TaskRecord) (c : Coordinator) → (start_waiting services task c).mailbox ≡ c.mailbox
  unfolding start_waiting
  mailbox-start_waiting task c =
      let ready =
        transition services.now running (some "等待结束，重新启动。") (record task { conflicts_with = [] }) in
      let message = concat (task.title ∷ "：waiting task is ready to start" ∷ []) in
      let told = notice_text message (store_task ready c) in
      mailbox-start_worker (prepare_worker_task services told ready) told
      ∙ mailbox-notice_text message (store_task ready c)

  mailbox-start_first :
      (tasks : List TaskRecord) (c : Coordinator)
      → (start_first services tasks c).mailbox ≡ c.mailbox
  unfolding start_first
  mailbox-start_first [] c = refl
  mailbox-start_first (task ∷ tasks) c = elim (Bool-cases (any (blocks c) task.conflicts_with)) [
    | inl blocked ↦ rw blocked (mailbox-start_first tasks c)
    | inr free ↦ rw free (mailbox-start_waiting task c)
  ]

  module _ (reply decision note : String) where
    pub mailbox-deliver :
        (message : MailboxMessage) (q : Question) (c : Coordinator)
        → (deliver services message q reply decision note c).mailbox
          ≡ Store.change
              (λ m. record m { metadata = put_field "decision" (str decision) m.metadata })
              message.message_id
              (Store.change (answer services.now reply) message.message_id c.mailbox)
    unfolding deliver answered_mailbox Store.reply
    mailbox-deliver message q c =
        let answered = answered_mailbox services message reply decision c in
        let found = Dict.get c.registry.tasks message.task_id in
        let changed =
          change_task (answer_task services message q reply decision note answered) found
            answered in
        mailbox-send_to_worker q.task_id (answer_question q.request_id reply decision)
          (persist changed)
        ∙ mailbox-change_task (answer_task services message q reply decision note answered) found
            answered

module _ (id : String) (services : Services) where
  abbrev pub Settled : Coordinator → Type 0
  Settled c = IsSettled id c.mailbox

  Settled-same : (c d : Coordinator) → d.mailbox ≡ c.mailbox → Settled c → Settled d
  Settled-same c d same h = subst (IsSettled id) (sym same) h

  pub Settled-cancel_found :
      (task : TaskRecord) (c : Coordinator) → Settled c → Settled (cancel_found services task c)
  unfolding cancel_found terminate_verifiers Store.cancel_task_messages
  Settled-cancel_found task c h =
      let cleared = record c {
        mailbox = Store.cancel_task_messages services.now task.task_id c.mailbox;
      } in
      Settled-same cleared (cancel_found services task c)
        (mailbox-send_to_worker task.task_id terminate cleared)
        (IsSettled-cancel_each id services.now task.task_id c.mailbox.order c.mailbox h)

  pub Settled-try_start_waiting :
      (c : Coordinator) → Settled c → Settled (try_start_waiting services c)
  unfolding try_start_waiting
  Settled-try_start_waiting c h =
      Settled-same c (try_start_waiting services c)
        (mailbox-start_first services (Registry.waiting c.registry) c) h

  pub Settled-deliver :
      (message : MailboxMessage) (q : Question) (reply decision note : String) (c : Coordinator)
      → Settled c
      → Settled (deliver services message q reply decision note c)
  Settled-deliver message q reply decision note c h =
      let mark = λ (m : MailboxMessage). record m {
        metadata = put_field "decision" (str decision) m.metadata;
      } in
      let replied = Store.change (answer services.now reply) message.message_id c.mailbox in
      subst (IsSettled id) (sym (mailbox-deliver services reply decision note message q c)) (
        IsSettled-change id mark message.message_id replied (λ m done. done)
          (IsSettled-change id (answer services.now reply) message.message_id c.mailbox
            (still-answer services.now reply) h))
