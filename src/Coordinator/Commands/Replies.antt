-- ===== src/Coordinator/Commands/Replies.antt =====
-- A question is answered once: the first answer that is accepted settles its message.
use xiao_ming.Prelude.{
  String, Bool, true, false, ◌≡◌, refl, sym, ap, ◌∙◌, some, List, [], ◌∷◌, contains, Bool-cases,
  Option-cases, inl, inr, eq_refl,
}
use xiao_ming.Prelude.Dict
use xiao_ming.Json.{str}
use xiao_ming.Mailbox.Message.{MailboxMessage, is_pending, answer}
use xiao_ming.Mailbox.Store
use xiao_ming.Mailbox.Store.{MailboxStore}
use xiao_ming.Mailbox.Views.{awaits_reply}
use xiao_ming.Coordinator.Events.{Question}
use xiao_ming.Coordinator.State.{Coordinator}
use xiao_ming.Coordinator.Services.{Services}
use xiao_ming.Coordinator.Questions.{put_field}
use xiao_ming.Coordinator.Cancel.{ToolResult, success, failure}
use xiao_ming.Coordinator.Commands.Settled.{waits_for_reply, mailbox-deliver}
use xiao_ming.Coordinator.Commands.Later.{UserCommand, obey_all, settled-obey_all}
use xiao_ming.Coordinator.Commands.{
  question_from_message, deliver, reply_to, reply_to_found, reply_mailbox_message,
}

abbrev pub is_failure : ToolResult → Bool
is_failure (failure e) = true
is_failure (success s) = false

module _ (services : Services) (message_id reply decision message_to_user note : String) where
  -- Where no message under the id waits for a reply, the call fails and changes nothing.
  refused :
      (c : Coordinator)
      → waits_for_reply c.mailbox message_id ≡ false
      → (is_failure
            (reply_mailbox_message services message_id reply decision message_to_user note c).0
          ≡ true)
        × ((reply_mailbox_message services message_id reply decision message_to_user note c).1 ≡ c)
  unfolding reply_mailbox_message reply_to_found
  refused c settled = elim (Bool-cases (contains ("approved" ∷ "denied" ∷ "none" ∷ []) decision)) [
    | inr invalid ↦ rw invalid (refl, refl)
    | inl valid ↦ elim (Option-cases (Store.get c.mailbox message_id)) [
      | inl missing ↦ rw (valid, missing) (refl, refl)
      | inr (message, there) ↦
          let done : awaits_reply message ≡ false =
            sym (rw (waits_for_reply, there) refl) ∙ settled in
          rw (valid, there, done) (refl, refl)
    ]
  ]

get-change :
    (f : MailboxMessage → MailboxMessage) (message_id : String) (message : MailboxMessage)
    (store : MailboxStore)
    → Store.get store message_id ≡ some message
    → Store.get (Store.change f message_id store) message_id ≡ some (f message)
unfolding Store.get Store.change
get-change f message_id message store there =
    rw there
      (Dict.get-put store.messages message_id (f message) message_id ∙ rw (eq_refl message_id) refl)

answer-settles :
    (now reply : String) (message : MailboxMessage)
    → is_pending (answer now reply message).status ≡ false
unfolding answer
answer-settles now reply message = elim (Bool-cases (is_pending message.status)) [
  | inl open_one ↦ rw open_one refl
  | inr settled ↦ rw settled settled
]

settled_message :
    (store : MailboxStore) (message_id : String) (message : MailboxMessage)
    → Store.get store message_id ≡ some message
    → is_pending message.status ≡ false
    → waits_for_reply store message_id ≡ false
settled_message store message_id message there settled = rw (waits_for_reply, there, settled) refl

module _ (services : Services) (message_id : String)
    (reply decision message_to_user note : String) where
  delivered :
      (message : MailboxMessage) (q : Question) (c : Coordinator)
      → Store.get c.mailbox message_id ≡ some message
      → message.message_id ≡ message_id
      → waits_for_reply (deliver services message q reply decision note c).mailbox message_id
        ≡ false
  delivered message q c there named =
      let mark = λ (m : MailboxMessage). record m {
        metadata = put_field "decision" (str decision) m.metadata;
      } in
      let replied = Store.change (answer services.now reply) message.message_id c.mailbox in
      let marked = Store.change mark message.message_id replied in
      let at : Store.get c.mailbox message.message_id ≡ some message =
        ap (Store.get c.mailbox) named ∙ there in
      let after : Store.get marked message.message_id
          ≡ some (mark (answer services.now reply message)) =
        get-change mark message.message_id (answer services.now reply message) replied
          (get-change (answer services.now reply) message.message_id message c.mailbox at) in
      ap (λ store. waits_for_reply store message_id)
        (mailbox-deliver services reply decision note message q c)
      ∙ settled_message marked message_id (mark (answer services.now reply message))
          (ap (Store.get marked) (sym named) ∙ after) (answer-settles services.now reply message)

  settles :
      (message : MailboxMessage) (c : Coordinator)
      → Store.get c.mailbox message_id ≡ some message
      → message.message_id ≡ message_id
      → is_failure
          (reply_mailbox_message services message_id reply decision message_to_user note c).0
        ≡ false
      → waits_for_reply
          (reply_mailbox_message services message_id reply decision message_to_user note
            c).1.mailbox
          message_id
        ≡ false
  unfolding reply_mailbox_message reply_to_found reply_to
  settles message c there named =
      elim (Bool-cases (contains ("approved" ∷ "denied" ∷ "none" ∷ []) decision)) [
        | inr invalid ↦ rw invalid (λ accepted. absurd (cc))
        | inl valid ↦ elim (Bool-cases (awaits_reply message)) [
          | inr settled ↦ rw (valid, there, settled) (λ accepted. absurd (cc))
          | inl waits ↦ elim (Option-cases (question_from_message services.python message)) [
            | inl nothing ↦ rw (valid, there, waits, nothing) (λ accepted. absurd (cc))
            | inr (q, asked) ↦
                rw (valid, there, waits, asked) (λ accepted. delivered message q c there named)
          ]
        ]
      ]

  -- Once an answer to the message under an id is accepted, every later answer to it is refused and changes
  -- nothing, whatever answers to any messages and cancellations of tasks the user gives between the two, where the mailbox holds
  -- the message under its own id.
  pub reply_mailbox_message-once :
      (message : MailboxMessage) (c : Coordinator)
      → Store.get c.mailbox message_id ≡ some message
      → message.message_id ≡ message_id
      → is_failure
          (reply_mailbox_message services message_id reply decision message_to_user note c).0
        ≡ false
      → (between : List UserCommand) (later : Services)
        (reply' decision' message_to_user' note' : String)
      → let after =
          obey_all between
            (reply_mailbox_message services message_id reply decision message_to_user note c).1 in
        (is_failure
            (reply_mailbox_message later message_id reply' decision' message_to_user' note' after).0
          ≡ true)
        × ((reply_mailbox_message later message_id reply' decision' message_to_user' note' after).1
            ≡ after)
  reply_mailbox_message-once message c there named accepted between later reply' decision'
        message_to_user' note' =
      let first =
        (reply_mailbox_message services message_id reply decision message_to_user note c).1 in
      refused later message_id reply' decision' message_to_user' note' (obey_all between first)
        (settled-obey_all message_id between first (settles message c there named accepted))
