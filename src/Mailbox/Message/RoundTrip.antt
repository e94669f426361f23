-- ===== src/Mailbox/Message/RoundTrip.antt =====
-- A message is read back as it was written.
use xiao_ming.Prelude.{String, false, some, ◌==◌, ◌≡◌, refl, ok}
use xiao_ming.Json.{str, Python, text_or, text_or-str, optional_text-of_option}
use xiao_ming.Mailbox.Message.{
  MailboxKind, kind_text, kind_of, MailboxStatus, status_text, status_of, MailboxMessage, to_dict,
  from_dict,
}
use xiao_ming.Mailbox.Message

-- A message with an id and times.
abbrev pub IsComplete : MailboxMessage → Type 0
IsComplete m =
    ((m.message_id == "") ≡ false) × ((m.created_at == "") ≡ false) × ((m.updated_at == "") ≡ false)

module _ (python : Python) where
  or-eq : (s d : String) → (s == "") ≡ false → text_or python (some (str s)) d ≡ s
  or-eq s d h = rw h

  kind-eq : (k : MailboxKind) → kind_of (text_or python (some (str (kind_text k))) "") ≡ k
  kind-eq Message.approval_request = refl
  kind-eq Message.clarification_request = refl
  kind-eq Message.decision_request = refl
  kind-eq Message.progress = refl
  kind-eq Message.result = refl
  kind-eq Message.review = refl

  status-eq : (s : MailboxStatus) → status_of (text_or python (some (str (status_text s))) "") ≡ s
  status-eq Message.pending = refl
  status-eq Message.answered = refl
  status-eq Message.cancelled = refl
  status-eq Message.dismissed = refl

  -- A message that has an id and its times is read back from its dict as it was, with its reply, its
  -- status and its presentations, and neither a new id nor the time of the reading goes into it.
  pub from-to_dict :
      (new_id now : String) (m : MailboxMessage)
      → IsComplete m
      → from_dict python new_id now (to_dict m) ≡ ok m
  unfolding from_dict to_dict
  from-to_dict new_id now m complete = λ i. ok (record {
    task_id = text_or-str python m.task_id i;
    from_role = text_or-str python m.from_role i;
    to_role = text_or-str python m.to_role i;
    kind = kind-eq m.kind i;
    content = text_or-str python m.content i;
    requires_reply = m.requires_reply;
    worker_id = optional_text-of_option python m.worker_id i;
    status = status-eq m.status i;
    message_id = or-eq m.message_id new_id complete.0 i;
    created_at = or-eq m.created_at now complete.1 i;
    updated_at = or-eq m.updated_at now complete.2 i;
    reply = optional_text-of_option python m.reply i;
    presented_count = m.presented_count;
    last_presented_at = optional_text-of_option python m.last_presented_at i;
    metadata = m.metadata;
  })
