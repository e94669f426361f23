-- ===== src/Mailbox/Message.antt =====
-- MailboxMessage of async_runtime/mailbox.py. The time is an argument wherever the code reads it.
pub mod RoundTrip
use xiao_ming.Prelude.{
  ℕ, suc, ◌+◌, String, Bool, true, false, not, Option, none, some, List, [], ◌∷◌, ◌==◌,
  if◌then◌else◌, Result, ok, error, ◌>>=◌,
}
use xiao_ming.Json
use xiao_ming.Json.{
  Value, null, bool, num, str, obj, Fields, end, dict, Python, text, text_or, optional_text,
  int_or_zero, truth, of_option,
}

pub data MailboxKind : Type 0 where
  approval_request clarification_request decision_request progress result review : MailboxKind

pub data MailboxStatus : Type 0 where
  pending answered cancelled dismissed : MailboxStatus

abbrev pub kind_text : MailboxKind → String
kind_text approval_request = "approval_request"
kind_text clarification_request = "clarification_request"
kind_text decision_request = "decision_request"
kind_text progress = "progress"
kind_text result = "result"
kind_text review = "review"

abbrev pub status_text : MailboxStatus → String
status_text pending = "pending"
status_text answered = "answered"
status_text cancelled = "cancelled"
status_text dismissed = "dismissed"

abbrev pub kind_of : String → MailboxKind
kind_of s =
    if s == "approval_request"
    then approval_request
    else if s == "clarification_request"
    then clarification_request
    else if s == "decision_request"
    then decision_request
    else if s == "result"
    then result
    else if s == "review"
    then review
    else progress

abbrev pub status_of : String → MailboxStatus
status_of s =
    if s == "answered"
    then answered
    else if s == "cancelled"
    then cancelled
    else if s == "dismissed"
    then dismissed
    else pending

abbrev pub is_pending : MailboxStatus → Bool
is_pending pending = true
is_pending _ = false

-- The kinds that ask the user something.
abbrev pub is_question : MailboxKind → Bool
is_question approval_request = true
is_question clarification_request = true
is_question decision_request = true
is_question _ = false

pub record MailboxMessage : Type 0 where
  pub task_id : String
  pub from_role : String
  pub to_role : String
  pub kind : MailboxKind
  pub content : String
  pub requires_reply : Bool
  pub worker_id : Option String
  pub status : MailboxStatus
  pub message_id : String
  pub created_at : String
  pub updated_at : String
  pub reply : Option String
  pub presented_count : ℕ
  pub last_presented_at : Option String
  pub metadata : Fields

-- MailboxMessage.answer
unfoldable pub answer : String → String → MailboxMessage → MailboxMessage
answer now reply message =
    if is_pending message.status
    then record message { status = answered; reply = some reply; updated_at = now }
    else message

-- MailboxMessage.cancel
unfoldable pub cancel : String → MailboxMessage → MailboxMessage
cancel now message =
    if is_pending message.status
    then record message { status = cancelled; updated_at = now }
    else message

-- MailboxMessage.dismiss
unfoldable pub dismiss : String → MailboxMessage → MailboxMessage
dismiss now message =
    if is_pending message.status
    then record message { status = dismissed; updated_at = now }
    else message

-- at or _now()
abbrev pub at_or_now : Option String → String → String
at_or_now none now = now
at_or_now (some at) now = if at == "" then now else at

-- MailboxMessage.mark_presented
unfoldable pub mark_presented : String → Option String → MailboxMessage → MailboxMessage
mark_presented now at message = record message {
  presented_count = message.presented_count + 1;
  last_presented_at = some (at_or_now at now);
  updated_at = now;
}

-- MailboxMessage.to_dict
unfoldable pub to_dict : MailboxMessage → Fields
to_dict m = dict (
    ("message_id", str m.message_id)
    ∷ ("task_id", str m.task_id)
    ∷ ("worker_id", of_option m.worker_id)
    ∷ ("from_role", str m.from_role)
    ∷ ("to_role", str m.to_role)
    ∷ ("kind", str (kind_text m.kind))
    ∷ ("content", str m.content)
    ∷ ("requires_reply", bool m.requires_reply)
    ∷ ("status", str (status_text m.status))
    ∷ ("created_at", str m.created_at)
    ∷ ("updated_at", str m.updated_at)
    ∷ ("reply", of_option m.reply)
    ∷ ("presented_count", num m.presented_count)
    ∷ ("last_presented_at", of_option m.last_presented_at)
    ∷ ("metadata", obj m.metadata)
    ∷ [])

abbrev fields_of : Option Value → Fields
fields_of (some (obj fs)) = fs
fields_of _ = end

module _ (python : Python) where
  -- MailboxMessage.from_dict, with the new id and the time that it takes where they are missing
  unfoldable pub from_dict : String → String → Fields → Result MailboxMessage
  from_dict new_id now fields = do
    presented_count ← int_or_zero python (Json.get fields "presented_count")
    ok (record {
      task_id = text_or python (Json.get fields "task_id") "";
      from_role = text_or python (Json.get fields "from_role") "";
      to_role = text_or python (Json.get fields "to_role") "";
      kind = kind_of (text_or python (Json.get fields "kind") "");
      content = text_or python (Json.get fields "content") "";
      requires_reply = truth (Json.get fields "requires_reply");
      worker_id = optional_text python (Json.get fields "worker_id");
      status = status_of (text_or python (Json.get fields "status") "");
      message_id = text_or python (Json.get fields "message_id") new_id;
      created_at = text_or python (Json.get fields "created_at") now;
      updated_at = text_or python (Json.get fields "updated_at") now;
      reply = optional_text python (Json.get fields "reply");
      presented_count = presented_count;
      last_presented_at = optional_text python (Json.get fields "last_presented_at");
      metadata = fields_of (Json.get fields "metadata");
    })
