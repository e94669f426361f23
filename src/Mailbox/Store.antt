-- ===== src/Mailbox/Store.antt =====
-- MailboxStore of async_runtime/mailbox.py: its methods that change messages. The uuid of a new
-- message and the time are arguments.
pub mod Order
pub mod Methods
pub mod Snapshot
use xiao_ming.Prelude.{
  ℕ, suc, zero, String, Bool, true, false, not, ◌&&◌, Option, none, some, List, [], ◌∷◌, ◌++◌, map,
  ◌==◌, if◌then◌else◌, Result, ok, error,
}
use xiao_ming.Prelude.Dict
use xiao_ming.Prelude.Dict.{Dict}
use xiao_ming.Json.{Value, arr, obj, Fields, Python, to_list}
use xiao_ming.Mailbox.Message.{
  MailboxKind, pending, is_pending, MailboxMessage, answer, cancel, to_dict, from_dict,
}
use xiao_ming.Mailbox.Message

pub record MailboxStore : Type 0 where
  pub messages : Dict MailboxMessage
  pub order : List String

abbrev pub empty : MailboxStore
empty = record { messages = []; order = [] }

abbrev store_message : MailboxStore → MailboxMessage → MailboxStore
store_message store message = record {
  messages = Dict.put store.messages message.message_id message;
  order = store.order ++ message.message_id ∷ [];
}

-- MailboxMessage(...) with the defaults of the fields that create_message does not set
unfoldable pub new_message :
    String
    → String
    → String
    → String
    → String
    → MailboxKind
    → String
    → Bool
    → Option String
    → Fields
    → MailboxMessage
new_message new_id now task_id from_role to_role kind content requires_reply worker_id metadata =
    record {
      task_id = task_id;
      from_role = from_role;
      to_role = to_role;
      kind = kind;
      content = content;
      requires_reply = requires_reply;
      worker_id = worker_id;
      status = pending;
      message_id = new_id;
      created_at = now;
      updated_at = now;
      reply = none;
      presented_count = 0;
      last_presented_at = none;
      metadata = metadata;
    }

-- MailboxStore.create_message
unfoldable pub create_message :
    String
    → String
    → String
    → String
    → String
    → MailboxKind
    → String
    → Bool
    → Option String
    → Fields
    → MailboxStore
    → MailboxMessage × MailboxStore
unfolding new_message
create_message new_id now task_id from_role to_role kind content requires_reply worker_id metadata
      store =
    let message =
      new_message new_id now task_id from_role to_role kind content requires_reply worker_id
        metadata in
    (message, store_message store message)

-- MailboxStore.get
unfoldable pub get : MailboxStore → String → Option MailboxMessage
get store message_id = Dict.get store.messages message_id

abbrev add_if_there : Option MailboxMessage → List MailboxMessage → List MailboxMessage
add_if_there none rest = rest
add_if_there (some m) rest = m ∷ rest

unfoldable pub in_order : Dict MailboxMessage → List String → List MailboxMessage
in_order messages [] = []
in_order messages (message_id ∷ order) =
    add_if_there (Dict.get messages message_id) (in_order messages order)

-- MailboxStore.list
unfoldable pub list : MailboxStore → List MailboxMessage
list store = in_order store.messages store.order

-- MailboxStore.snapshot
unfoldable pub snapshot : MailboxStore → List Value
unfolding list
snapshot store = map (λ message. obj (to_dict message)) (list store)

-- The message under an id, changed in place.
abbrev pub change_found :
    (MailboxMessage → MailboxMessage) → String → Option MailboxMessage → MailboxStore → MailboxStore
change_found f message_id none store = store
change_found f message_id (some message) store = record store {
  messages = Dict.put store.messages message_id (f message);
}

unfoldable pub change : (MailboxMessage → MailboxMessage) → String → MailboxStore → MailboxStore
change f message_id store = change_found f message_id (Dict.get store.messages message_id) store

-- MailboxStore.reply
unfoldable pub reply : String → String → String → MailboxStore → MailboxStore
unfolding change
reply now message_id text store = change (answer now text) message_id store

-- MailboxStore.mark_presented
unfoldable pub mark_presented : String → String → Option String → MailboxStore → MailboxStore
unfolding change
mark_presented now message_id at store = change (Message.mark_presented now at) message_id store

abbrev pub cancel_if : String → String → MailboxMessage → MailboxMessage
cancel_if now task_id message = if message.task_id == task_id then cancel now message else message

unfoldable pub cancel_each : String → String → List String → MailboxStore → MailboxStore
unfolding change
cancel_each now task_id [] store = store
cancel_each now task_id (message_id ∷ order) store =
    cancel_each now task_id order (change (cancel_if now task_id) message_id store)

-- MailboxStore.cancel_task_messages: the store after it
unfoldable pub cancel_task_messages : String → String → MailboxStore → MailboxStore
unfolding cancel_each
cancel_task_messages now task_id store = cancel_each now task_id store.order store

module _ (python : Python) (uuid : ℕ → String) (now : String) where
  -- A message that was read, if it has its ids.
  abbrev load_message : Result MailboxMessage → MailboxStore → MailboxStore
  load_message (error e) store = store
  load_message (ok message) store =
      if message.task_id == ""
      then store
      else if message.message_id == ""
      then store
      else store_message store message

  abbrev load_item : ℕ → Value → MailboxStore → MailboxStore
  load_item n (obj fields) store = load_message (from_dict python (uuid n) now fields) store
  load_item n v store = store

  unfoldable pub load_items : ℕ → List Value → MailboxStore → MailboxStore
  load_items n [] store = store
  load_items n (item ∷ items) store = load_items (suc n) items (load_item n item store)

  -- MailboxStore.from_snapshot; the new id of the n-th item is `uuid n`
  unfoldable pub from_snapshot : Value → MailboxStore
  unfolding load_items
  from_snapshot (arr items) = load_items zero (to_list items) empty
  from_snapshot v = empty
