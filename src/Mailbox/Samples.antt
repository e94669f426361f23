-- ===== src/Mailbox/Samples.antt =====
-- The theorems on the mailbox, applied to a mailbox with a question and an update.
use xiao_ming.Prelude.{String, true, false, ◌≡◌, refl, none, some, [], ◌∷◌, map, ok}
use xiao_ming.Prelude.Dict
use xiao_ming.Prelude.Dict.{Dict, Distinct}
use xiao_ming.Json.{Python, arr, end, of_list}
use xiao_ming.Mailbox.Message.{MailboxMessage, pending, approval_request, progress}
use xiao_ming.Mailbox.Store.{
  MailboxStore, create_message, get, list, cancel_if, cancel_task_messages, snapshot, from_snapshot,
}
use xiao_ming.Mailbox.Store.Order.{IsOrdered}
use xiao_ming.Mailbox.Store.Methods.{list-cancel_task_messages}
use xiao_ming.Mailbox.Store.Snapshot.{from_snapshot-snapshot}
use xiao_ming.Mailbox.Views.{MailboxTaskUpdate, latest_task_updates}
use xiao_ming.Mailbox.Views.{limited}
use xiao_ming.Mailbox.Views.Pending.{last_update, updates_for, latest_task_updates_lem}

abbrev python : Python
python = record { repr = λ v. "?"; loads = λ s. none; literal_eval = λ s. none; to_int = λ v. ok 0 }

abbrev question : MailboxMessage
question = record {
  task_id = "1";
  from_role = "worker";
  to_role = "main";
  kind = approval_request;
  content = "may I?";
  requires_reply = true;
  worker_id = some "1";
  status = pending;
  message_id = "m";
  created_at = "c";
  updated_at = "u";
  reply = none;
  presented_count = 0;
  last_presented_at = none;
  metadata = end;
}

abbrev update : MailboxMessage
update = record question {
  task_id = "2";
  kind = progress;
  requires_reply = false;
  message_id = "k";
}

abbrev store : MailboxStore
store = record { messages = ("m", question) ∷ ("k", update) ∷ []; order = "m" ∷ "k" ∷ [] }

store-IsOrdered : IsOrdered store
unfolding Dict.get
store-IsOrdered = record {
  ordered = refl;
  distinct = (refl, (refl, tt));
  keyed = (refl, (refl, tt));
}

abbrev created : MailboxMessage × MailboxStore
created = create_message "x" "n" "3" "worker" "main" progress "done" false none end store

list-cancel_task_messages_example :
    (list (cancel_task_messages "n" "1" store) ≡ map (cancel_if "n" "1") (list store))
    × IsOrdered (cancel_task_messages "n" "1" store)
list-cancel_task_messages_example = list-cancel_task_messages "n" "1" store store-IsOrdered

from_snapshot-snapshot_example :
    from_snapshot python (λ i. "x") "n" (arr (of_list (snapshot store))) ≡ store
from_snapshot-snapshot_example =
    from_snapshot-snapshot python (λ i. "x") "n" store store-IsOrdered
      ((refl, (refl, refl, refl)), ((refl, (refl, refl, refl)), tt))

latest_task_updates_lem_example :
    (d : Dict MailboxTaskUpdate) × (latest_task_updates python (λ task_id. none) (some 1) store
      ≡ limited (some 1) (Dict.values d))
    × Distinct d
    × ((task_id : String)
        → Dict.get d task_id
          ≡ last_update python
              (λ task_id. none)
              none
              (updates_for python (λ task_id. none) task_id (list store)))
latest_task_updates_lem_example = latest_task_updates_lem python (λ task_id. none) (some 1) store
