-- ===== src/Mailbox/Views/Pending.antt =====
-- What the reading methods of MailboxStore show.
use xiao_ming.Prelude.{
  ℕ, String, not, ◌&&◌, Option, none, some, List, [], ◌∷◌, map, ◌==◌, ◌≡◌, refl, ◌∙◌, arith, keep,
  Bool-cases, inl, inr,
}
use xiao_ming.Prelude.Dict
use xiao_ming.Prelude.Dict.{Dict, Distinct, get-put, put-Distinct}
use xiao_ming.Json.{Python}
use xiao_ming.Mailbox.Message.{MailboxMessage, cancel}
use xiao_ming.Mailbox.Store.{MailboxStore, list, cancel_if, cancel_task_messages}
use xiao_ming.Mailbox.Store.Order.{IsOrdered}
use xiao_ming.Mailbox.Store.Methods.{list-cancel_task_messages}
use xiao_ming.Mailbox.Views.{
  awaits_reply, pending_for_main, is_update, Titles, MailboxTaskUpdate, update_of, latest_from,
  latest_task_updates, limited,
}

keep-map_cancel :
    (now task_id : String) (ms : List MailboxMessage)
    → keep awaits_reply (map (cancel_if now task_id) ms)
      ≡ keep (λ m. not (m.task_id == task_id)) (keep awaits_reply ms)
unfolding cancel
keep-map_cancel now task_id [] = refl
keep-map_cancel now task_id (m ∷ ms) = ground (arith, keep-map_cancel now task_id ms)

-- After the messages of a task are cancelled, what waits for the user's reply is what waited before,
-- in its order, without the messages of that task.
pub pending-cancel_task_messages :
    (now task_id : String) (s : MailboxStore)
    → IsOrdered s
    → pending_for_main (cancel_task_messages now task_id s)
      ≡ keep (λ m. not (m.task_id == task_id)) (pending_for_main s)
unfolding pending_for_main
pending-cancel_task_messages now task_id s h =
    rw (list-cancel_task_messages now task_id s h).0 (keep-map_cancel now task_id (list s))

module _ (python : Python) (registry : Titles) where
  -- The update of the last message, or what was found before.
  abbrev pub last_update : Option MailboxTaskUpdate → List MailboxMessage → Option MailboxTaskUpdate
  last_update found [] = found
  last_update found (m ∷ ms) = last_update (some (update_of python registry m)) ms

  abbrev pub updates_for : String → List MailboxMessage → List MailboxMessage
  updates_for task_id ms = keep (λ m. is_update m && (m.task_id == task_id)) ms

  get-latest_from :
      (ms : List MailboxMessage) (d : Dict MailboxTaskUpdate) (task_id : String)
      → Dict.get (latest_from python registry d ms) task_id
        ≡ last_update (Dict.get d task_id) (updates_for task_id ms)
  unfolding latest_from
  get-latest_from [] d task_id = refl
  get-latest_from (m ∷ ms) d task_id = elim (Bool-cases (is_update m)) [
    | inl update ↦ rw update (
        get-latest_from ms (Dict.put d m.task_id (update_of python registry m)) task_id
        ∙ rw (get-put d m.task_id (update_of python registry m) task_id) (ground arith))
    | inr other ↦ rw other (get-latest_from ms d task_id)
  ]

  latest_from-Distinct :
      (ms : List MailboxMessage) (d : Dict MailboxTaskUpdate)
      → Distinct d
      → Distinct (latest_from python registry d ms)
  unfolding latest_from
  latest_from-Distinct [] d h = h
  latest_from-Distinct (m ∷ ms) d h = elim (Bool-cases (is_update m)) [
    | inl update ↦
        rw update
          (latest_from-Distinct ms _ (put-Distinct d m.task_id (update_of python registry m) h))
    | inr other ↦ rw other (latest_from-Distinct ms d h)
  ]

  -- The updates of latest_task_updates are the values of a dictionary that has no task twice and
  -- that has, for each task, the last of its pending progress, result and review messages to the
  -- main agent that want no reply, and nothing for a task with no such message; under a limit, they are
  -- as many of the first of these values as the limit says.
  pub latest_task_updates_lem :
      (limit : Option ℕ) (store : MailboxStore)
      → (d : Dict MailboxTaskUpdate) × (latest_task_updates python registry limit store
          ≡ limited limit (Dict.values d))
        × Distinct d
        × ((task_id : String)
            → Dict.get d task_id ≡ last_update none (updates_for task_id (list store)))
  unfolding latest_task_updates Dict.get
  latest_task_updates_lem limit store = (
    latest_from python registry [] (list store),
    refl,
    latest_from-Distinct (list store) [] tt,
    get-latest_from (list store) [],
  )
