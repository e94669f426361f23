-- ===== src/Mailbox/Store/Methods.antt =====
-- MailboxStore: what its methods do to the list of messages.
use xiao_ming.Prelude.{
  String, Bool, true, false, Option, List, [], ◌∷◌, map, ◌==◌, ◌≡◌, refl, sym, ap, ap₂, ◌∙◌, arith,
  eq_refl, if◌then◌else◌, Bool-cases, inl, inr, All, contains,
}
use xiao_ming.Prelude.Dict
use xiao_ming.Prelude.Dict.{Dict, Distinct}
use xiao_ming.Json.{Fields}
use xiao_ming.Mailbox.Message.{MailboxKind, is_pending, MailboxMessage, answer, cancel, dismiss}
use xiao_ming.Mailbox.Store.{
  MailboxStore, create_message, list, change, reply, cancel_if, cancel_each, cancel_task_messages,
}
use xiao_ming.Mailbox.Store.Order.{
  IsOrdered, Keyed, at_id, list-IsOrdered, change-IsOrdered, list-change,
}

module _ (new_id now task_id from_role to_role : String) (kind : MailboxKind) (content : String)
    (requires_reply : Bool) (worker_id : Option String) (metadata : Fields) (s : MailboxStore) where
  abbrev created : MailboxMessage × MailboxStore
  created =
      create_message new_id now task_id from_role to_role kind content requires_reply worker_id
        metadata s

module _ (later other : String) where
  abbrev pub Stays : MailboxMessage → Type 0
  Stays m = (answer later other m ≡ m) × (cancel later m ≡ m) × (dismiss later m ≡ m)

  settled-Stays : (m : MailboxMessage) → is_pending m.status ≡ false → Stays m
  unfolding answer cancel dismiss
  settled-Stays m h = (rw h, rw h, rw h)

  -- Answering, cancelling and dismissing settle a message, and leave a settled one as it is: of
  -- several the first counts, and its answer stays.
  pub settled_once :
      (now text : String) (m : MailboxMessage)
      → Stays (answer now text m) × Stays (cancel now m) × Stays (dismiss now m)
  unfolding answer cancel dismiss
  settled_once now text m = (
    settled-Stays (answer now text m) (ground arith),
    settled-Stays (cancel now m) (ground arith),
    settled-Stays (dismiss now m) (ground arith),
  )

map-same {ℓ} : {A : Type ℓ} (xs : List A) → map (λ x. x) xs ≡ xs
map-same [] = refl
map-same (x ∷ xs) = ap (λ l. x ∷ l) (map-same xs)

module _ (now task_id : String) where
  abbrev f : MailboxMessage → MailboxMessage
  f m = cancel_if now task_id m

  f_id : (m : MailboxMessage) → (f m).message_id ≡ m.message_id
  unfolding cancel
  f_id m = ground arith

  f_idem : (m : MailboxMessage) → f (f m) ≡ f m
  unfolding cancel
  f_idem m = ground arith

  abbrev g : List String → MailboxMessage → MailboxMessage
  g ids m = if contains ids m.message_id then f m else m

  g-at_id :
      (k : String) (ids : List String) (ms : List MailboxMessage)
      → map (g ids) (map (at_id f k) ms) ≡ map (g (k ∷ ids)) ms
  g-at_id k ids [] = refl
  g-at_id k ids (m ∷ ms) =
      ap₂ (λ x l. x ∷ l)
        (elim (Bool-cases (m.message_id == k)) [
          | inl same ↦ rw same (rw (f_id m) (ground (arith, f_idem m)))
          | inr other ↦ rw (other)
        ])
        (g-at_id k ids ms)

  list-cancel_each :
      (ids : List String) (s : MailboxStore)
      → IsOrdered s
      → (list (cancel_each now task_id ids s) ≡ map (g ids) (list s))
        × IsOrdered (cancel_each now task_id ids s)
  unfolding cancel_each
  list-cancel_each [] s h = (sym (map-same (list s)), h)
  list-cancel_each (k ∷ ids) s h =
      let rest = list-cancel_each ids (change f k s) (change-IsOrdered f f_id k s h) in
      (rest.0 ∙ ap (map (g ids)) (list-change f f_id k s h) ∙ g-at_id k ids (list s), rest.1)

  contains-grow :
      (ids : List String) (k p : String) → contains ids p ≡ true → contains (k ∷ ids) p ≡ true
  contains-grow ids k p h = ground (arith, h)

  -- Every message of an ordered mailbox stands in its order.
  map-All :
      (d e : Dict MailboxMessage)
      → Keyed d
      → All (λ k. contains (Dict.keys e) k ≡ true) (Dict.keys d)
      → map (g (Dict.keys e)) (Dict.values d) ≡ map f (Dict.values d)
  map-All [] e h c = refl
  map-All ((k, m) ∷ d) e h c = ap₂ (λ x l. x ∷ l) (rw (h.0, c.0)) (map-All d e h.1 c.1)

  All-grow :
      (ks ids : List String) (k : String)
      → All (λ p. contains ids p ≡ true) ks
      → All (λ p. contains (k ∷ ids) p ≡ true) ks
  All-grow [] ids k h = tt
  All-grow (p ∷ ks) ids k h = (contains-grow ids k p h.0, All-grow ks ids k h.1)

  All-self : (ks : List String) → All (λ p. contains ks p ≡ true) ks
  All-self [] = tt
  All-self (k ∷ ks) = (ground (arith, eq_refl k), All-grow ks ks k (All-self ks))

  -- Cancelling the messages of a task cancels in place exactly its pending ones, leaves all other
  -- messages and the order as they are, and keeps the mailbox ordered.
  pub list-cancel_task_messages :
      (s : MailboxStore)
      → IsOrdered s
      → (list (cancel_task_messages now task_id s) ≡ map (cancel_if now task_id) (list s))
        × IsOrdered (cancel_task_messages now task_id s)
  unfolding cancel_task_messages
  list-cancel_task_messages s h =
      let all = list-cancel_each s.order s h in
      (
        all.0
            ∙ rw (list-IsOrdered s h, h.ordered)
                (map-All s.messages s.messages h.keyed (All-self (Dict.keys s.messages))),
        all.1,
      )

  -- A reply answers, in an ordered mailbox, the message under its id and no other.
  pub list-reply :
      (message_id text : String) (s : MailboxStore)
      → IsOrdered s
      → (list (reply now message_id text s) ≡ map (at_id (answer now text) message_id) (list s))
        × IsOrdered (reply now message_id text s)
  unfolding reply answer
  list-reply message_id text s h = (
    list-change (answer now text) (λ m. ground arith) message_id s h,
    change-IsOrdered (answer now text) (λ m. ground arith) message_id s h,
  )
