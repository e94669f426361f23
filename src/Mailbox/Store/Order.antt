-- ===== src/Mailbox/Store/Order.antt =====
-- The order of a mailbox: each message once, under its own id.
use xiao_ming.Prelude.{
  String, none, some, [], ◌∷◌, ◌++◌, map, ◌==◌, ◌≡◌, refl, sym, ap, ap₂, ◌∙◌, arith, eq_iff,
  eq_refl, if◌then◌else◌, Bool-cases, Option-cases, inl, inr, All,
}
use xiao_ming.Prelude.Dict
use xiao_ming.Prelude.Dict.{Dict, Distinct, get-put, put-Distinct}
use xiao_ming.Mailbox.Message.{MailboxMessage}
use xiao_ming.Mailbox.Store.{MailboxStore, in_order, list, change}

-- Each entry stands under the id of its message.
abbrev pub Keyed : Dict MailboxMessage → Type 0
Keyed [] = Unit
Keyed ((k, m) ∷ d) = (m.message_id ≡ k) × Keyed d

pub record IsOrdered (s : MailboxStore) : Type 0 where
  pub ordered : s.order ≡ Dict.keys s.messages
  pub distinct : Distinct s.messages
  pub keyed : Keyed s.messages

pub put-new {ℓ} :
    {V : Type ℓ} (d : Dict V) (k : String) (v : V)
    → Dict.get d k ≡ none
    → Dict.put d k v ≡ d ++ (k, v) ∷ []
unfolding Dict.put Dict.get
put-new [] k v h = refl
put-new ((j, w) ∷ d) k v h = elim (Bool-cases (j == k)) [
  | inl same ↦ absurd (ground (arith, same, h))
  | inr other ↦ rw other (ap (λ l. (j, w) ∷ l) (put-new d k v (ground (arith, other, h))))
]

-- Every entry of the second dictionary is read in the first.
abbrev pub Covers : Dict MailboxMessage → Dict MailboxMessage → Type 0
Covers e d = All (λ p. Dict.get e p.0 ≡ some p.1) d

Covers-cons :
    (k : String) (v : MailboxMessage) (e d : Dict MailboxMessage)
    → Dict.get e k ≡ none
    → Covers e d
    → Covers ((k, v) ∷ e) d
unfolding Dict.get
Covers-cons k v e [] h c = tt
Covers-cons k v e ((j, w) ∷ d) h c = (ground (arith, eq_iff k j, c.0, h), Covers-cons k v e d h c.1)

pub Covers-self : (d : Dict MailboxMessage) → Distinct d → Covers d d
unfolding Dict.get
Covers-self [] h = tt
Covers-self ((k, v) ∷ d) h = (rw (eq_refl k), Covers-cons k v d d h.0 (Covers-self d h.1))

in_order-keys : (e d : Dict MailboxMessage) → Covers e d → in_order e (Dict.keys d) ≡ Dict.values d
unfolding in_order
in_order-keys e [] c = refl
in_order-keys e ((k, v) ∷ d) c = rw c.0 (ap (λ l. v ∷ l) (in_order-keys e d c.1))

pub list-IsOrdered : (s : MailboxStore) → IsOrdered s → list s ≡ Dict.values s.messages
unfolding list
list-IsOrdered s h =
    rw h.ordered (in_order-keys s.messages s.messages (Covers-self s.messages h.distinct))

-- The change of `change`, entry by entry.
abbrev at_key :
    (MailboxMessage → MailboxMessage) → String → String × MailboxMessage → String × MailboxMessage
at_key f k e = if e.0 == k then (e.0, f e.1) else e

abbrev pub at_id : (MailboxMessage → MailboxMessage) → String → MailboxMessage → MailboxMessage
at_id f k m = if m.message_id == k then f m else m

at_key-absent :
    (f : MailboxMessage → MailboxMessage) (k : String) (d : Dict MailboxMessage)
    → Dict.get d k ≡ none
    → map (at_key f k) d ≡ d
unfolding Dict.get
at_key-absent f k [] h = refl
at_key-absent f k ((j, w) ∷ d) h = elim (Bool-cases (j == k)) [
  | inl same ↦ absurd (ground (arith, same, h))
  | inr other ↦ rw other (ap (λ l. (j, w) ∷ l) (at_key-absent f k d (ground (arith, other, h))))
]

put-at_key :
    (f : MailboxMessage → MailboxMessage) (k : String) (m : MailboxMessage)
    (d : Dict MailboxMessage)
    → Distinct d
    → Dict.get d k ≡ some m
    → Dict.put d k (f m) ≡ map (at_key f k) d
unfolding Dict.put Dict.get
put-at_key f k m [] h g = absurd cc
put-at_key f k m ((j, w) ∷ d) h g = elim (Bool-cases (j == k)) [
  | inl same ↦
      let found : some w ≡ some m = rw same at g in
      let value : w ≡ m = cc found in
      let absent : Dict.get d k ≡ none = rw ((eq_iff j k).0 same) at h.0 in
      rw same (ap₂ (λ x l. (j, f x) ∷ l) (sym value) (sym (at_key-absent f k d absent)))
  | inr other ↦ rw other (ap (λ l. (j, w) ∷ l) (put-at_key f k m d h.1 (ground (arith, other, g))))
]

change-eq :
    (f : MailboxMessage → MailboxMessage) (k : String) (s : MailboxStore)
    → Distinct s.messages
    → change f k s ≡ record s { messages = map (at_key f k) s.messages }
unfolding change
change-eq f k s h = elim (Option-cases (Dict.get s.messages k)) [
  | inl missing ↦ rw (missing, at_key-absent f k s.messages missing)
  | inr (m, there) ↦ rw (there, put-at_key f k m s.messages h there)
]

keys-at_key :
    (f : MailboxMessage → MailboxMessage) (k : String) (d : Dict MailboxMessage)
    → Dict.keys (map (at_key f k) d) ≡ Dict.keys d
keys-at_key f k [] = refl
keys-at_key f k ((j, w) ∷ d) = ap₂ (λ x l. x ∷ l) (ground arith) (keys-at_key f k d)

values-at_key :
    (f : MailboxMessage → MailboxMessage) (k : String) (d : Dict MailboxMessage)
    → Keyed d
    → Dict.values (map (at_key f k) d) ≡ map (at_id f k) (Dict.values d)
values-at_key f k [] h = refl
values-at_key f k ((j, w) ∷ d) h =
    ap₂ (λ x l. x ∷ l) (rw h.0 (ground arith)) (values-at_key f k d h.1)

module _ (f : MailboxMessage → MailboxMessage)
    (keeps : (m : MailboxMessage) → (f m).message_id ≡ m.message_id) where
  Keyed-at_key : (k : String) (d : Dict MailboxMessage) → Keyed d → Keyed (map (at_key f k) d)
  Keyed-at_key k [] h = tt
  Keyed-at_key k ((j, w) ∷ d) h = elim (Bool-cases (j == k)) [
    | inl same ↦ rw same (keeps w ∙ h.0, Keyed-at_key k d h.1)
    | inr other ↦ rw other (h.0, Keyed-at_key k d h.1)
  ]

  get-at_key :
      (k j : String) (d : Dict MailboxMessage)
      → Dict.get d j ≡ none
      → Dict.get (map (at_key f k) d) j ≡ none
  unfolding Dict.get
  get-at_key k j [] h = refl
  get-at_key k j ((i, w) ∷ d) h = ground (arith, h, get-at_key k j d)

  Distinct-at_key :
      (k : String) (d : Dict MailboxMessage) → Distinct d → Distinct (map (at_key f k) d)
  Distinct-at_key k [] h = tt
  Distinct-at_key k ((j, w) ∷ d) h = elim (Bool-cases (j == k)) [
    | inl same ↦ rw same (get-at_key k j d h.0, Distinct-at_key k d h.1)
    | inr other ↦ rw other (get-at_key k j d h.0, Distinct-at_key k d h.1)
  ]

  pub change-IsOrdered : (k : String) (s : MailboxStore) → IsOrdered s → IsOrdered (change f k s)
  change-IsOrdered k s h = rw (change-eq f k s h.distinct) (record {
    ordered = h.ordered ∙ sym (keys-at_key f k s.messages);
    distinct = Distinct-at_key k s.messages h.distinct;
    keyed = Keyed-at_key k s.messages h.keyed;
  })

  -- Changing the message under an id changes that one in the list, in its place.
  pub list-change :
      (k : String) (s : MailboxStore) → IsOrdered s → list (change f k s) ≡ map (at_id f k) (list s)
  list-change k s h =
      list-IsOrdered (change f k s) (change-IsOrdered k s h)
      ∙ rw (change-eq f k s h.distinct) (values-at_key f k s.messages h.keyed)
      ∙ ap (map (at_id f k)) (sym (list-IsOrdered s h))
