-- ===== src/Mailbox/Store/Snapshot.antt =====
-- MailboxStore.snapshot and from_snapshot: a saved mailbox is loaded as it was.
use xiao_ming.Prelude.{
  ℕ, zero, suc, String, false, none, List, [], ◌∷◌, ◌++◌, map, ◌==◌, ◌≡◌, refl, sym, ap, ◌∙◌, arith,
  eq_iff, All,
}
use mathlib.Core.List.{append_assoc, append-nil}
use xiao_ming.Prelude.Dict
use xiao_ming.Prelude.Dict.{Dict, Distinct, get-put}
use xiao_ming.Json.{Value, obj, arr, of_list, to_list-of_list, Python}
use xiao_ming.Mailbox.Message.{MailboxMessage, to_dict}
use xiao_ming.Mailbox.Message.RoundTrip.{IsComplete, from-to_dict}
use xiao_ming.Mailbox.Store.{MailboxStore, list, snapshot, load_items, from_snapshot}
use xiao_ming.Mailbox.Store.Order.{IsOrdered, Keyed, Covers, Covers-self, put-new, list-IsOrdered}

-- A message that from_snapshot does not skip.
abbrev pub IsKept : MailboxMessage → Type 0
IsKept m = ((m.task_id == "") ≡ false) × IsComplete m

abbrev New : Dict MailboxMessage → Dict MailboxMessage → Type 0
New e d = All (λ p. Dict.get e p.0 ≡ none) d

New-put :
    (e d : Dict MailboxMessage) (k : String) (m : MailboxMessage) (all : Dict MailboxMessage)
    → New e d
    → Covers all d
    → Dict.get all k ≡ none
    → New (Dict.put e k m) d
New-put e [] k m all n c h = tt
New-put e ((j, w) ∷ d) k m all n c h =
    (rw (get-put e k m j) (ground (arith, eq_iff k j, n.0, c.0, h)), New-put e d k m all n.1 c.1 h)

appended :
    (e : Dict MailboxMessage) (k : String) (m : MailboxMessage) (d : Dict MailboxMessage)
    → Dict.get e k ≡ none
    → Dict.put e k m ++ d ≡ e ++ (k, m) ∷ d
appended e k m d h = rw (put-new e k m h) (append_assoc e ((k, m) ∷ []) d)

all-New : (d : Dict MailboxMessage) → New [] d
unfolding Dict.get
all-New [] = tt
all-New (p ∷ d) = (refl, all-New d)

module _ (python : Python) (uuid : ℕ → String) (now : String) where
  load_items-step :
      (n : ℕ) (m : MailboxMessage) (items : List Value) (e : Dict MailboxMessage)
      (order : List String)
      → IsKept m
      → load_items python uuid now n
          (obj (to_dict m) ∷ items)
          (record { messages = e; order = order })
        ≡ load_items python uuid now
            (suc n)
            items
            (record { messages = Dict.put e m.message_id m; order = order ++ m.message_id ∷ [] })
  unfolding load_items
  load_items-step n m items e order kept =
      rw (from-to_dict python (uuid n) now m kept.1, kept.0, kept.1.0)

  load_items-values :
      (d : Dict MailboxMessage) (n : ℕ) (e : Dict MailboxMessage) (order : List String)
      → All IsKept (Dict.values d)
      → Keyed d
      → Distinct d
      → New e d
      → load_items python uuid now n
          (map (λ m. obj (to_dict m)) (Dict.values d))
          (record { messages = e; order = order })
        ≡ record { messages = e ++ d; order = order ++ Dict.keys d }
  unfolding load_items
  load_items-values [] n e order kept keyed distinct new =
      λ i. record { messages = sym (append-nil e) i; order = sym (append-nil order) i }
  load_items-values ((k, m) ∷ d) n e order kept keyed distinct new =
      load_items-step n m (map (λ m. obj (to_dict m)) (Dict.values d)) e order kept.0
      ∙ ap
          (λ j.
            load_items python uuid now (suc n) (map (λ m. obj (to_dict m)) (Dict.values d))
              (record { messages = Dict.put e j m; order = order ++ j ∷ [] }))
          keyed.0
      ∙ (load_items-values d (suc n) (Dict.put e k m) (order ++ k ∷ []) kept.1 keyed.1 distinct.1
            (New-put e d k m d new.1 (Covers-self d distinct.1) distinct.0)
          ∙ (λ i. record {
            messages = appended e k m d new.0 i;
            order = append_assoc order (k ∷ []) (Dict.keys d) i;
          }))

  -- An ordered mailbox whose messages have a task, an id and times is loaded from its snapshot as it
  -- was: the same messages under the same ids, in the same order.
  pub from_snapshot-snapshot :
      (s : MailboxStore)
      → IsOrdered s
      → All IsKept (Dict.values s.messages)
      → from_snapshot python uuid now (arr (of_list (snapshot s))) ≡ s
  unfolding from_snapshot snapshot
  from_snapshot-snapshot s h kept =
      rw (to_list-of_list (map (λ m. obj (to_dict m)) (list s)), list-IsOrdered s h)
        (load_items-values s.messages zero [] [] kept h.keyed h.distinct (all-New s.messages)
          ∙ (λ i. record { messages = s.messages; order = sym h.ordered i }))
