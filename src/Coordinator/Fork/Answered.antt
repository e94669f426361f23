-- ===== src/Coordinator/Fork/Answered.antt =====
-- In the history that a worker is forked with, the outputs of all calls are there.
use xiao_ming.Prelude.{
  ℕ, zero, suc, String, Bool, true, false, ◌&&◌, ◌||◌, ◌≡◌, refl, sym, ap, ◌∙◌, List, [], ◌∷◌, ◌++◌,
  length, all, All, contains, ◌==◌, ◌⊎◌, inl, inr, Bool-cases, eq_iff, none, some, strip,
  if◌then◌else◌,
}
use xiao_ming.Json
use xiao_ming.Json.{Fields, end, field, Python, text_or}
use xiao_ming.Coordinator.Fork.{
  is_text, without, is_tool_output, tool_call_ids, leading_outputs, output_ids, kept_calls,
  history_from, id_of,
}

pub List-cases {ℓ} :
    {A : Type ℓ} (xs : List A) → (xs ≡ []) ⊎ ((x : A) × (rest : List A) × (xs ≡ x ∷ rest))
List-cases [] = inl refl
List-cases (x ∷ xs) = inr (x, xs, refl)

append_assoc {ℓ} : {A : Type ℓ} (xs ys zs : List A) → ((xs ++ ys) ++ zs) ≡ (xs ++ (ys ++ zs))
append_assoc [] ys zs = refl
append_assoc (x ∷ xs) ys zs = ap (λ rest. x ∷ rest) (append_assoc xs ys zs)

contains-before :
    (xs ys : List String) (s : String) → contains xs s ≡ true → contains (xs ++ ys) s ≡ true
contains-before [] ys s there = absurd (cc)
contains-before (x ∷ xs) ys s there = elim (Bool-cases (s == x)) [
  | inl here ↦ rw here refl
  | inr other ↦ rw other (contains-before xs ys s (sym (rw other refl) ∙ there))
]

all-contains-before :
    (xs ys ids : List String) → all (contains xs) ids ≡ true → all (contains (xs ++ ys)) ids ≡ true
all-contains-before xs ys [] there = refl
all-contains-before xs ys (id ∷ ids) there = elim (Bool-cases (contains xs id)) [
  | inl here ↦
      rw (contains-before xs ys id here)
        (all-contains-before xs ys ids (sym (rw here refl) ∙ there))
  | inr missing ↦ absurd (let e : false ≡ true = sym (rw missing refl) ∙ there in cc)
]

-- item.get("type") in {"function_call", "custom_tool_call"}
abbrev pub is_call : Fields → Bool
is_call item =
    is_text (Json.get item "type") "function_call"
    || is_text (Json.get item "type") "custom_tool_call"

-- An item is the text of the assistant or a call, never both.
abbrev pub IsApart : Fields → Type 0
IsApart item = (is_text (Json.get item "role") "assistant" && is_call item) ≡ false

no_call :
    (assistant call present : Bool)
    → (assistant && call) ≡ false
    → assistant ≡ true
    → (call && present) ≡ false
no_call true call present apart there = rw apart refl
no_call false call present apart there = absurd (cc)

module _ (python : Python) where
  get-without : (key : String) (fields : Fields) → Json.get (without python key fields) key ≡ none
  get-without key end = refl
  get-without key (field k v rest) = elim (Bool-cases (k == key)) [
    | inl here ↦ rw here (get-without key rest)
    | inr other ↦ rw (other, other) (get-without key rest)
  ]

  pub get-without-other :
      (key other : String) (fields : Fields)
      → (key == other) ≡ false
      → Json.get (without python key fields) other ≡ Json.get fields other
  get-without-other key other end different = refl
  get-without-other key other (field k v rest) different = elim (Bool-cases (k == key)) [
    | inl here ↦
        let passed : (k == other) ≡ false =
          ap (λ s. s == other) ((eq_iff k key).0 here) ∙ different in
        rw (here, passed) (get-without-other key other rest different)
    | inr there ↦ rw there (
        ap (λ found. if k == other then some v else found)
          (get-without-other key other rest different))
  ]

  leading_outputs-append :
      (items rest : List Fields)
      → leading_outputs python (leading_outputs python items ++ rest)
        ≡ (leading_outputs python items ++ leading_outputs python rest)
  unfolding leading_outputs
  leading_outputs-append [] rest = refl
  leading_outputs-append (item ∷ items) rest = elim (Bool-cases (is_tool_output python item)) [
    | inl output ↦ rw (output, output) (ap (λ xs. item ∷ xs) (leading_outputs-append items rest))
    | inr other ↦ rw other refl
  ]

  output_ids-append :
      (xs ys : List Fields)
      → output_ids python (xs ++ ys) ≡ (output_ids python xs ++ output_ids python ys)
  output_ids-append [] ys = refl
  output_ids-append (x ∷ xs) ys =
      ap (λ ids. id_of python (Json.get x "call_id") ++ ids) (output_ids-append xs ys)
      ∙ sym (
          append_assoc (id_of python (Json.get x "call_id")) (output_ids python xs)
            (output_ids python ys))

  -- Each item that is no output has the outputs of all its calls right behind it.
  abbrev pub Answered : List Fields → Type 0
  Answered [] = Unit
  Answered (item ∷ items) =
      (is_tool_output python item ≡ false
        → all (contains (output_ids python (leading_outputs python items)))
            (tool_call_ids python item)
          ≡ true)
      × Answered items

  -- Outputs at the head ask for nothing.
  Answered-outputs :
      (items rest : List Fields) → Answered rest → Answered (leading_outputs python items ++ rest)
  unfolding leading_outputs
  Answered-outputs [] rest h = h
  Answered-outputs (item ∷ items) rest h = elim (Bool-cases (is_tool_output python item)) [
    | inl output ↦ rw output (
      (λ other. absurd (let e : true ≡ false = sym output ∙ other in cc)),
      Answered-outputs items rest h,
    )
    | inr other ↦ rw other h
  ]

  -- The text of an item of the assistant has no call.
  pub tool_call_ids-without :
      (item : Fields)
      → IsApart item
      → is_text (Json.get item "role") "assistant" ≡ true
      → tool_call_ids python (without python "tool_calls" item) ≡ []
  unfolding tool_call_ids
  tool_call_ids-without item apart assistant =
      rw
        (
          get-without-other "tool_calls" "type" item refl,
          get-without-other "tool_calls" "call_id" item refl,
          get-without-other "tool_calls" "role" item refl,
          get-without "tool_calls" item,
          assistant,
          no_call (is_text (Json.get item "role") "assistant") (is_call item) _ apart assistant,
        )
        refl

  Answered-kept_calls :
      (item : Fields) (id : String) (ids : List String) (items rest : List Fields)
      → IsApart item
      → tool_call_ids python item ≡ id ∷ ids
      → Answered rest
      → Answered (kept_calls python item (id ∷ ids) (leading_outputs python items) ++ rest)
  unfolding kept_calls
  Answered-kept_calls item id ids items rest apart calls h =
      let outputs = leading_outputs python items in
      elim (Bool-cases (all (contains (output_ids python outputs)) (id ∷ ids))) [
        | inl complete ↦
            let run : output_ids python (leading_outputs python (outputs ++ rest))
                ≡ (output_ids python outputs ++ output_ids python (leading_outputs python rest)) =
              ap (output_ids python) (leading_outputs-append items rest)
              ∙ output_ids-append outputs (leading_outputs python rest) in
            rw complete (
              (λ other.
                  rw (run, calls)
                    (all-contains-before (output_ids python outputs)
                      (output_ids python (leading_outputs python rest)) (id ∷ ids) complete)),
              Answered-outputs items rest h,
            )
        | inr missing ↦ elim (Bool-cases (is_text (Json.get item "role") "assistant")) [
          | inr nobody ↦ rw (missing, nobody) h
          | inl assistant ↦
              elim (Bool-cases (strip (text_or python (Json.get item "content") "") == "")) [
                | inl blank ↦ rw (missing, assistant, blank) h
                | inr words ↦
                    rw (missing, assistant, words)
                      ((λ other. rw (tool_call_ids-without item apart assistant) refl), h)
              ]
        ]
      ]

  pub Answered-history_from :
      (skipped : ℕ) (items : List Fields)
      → All IsApart items
      → Answered (history_from python skipped items)
  unfolding history_from
  Answered-history_from skipped [] apart = tt
  Answered-history_from (suc skipped) (item ∷ items) apart =
      Answered-history_from skipped items apart.1
  Answered-history_from zero (item ∷ items) apart = elim (Bool-cases (is_tool_output python item)) [
    | inl output ↦ rw (history_from, output) (Answered-history_from zero items apart.1)
    | inr other ↦ elim (List-cases (tool_call_ids python item)) [
      | inl no_calls ↦
          rw (history_from, other, no_calls)
            ((λ still. rw no_calls refl), Answered-history_from zero items apart.1)
      | inr (id, ids, calls) ↦
          rw (history_from, other, calls)
            (Answered-kept_calls item id ids items
              (history_from python (length (leading_outputs python items)) items) apart.0 calls
              (Answered-history_from (length (leading_outputs python items)) items apart.1))
    ]
  ]
