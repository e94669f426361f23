-- ===== src/Coordinator/Fork.antt =====
-- What a forked worker is given of the parent session: _forked_instructions, _forked_input_items and
-- _forked_loaded_skills of async_runtime/coordinator.py.
pub mod Answered
pub mod Complete
use xiao_ming.Prelude.{
  ℕ, zero, suc, String, Bool, true, false, not, ◌&&◌, ◌||◌, Option, none, some, List, [], ◌∷◌, ◌++◌,
  map, ◌==◌, if◌then◌else◌, length, all, contains, strip,
}
use xiao_ming.Json
use xiao_ming.Json.{
  Value, null, str, arr, Items, Fields, end, field, obj, dict, to_list, Python, text, text_or,
  truthy,
}
use xiao_ming.Tasks.Record.{sorted, set_of}

-- The parts of the session that are read: the loaded skills are those sorted by name, as payloads.
pub record ParentSession : Type 0 where
  pub session_id : String
  pub last_prompt_instructions : String
  pub base_instructions : String
  pub last_prompt_input_items : List Fields
  pub last_model_output_items : List Fields
  pub input_items : List Fields
  pub loaded_skills : List Fields

abbrev alone : String → Bool
alone context_policy = contains ("isolated" ∷ "resume_worker" ∷ []) context_policy

-- _forked_instructions
unfoldable pub forked_instructions : ParentSession → String → String
forked_instructions session context_policy =
    if alone context_policy
    then ""
    else if session.last_prompt_instructions == ""
    then session.base_instructions
    else session.last_prompt_instructions

abbrev pub is_empty {ℓ} : {A : Type ℓ} → List A → Bool
is_empty [] = true
is_empty (x ∷ xs) = false

-- _forked_loaded_skills
unfoldable pub forked_loaded_skills : ParentSession → String → List Fields
forked_loaded_skills session context_policy =
    if alone context_policy
    then []
    else if not (is_empty session.last_prompt_input_items)
    then []
    else session.loaded_skills

-- value == text, for item.get(key)
abbrev pub is_text : Option Value → String → Bool
is_text (some (str s)) t = s == t
is_text _ t = false

abbrev present : Option Value → Bool
present none = false
present (some v) = truthy v

module _ (python : Python) where
  abbrev id_of : Option Value → List String
  id_of none = []
  id_of (some v) = if truthy v then text python v ∷ [] else []

  abbrev call_id_of : Value → List String
  call_id_of (obj call) = id_of (Json.get call "id")
  call_id_of _ = []

  abbrev ids_of_calls : List Value → List String
  ids_of_calls [] = []
  ids_of_calls (v ∷ vs) = call_id_of v ++ ids_of_calls vs

  abbrev assistant_calls : Option Value → List String
  assistant_calls (some (arr calls)) = set_of (ids_of_calls (to_list calls))
  assistant_calls _ = []

  -- _tool_call_ids
  unfoldable pub tool_call_ids : Fields → List String
  tool_call_ids item =
      if (is_text (Json.get item "type") "function_call"
          || is_text (Json.get item "type") "custom_tool_call")
        && present (Json.get item "call_id")
      then id_of (Json.get item "call_id")
      else if is_text (Json.get item "role") "assistant"
      then assistant_calls (Json.get item "tool_calls")
      else []

  abbrev placeholder : String → Fields
  placeholder call_id = dict (
      ("type", str "function_call_output")
      ∷ ("call_id", str call_id)
      ∷ ("output", str "Fork started - processing in background")
      ∷ [])

  -- _placeholder_tool_outputs
  unfoldable pub placeholder_tool_outputs : List Fields → List Fields
  unfolding tool_call_ids
  placeholder_tool_outputs [] = []
  placeholder_tool_outputs (item ∷ items) =
      map placeholder (sorted (tool_call_ids item)) ++ placeholder_tool_outputs items

  -- item.get("type") in _TOOL_OUTPUT_TYPES
  unfoldable pub is_tool_output : Fields → Bool
  is_tool_output item =
      is_text (Json.get item "type") "function_call_output"
      || is_text (Json.get item "type") "custom_tool_call_output"

  -- The inner loop of _complete_prompt_history: the outputs at the head of the items, and the rest.
  unfoldable pub leading_outputs : List Fields → List Fields
  unfolding is_tool_output
  leading_outputs [] = []
  leading_outputs (item ∷ items) =
      let rest = leading_outputs items in if is_tool_output item then item ∷ rest else []

  abbrev output_ids : List Fields → List String
  output_ids [] = []
  output_ids (item ∷ items) = id_of (Json.get item "call_id") ++ output_ids items

  -- item without a key
  abbrev pub without : String → Fields → Fields
  without key end = end
  without key (field k v rest) =
      let others = without key rest in if k == key then others else field k v others

  -- What _complete_prompt_history keeps of an item with calls and of the outputs behind it.
  unfoldable pub kept_calls : Fields → List String → List Fields → List Fields
  kept_calls item call_ids outputs =
      if all (contains (output_ids outputs)) call_ids
      then item ∷ outputs
      else if is_text (Json.get item "role") "assistant"
          && not (strip (text_or python (Json.get item "content") "") == "")
      then without "tool_calls" item ∷ []
      else []

  -- The outer loop of _complete_prompt_history. The inner loop moves the index past outputs that it has already kept:
  -- as many of the items to come are skipped.
  unfoldable pub history_from : ℕ → List Fields → List Fields
  unfolding is_tool_output tool_call_ids leading_outputs kept_calls
  history_from skipped [] = []
  history_from (suc skipped) (item ∷ items) = history_from skipped items
  history_from zero (item ∷ items) = elim (is_tool_output item) [
    | true ↦ history_from zero items
    | false ↦ elim (tool_call_ids item) [
      | [] ↦ item ∷ history_from zero items
      | id ∷ ids ↦
          let outputs = leading_outputs items in
          kept_calls item (id ∷ ids) outputs ++ history_from (length outputs) items
    ]
  ]

  -- _complete_prompt_history
  unfoldable pub complete_prompt_history : List Fields → List Fields
  unfolding history_from
  complete_prompt_history items = history_from zero items

  abbrev snapshot_items : List Fields → List Fields → List Fields
  unfolding placeholder_tool_outputs
  snapshot_items prompt_items [] = prompt_items
  snapshot_items prompt_items (item ∷ items) =
      prompt_items ++ (item ∷ items) ++ placeholder_tool_outputs (item ∷ items)

  -- _forked_input_items, with _forked_prompt_snapshot_items
  unfoldable pub forked_input_items : ParentSession → String → List Fields
  unfolding snapshot_items complete_prompt_history
  forked_input_items session context_policy =
      if alone context_policy
      then []
      else if is_empty session.last_prompt_input_items
      then complete_prompt_history session.input_items
      else snapshot_items session.last_prompt_input_items session.last_model_output_items
