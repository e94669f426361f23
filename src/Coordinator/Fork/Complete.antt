-- ===== src/Coordinator/Fork/Complete.antt =====
-- The history that a worker is forked with is complete, and a complete history is left as it is.
use xiao_ming.Prelude.{
  zero, Bool, true, false, not, ◌≡◌, List, [], ◌∷◌, ◌++◌, length, if◌then◌else◌,
}
use xiao_ming.Json
use xiao_ming.Json.{Fields, Python}
use xiao_ming.Coordinator.Fork.{
  is_tool_output, tool_call_ids, leading_outputs, history_from, is_empty,
}
use xiao_ming.Coordinator.Fork.Answered.{Answered}

module _ (python : Python) where
  abbrev has_calls : Fields → Bool
  has_calls item = not (is_empty (tool_call_ids python item))

  -- Each output stands behind an item with calls, with nothing but outputs in between, or at the head where it is allowed.
  abbrev pub Behind : Bool → List Fields → Type 0
  Behind allowed [] = Unit
  Behind allowed (item ∷ items) =
      (is_tool_output python item ≡ true → allowed ≡ true)
      × Behind (if is_tool_output python item then allowed else has_calls item) items

  -- What the outer loop gives for the items, behind an item with calls or not.
  abbrev kept_from : Bool → List Fields → List Fields
  kept_from false items = history_from python zero items
  kept_from true items =
      leading_outputs python items
      ++ history_from python (length (leading_outputs python items)) items

  -- Each item that is no output has the outputs of all its calls right behind it, and each output stands behind such an
  -- item.
  abbrev pub IsComplete : List Fields → Type 0
  IsComplete items = Answered python items × Behind false items
