-- ===== src/Context/Windows.antt =====
-- context/windows.py: the context windows of models, in tokens.
use xiao_ming.Prelude.{
  ℕ, ◌*◌, ◌/◌, ◌≤◌, ◌<◌, String, Bool, true, false, ◌||◌, Option, none, some, [], ◌∷◌, ◌==◌,
  if◌then◌else◌, leb, contains, lower, starts_with, arith,
}

abbrev default_context_window_tokens : ℕ
default_context_window_tokens = 128000

-- The table of model_context_window_tokens, for the model's name in lower case.
unfoldable pub window_of : String → ℕ
window_of normalized =
    if normalized == ""
    then default_context_window_tokens
    else if starts_with "deepseek-v4" normalized
    then 1000000
    else if starts_with "deepseek-v3.2" normalized
    then 1000000
    else if contains ("deepseek-chat" ∷ "deepseek-reasoner" ∷ []) normalized
    then 1000000
    else if starts_with "deepseek" normalized
    then 128000
    else if starts_with "gpt-4.1" normalized
    then 1047576
    else if starts_with "gpt-5" normalized
    then 400000
    else if starts_with "o1" normalized
        || starts_with "o3" normalized
        || starts_with "o4" normalized
    then 128000
    else if starts_with "gpt-4o" normalized
    then 128000
    else default_context_window_tokens

unfoldable pub model_context_window_tokens : Option String → ℕ
unfolding window_of lower
model_context_window_tokens none = window_of ""
model_context_window_tokens (some model) = window_of (lower model)

-- int(window * 0.9) for a window of the table
abbrev nine_tenths : ℕ → ℕ
nine_tenths window = window * 9 / 10

-- max(4_000, tokens)
abbrev at_least_4000 : ℕ → ℕ
at_least_4000 tokens = if leb tokens 4000 then 4000 else tokens

-- The number of output tokens that the second argument allows is not used.
unfoldable pub compact_threshold_tokens : Option String → Option ℕ → ℕ
unfolding model_context_window_tokens
compact_threshold_tokens model max_output_tokens =
    at_least_4000 (nine_tenths (model_context_window_tokens model))

-- A threshold that leaves room in a window.
abbrev Leaves : ℕ → Type 0
Leaves window =
    (4000 ≤ at_least_4000 (nine_tenths window)) × (at_least_4000 (nine_tenths window) < window)

if-Leaves : (b : Bool) (m n : ℕ) → Leaves m → Leaves n → Leaves (if b then m else n)
if-Leaves true m n p q = p
if-Leaves false m n p q = q

window_of-Leaves : (normalized : String) → Leaves (window_of normalized)
unfolding window_of
window_of-Leaves normalized =
    let usual : Leaves 128000 = (omega arith, omega arith) in
    let gpt_4_1 : Leaves 1047576 = (omega arith, omega arith) in
    let gpt_5 : Leaves 400000 = (omega arith, omega arith) in
    let million : Leaves 1000000 = (omega arith, omega arith) in
    if-Leaves (normalized == "") _ _ usual (
      if-Leaves (starts_with "deepseek-v4" normalized) _ _ million (
        if-Leaves (starts_with "deepseek-v3.2" normalized) _ _ million (
          if-Leaves (contains ("deepseek-chat" ∷ "deepseek-reasoner" ∷ []) normalized) _ _ million (
            if-Leaves (starts_with "deepseek" normalized) _ _ usual (
              if-Leaves (starts_with "gpt-4.1" normalized) _ _ gpt_4_1 (
                if-Leaves (starts_with "gpt-5" normalized) _ _ gpt_5 (
                  if-Leaves
                    (starts_with "o1" normalized
                      || starts_with "o3" normalized
                      || starts_with "o4" normalized)
                    _ _ usual (if-Leaves (starts_with "gpt-4o" normalized) _ _ usual usual))))))))

-- For every model, known or not, the conversation is compacted at 4000 tokens or more, and before the
-- context window of the model is full.
pub compact_threshold_tokens-bounds :
    (model : Option String) (max_output_tokens : Option ℕ)
    → (4000 ≤ compact_threshold_tokens model max_output_tokens)
      × (compact_threshold_tokens model max_output_tokens < model_context_window_tokens model)
unfolding compact_threshold_tokens model_context_window_tokens
compact_threshold_tokens-bounds none max_output_tokens = window_of-Leaves ""
compact_threshold_tokens-bounds (some model) max_output_tokens = window_of-Leaves (lower model)
