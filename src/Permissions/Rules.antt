-- ===== src/Permissions/Rules.antt =====
-- permissions/rules.py, and `max` by severity as the engine uses it too.
use xiao_ming.Prelude.{
  ℕ, String, Bool, ◌&&◌, ◌||◌, Option, none, some, List, [], ◌∷◌, ltb, ◌==◌, if◌then◌else◌, keep,
  strip, split, join, concat,
}
use xiao_ming.Permissions.Types.{PermissionRule, PermissionDecision, severity}

-- max(first, *rest, key=key): of equal keys the first wins.
unfoldable pub max_by {ℓ} : {A : Type ℓ} → (A → ℕ) → A → List A → A
max_by key best [] = best
max_by key best (x ∷ xs) = max_by key (if ltb (key best) (key x) then x else best) xs

-- " ".join(text.strip().split())
unfoldable pub normalize : String → String
normalize text = join " " (split (strip text))

module _ (fnmatchcase : String → String → Bool) where
  -- _matches
  unfoldable pub matches : String → String → Bool
  matches pattern value =
      let normalized_pattern = normalize pattern in
      let normalized_value = normalize value in
      normalized_pattern == normalized_value || fnmatchcase normalized_value normalized_pattern

  abbrev pub applies : String → String → PermissionRule → Bool
  applies tool value rule = rule.tool == tool && matches rule.pattern value

  abbrev pub decision_of : PermissionRule → PermissionDecision
  decision_of rule = record {
    behavior = rule.behavior;
    reason =
        concat ("matched " ∷ rule.source ∷ " rule " ∷ rule.tool ∷ "(" ∷ rule.pattern ∷ ")" ∷ []);
    matched_rule = some rule;
  }

  unfoldable pub pick : List PermissionRule → Option PermissionDecision
  pick [] = none
  pick (first ∷ rest) = some (decision_of (max_by (λ r. severity r.behavior) first rest))

  unfoldable pub match_rules : List PermissionRule → String → String → Option PermissionDecision
  unfolding pick
  match_rules rules tool value = pick (keep (applies tool value) rules)
