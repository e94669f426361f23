-- ===== src/Permissions/Store.antt =====
-- permissions/store.py: the rules of a project, saved as JSON.
pub mod Laws
use xiao_ming.Prelude.{
  String, Bool, true, false, not, ◌&&◌, Option, none, some, List, [], ◌∷◌, ◌++◌, ◌≡◌, refl, sym,
  arith, ◌==◌, eq_iff, eq_refl, keep, any, map, if◌then◌else◌, Bool-cases, inl, inr, ap,
}
use xiao_ming.Json
use xiao_ming.Json.{Value, str, arr, obj, Fields, dict, of_list, to_list}
use xiao_ming.Permissions.Types.{PermissionBehavior, allow, ask, deny, PermissionRule}

-- PermissionBehavior.value
abbrev pub value : PermissionBehavior → String
value allow = "allow"
value ask = "ask"
value deny = "deny"

-- PermissionBehavior(value): none is its ValueError.
abbrev pub behavior_of : String → Option PermissionBehavior
behavior_of s =
    if s == "allow"
    then some allow
    else if s == "ask"
    then some ask
    else if s == "deny"
    then some deny
    else none

-- _same_rule
unfoldable pub same_rule : PermissionRule → PermissionRule → Bool
same_rule left right =
    left.tool == right.tool
    && left.pattern == right.pattern
    && value left.behavior == value right.behavior

-- _rule_to_json
unfoldable pub rule_to_json : PermissionRule → Value
rule_to_json rule = obj (
    dict (
      ("behavior", str (value rule.behavior))
      ∷ ("tool", str rule.tool)
      ∷ ("pattern", str rule.pattern)
      ∷ ("source", str rule.source)
      ∷ []))

-- save_project_rules: what the file holds after it.
unfoldable pub save_project_rules : List PermissionRule → Value
unfolding rule_to_json
save_project_rules rules = obj (dict (("rules", arr (of_list (map rule_to_json rules))) ∷ []))

abbrev text_of : Option Value → Option String
text_of (some (str s)) = some s
text_of _ = none

abbrev source_of : Option Value → String
source_of (some (str s)) = if s == "" then "project" else s
source_of _ = "project"

abbrev rule_of :
    Option PermissionBehavior → Option String → Option String → String → Option PermissionRule
rule_of (some b) (some t) (some p) s =
    some (record { behavior = b; tool = t; pattern = p; source = s })
rule_of _ _ _ _ = none

abbrev behavior_at : Option String → Option PermissionBehavior
behavior_at none = none
behavior_at (some s) = behavior_of s

-- A rule of the file: none where the reader raises. The fields of a saved rule are texts; a file that
-- another program wrote with other types there is not modelled.
unfoldable pub rule_from_json : Value → Option PermissionRule
rule_from_json (obj item) =
    rule_of (behavior_at (text_of (Json.get item "behavior"))) (text_of (Json.get item "tool"))
      (text_of (Json.get item "pattern")) (source_of (Json.get item "source"))
rule_from_json _ = none

abbrev append_rule :
    Option PermissionRule → Option (List PermissionRule) → Option (List PermissionRule)
append_rule (some r) (some rs) = some (r ∷ rs)
append_rule _ _ = none

unfoldable pub load_rules : List Value → Option (List PermissionRule)
unfolding rule_from_json
load_rules [] = some []
load_rules (item ∷ items) = append_rule (rule_from_json item) (load_rules items)

abbrev rules_at : Option Value → Option (List PermissionRule)
rules_at none = some []
rules_at (some (arr items)) = load_rules (to_list items)
rules_at (some _) = none

-- load_project_rules, from the file's value if the file is there.
unfoldable pub load_project_rules : Option Value → Option (List PermissionRule)
unfolding load_rules
load_project_rules none = some []
load_project_rules (some (obj data_fields)) = rules_at (Json.get data_fields "rules")
load_project_rules (some _) = none

-- The list that add_project_rule saves and returns.
unfoldable pub merge_rule : List PermissionRule → PermissionRule → List PermissionRule
unfolding same_rule
merge_rule rules rule = keep (λ existing. not (same_rule existing rule)) rules ++ rule ∷ []

abbrev saved : Option (List PermissionRule) → PermissionRule → Option (List PermissionRule × Value)
saved none rule = none
saved (some rules) rule = some (merge_rule rules rule, save_project_rules (merge_rule rules rule))

-- add_project_rule: the rules it returns, and the file's new value.
unfoldable pub add_project_rule :
    Option Value → PermissionRule → Option (List PermissionRule × Value)
unfolding merge_rule
add_project_rule file rule = saved (load_project_rules file) rule
