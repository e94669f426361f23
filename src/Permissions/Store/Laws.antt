-- ===== src/Permissions/Store/Laws.antt =====
-- permissions/store.py: saving and loading agree, and a rule is added once.
use xiao_ming.Prelude.{
  Bool, true, false, not, some, List, [], ◌∷◌, ◌++◌, ◌≡◌, refl, arith, ◌==◌, eq_refl, keep, map, ap,
  All,
}
use mathlib.Core.List.{append-nil}
use xiao_ming.Json.{to_list-of_list}
use xiao_ming.Permissions.Types.{PermissionBehavior, allow, ask, deny, PermissionRule}
use xiao_ming.Permissions.Store.{
  value, behavior_of, same_rule, rule_to_json, save_project_rules, rule_from_json, load_rules,
  load_project_rules, merge_rule,
}

behavior_of-value : (b : PermissionBehavior) → behavior_of (value b) ≡ some b
behavior_of-value allow = refl
behavior_of-value ask = refl
behavior_of-value deny = refl

-- A rule with a source: an empty one is read back as "project".
abbrev pub IsNamed : PermissionRule → Type 0
IsNamed rule = (rule.source == "") ≡ false

rule_from-to_json :
    (rule : PermissionRule) → IsNamed rule → rule_from_json (rule_to_json rule) ≡ some rule
unfolding rule_from_json rule_to_json
rule_from-to_json rule h = rw (behavior_of-value rule.behavior, h)

load-map_to_json :
    (rules : List PermissionRule)
    → All IsNamed rules
    → load_rules (map rule_to_json rules) ≡ some rules
unfolding load_rules
load-map_to_json [] h = refl
load-map_to_json (r ∷ rules) h = cc (rule_from-to_json r h.0, load-map_to_json rules h.1)

-- Rules that have a source are loaded as they were saved, in their order.
pub load-save_project_rules :
    (rules : List PermissionRule)
    → All IsNamed rules
    → load_project_rules (some (save_project_rules rules)) ≡ some rules
unfolding load_project_rules save_project_rules
load-save_project_rules rules h =
    rw (to_list-of_list (map rule_to_json rules)) (load-map_to_json rules h)

same_rule_self : (rule : PermissionRule) → same_rule rule rule ≡ true
unfolding same_rule
same_rule_self rule = simp eq_refl

keep-append {ℓ} :
    {A : Type ℓ} (p : A → Bool) (xs ys : List A) → keep p (xs ++ ys) ≡ keep p xs ++ keep p ys
keep-append p [] ys = refl
keep-append p (x ∷ xs) ys = ground (arith, keep-append p xs ys)

keep-keep {ℓ} : {A : Type ℓ} (p : A → Bool) (xs : List A) → keep p (keep p xs) ≡ keep p xs
keep-keep p [] = refl
keep-keep p (x ∷ xs) = ground (arith, keep-keep p xs)

keep_same-differ {ℓ} :
    {A : Type ℓ} (p : A → Bool) (xs : List A) → keep p (keep (λ x. not (p x)) xs) ≡ []
keep_same-differ p [] = refl
keep_same-differ p (x ∷ xs) = ground (arith, keep_same-differ p xs)

module _ {ℓ} {A : Type ℓ} (p : A → Bool) (xs : List A) (x : A) (h : p x ≡ true) where
  keep-snoc_same : keep p (keep (λ y. not (p y)) xs ++ x ∷ []) ≡ x ∷ []
  keep-snoc_same = rw (keep-append p (keep (λ y. not (p y)) xs) (x ∷ []), keep_same-differ p xs, h)

  keep-snoc_others :
      keep (λ y. not (p y)) (keep (λ y. not (p y)) xs ++ x ∷ []) ≡ keep (λ y. not (p y)) xs
  keep-snoc_others =
      rw
        (
          keep-append (λ y. not (p y)) (keep (λ y. not (p y)) xs) (x ∷ []),
          keep-keep (λ y. not (p y)) xs,
          h,
        )
        (append-nil _)

-- After a rule is added, the rules like it are that one alone, the others are what they were, in
-- their order, and adding it again changes nothing.
pub merge_rule_lem :
    (rules : List PermissionRule) (rule : PermissionRule)
    → (keep (λ r. same_rule r rule) (merge_rule rules rule) ≡ rule ∷ [])
      × (keep (λ r. not (same_rule r rule)) (merge_rule rules rule)
          ≡ keep (λ r. not (same_rule r rule)) rules)
      × (merge_rule (merge_rule rules rule) rule ≡ merge_rule rules rule)
unfolding merge_rule
merge_rule_lem rules rule =
    let same = λ (r : PermissionRule). same_rule r rule in
    let others = keep-snoc_others same rules rule (same_rule_self rule) in
    (keep-snoc_same same rules rule (same_rule_self rule), others, ap (λ l. l ++ rule ∷ []) others)
