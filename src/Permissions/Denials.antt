-- ===== src/Permissions/Denials.antt =====
-- Deny rules of permissions/rules.py win in permissions/engine.py.
use xiao_ming.Prelude.{
  ℕ, ◌≤◌, String, Bool, true, ◌&&◌, some, List, [], ◌∷◌, ◌≡◌, refl, arith, any, keep, All,
  Bool-cases, inl, inr, sym, ◌∙◌,
}
use xiao_ming.Permissions.Types.{
  PermissionBehavior, deny, PermissionRule, PermissionDecision, severity,
}
use xiao_ming.Permissions.Rules.{max_by, match_rules, pick, applies, normalize, decision_of}
use xiao_ming.Permissions.Engine.{Platform, PermissionEngine, relative, decide_shell, decide_file}
use xiao_ming.Permissions.Severity.{le-max_by, All-le-max_by, is_deny, deny_of_le}

any-keep {ℓ} :
    {A : Type ℓ} (p q : A → Bool) (xs : List A) → any (λ x. p x && q x) xs ≡ any q (keep p xs)
any-keep p q [] = refl
any-keep p q (x ∷ xs) = ground (arith, any-keep p q xs)

severity-is_deny : (b : PermissionBehavior) → is_deny b ≡ true → severity b ≡ 2
severity-is_deny b h = ground arith

abbrev denies : PermissionRule → Bool
denies rule = is_deny rule.behavior

deny_bound :
    (n : ℕ) (rules : List PermissionRule)
    → any denies rules ≡ true
    → All (λ r. severity r.behavior ≤ n) rules
    → 2 ≤ n
deny_bound n [] e h = absurd cc
deny_bound n (r ∷ rules) e h = elim (Bool-cases (denies r)) [
  | inl denied ↦ omega (arith, severity-is_deny r.behavior denied, h.0)
  | inr other ↦ deny_bound n rules (ground (arith, e, other)) h.1
]

module _ (fnmatchcase : String → String → Bool) where
  pick-deny :
      (rules : List PermissionRule)
      → any denies rules ≡ true
      → (d : PermissionDecision) × (pick fnmatchcase rules ≡ some d) × (d.behavior ≡ deny)
  unfolding pick
  pick-deny [] e = absurd cc
  pick-deny (first ∷ rest) e =
      let key : PermissionRule → ℕ = λ r. severity r.behavior in
      let best = max_by key first rest in
      (
        decision_of fnmatchcase best,
        refl,
        deny_of_le best.behavior (
            deny_bound (key best) (first ∷ rest) e
              (le-max_by key first rest, All-le-max_by key (key best) first rest (omega arith))),
      )

  -- Some rule applies to the value, and denies.
  abbrev pub HasDeny : List PermissionRule → String → String → Type 0
  HasDeny rules tool value =
      any (λ r. applies fnmatchcase tool value r && is_deny r.behavior) rules ≡ true

  match_rules-deny :
      (rules : List PermissionRule) (tool value : String)
      → HasDeny rules tool value
      → (d : PermissionDecision) × (match_rules fnmatchcase rules tool value ≡ some d)
        × (d.behavior ≡ deny)
  unfolding match_rules
  match_rules-deny rules tool value h =
      pick-deny _ (sym (any-keep (applies fnmatchcase tool value) denies rules) ∙ h)

-- A rule that applies and denies cannot be outvoted: whatever the mode, bypass included, and
-- whatever other rules allow or ask, the shell command is denied.
pub decide_shell-deny :
    (platform : Platform) (engine : PermissionEngine) (command : String)
    → HasDeny platform.fnmatchcase engine.rules "Bash" (normalize command)
    → (decide_shell platform engine command).behavior ≡ deny
unfolding decide_shell
decide_shell-deny platform engine command h =
    let (d, found, denied) =
      match_rules-deny platform.fnmatchcase engine.rules "Bash" (normalize command) h in
    rw found denied

-- A rule that applies to a file's path in the workspace and denies cannot be outvoted, whatever the
-- mode and the other rules.
pub decide_file-deny :
    (platform : Platform) (engine : PermissionEngine) (tool requested : String)
    → HasDeny platform.fnmatchcase engine.rules tool
        (relative platform.root (platform.resolve requested))
    → (decide_file platform engine tool requested).behavior ≡ deny
unfolding decide_file
decide_file-deny platform engine tool requested h =
    let (d, found, denied) =
      match_rules-deny platform.fnmatchcase engine.rules tool
        (relative platform.root (platform.resolve requested)) h in
    ground (arith, found, denied)
