-- ===== src/Permissions/Policy.antt =====
-- policy/shell_policy.py and policy/paths.py
use xiao_ming.Prelude.{
  String, Bool, true, false, ◌&&◌, ◌||◌, not, List, [], ◌∷◌, ◌≡◌, ◌≢◌, ◌⊎◌, inl, inr, refl, arith,
  contains, any, ◌==◌, eq_iff, if◌then◌else◌, All, concat, strip, Bool-cases,
}
use xiao_ming.Permissions.Types.{
  PermissionBehavior, allow, ask, deny, PermissionMode, default, plan, accept_edits, auto, bypass,
  is_bypass,
}
use xiao_ming.Permissions.Rules.{normalize, match_rules, pick}
use xiao_ming.Permissions.Shell.{
  lexed, shell_tokens, split_shell_segments_from_tokens, has_download_piped_to_shell,
}
use xiao_ming.Permissions.Engine.{Platform, PermissionEngine, is_inside}
use xiao_ming.Permissions.Engine
use xiao_ming.Permissions.Modes.{IsSafe, decide_shell-allow}

pub data ShellDecision : Type 0 where
  allowed approve reject : ShellDecision

abbrev pub exact_allowlist : List String
exact_allowlist =
    "git status" ∷ "git diff" ∷ "pytest" ∷ "python -m pytest" ∷ "npm test" ∷ "npm run test"
    ∷ "npm run lint" ∷ []

-- approval_mode_to_permission_mode; the return below its last one is never reached.
unfoldable pub approval_mode_to_permission_mode : String → PermissionMode
approval_mode_to_permission_mode approval_mode =
    if approval_mode == "auto_edit"
    then accept_edits
    else if approval_mode == "full_auto"
    then auto
    else if approval_mode == "plan"
    then plan
    else if approval_mode == "accept_edits"
    then accept_edits
    else if approval_mode == "auto"
    then auto
    else if approval_mode == "bypass"
    then bypass
    else default

abbrev of_behavior : PermissionBehavior → ShellDecision
of_behavior allow = allowed
of_behavior deny = reject
of_behavior ask = approve

module _ (platform : Platform) where
  -- decide_shell of shell_policy.py
  unfoldable pub decide_shell : String → String → ShellDecision
  decide_shell command approval_mode =
      if approval_mode == "full_auto" && contains exact_allowlist (normalize command)
      then allowed
      else of_behavior
          (Engine.decide_shell platform
            (record { mode = approval_mode_to_permission_mode approval_mode; rules = [] })
            command).behavior

  allow_of_allowed : (b : PermissionBehavior) → of_behavior b ≡ allowed → b ≡ allow
  allow_of_allowed b h = ground arith

  -- In an approval mode other than bypass, a command runs unasked only if it is on the exact list
  -- and the mode is full_auto, or it was lexed, pipes no download to a shell, and each of its
  -- segments, of which there is one at least, is safe in the permission mode that the approval mode
  -- stands for.
  pub decide_shell-allowed :
      (command approval_mode : String)
      → is_bypass (approval_mode_to_permission_mode approval_mode) ≡ false
      → decide_shell command approval_mode ≡ allowed
      → ((approval_mode ≡ "full_auto") × (contains exact_allowlist (normalize command) ≡ true))
        ⊎ ((tokens : List String) × (shell_tokens platform.shlex (strip command) ≡ lexed tokens)
            × (has_download_piped_to_shell tokens ≡ false)
            × (split_shell_segments_from_tokens tokens ≢ [])
            × All
                (IsSafe (approval_mode_to_permission_mode approval_mode))
                (split_shell_segments_from_tokens tokens))
  unfolding decide_shell match_rules pick
  decide_shell-allowed command approval_mode b h =
      elim (Bool-cases
        (approval_mode == "full_auto" && contains exact_allowlist (normalize command))) [
          | inl exact ↦
              inl (
                (eq_iff approval_mode "full_auto").0 (ground (arith, exact)),
                ground (arith, exact),
              )
          | inr other ↦ inr (
              decide_shell-allow platform
                (record { mode = approval_mode_to_permission_mode approval_mode; rules = [] })
                command b refl (allow_of_allowed _ (rw other at h)))
        ]

abbrev pub sensitive_names : List String
sensitive_names = ".env" ∷ []

-- The path, or the text of the ValueError.
pub data Resolved : Type 0 where
  path : List String → Resolved
  refused : String → Resolved

abbrev pub same_path : List String → List String → Bool
same_path [] [] = true
same_path (x ∷ xs) (y ∷ ys) = x == y && same_path xs ys
same_path _ _ = false

module _ (platform : Platform) where
  -- resolve_workspace_path
  unfoldable pub resolve_workspace_path : String → Bool → Resolved
  resolve_workspace_path requested allow_sensitive =
      let resolved = platform.resolve requested in
      if same_path resolved platform.root
      then path resolved
      else if not (is_inside platform.root resolved)
      then refused (concat ("path is outside workspace: " ∷ requested ∷ []))
      else if not allow_sensitive && any (contains sensitive_names) resolved
      then refused (concat ("path is sensitive and requires explicit approval: " ∷ requested ∷ []))
      else path resolved

is_inside-same_path :
    (parts root : List String) → same_path parts root ≡ true → is_inside root parts ≡ true
unfolding is_inside
is_inside-same_path [] [] h = refl
is_inside-same_path [] (r ∷ root) h = cc
is_inside-same_path (p ∷ parts) [] h = refl
is_inside-same_path (p ∷ parts) (r ∷ root) h =
    ground (arith, eq_iff p r, eq_iff r p, is_inside-same_path parts root)

-- A path that is returned is the one that the request resolves to, it lies in the workspace, and it
-- has no sensitive part unless it is the root or the caller allowed it.
pub resolve_workspace_path_lem :
    (platform : Platform) (requested : String) (allow_sensitive : Bool) (p : List String)
    → resolve_workspace_path platform requested allow_sensitive ≡ path p
    → (p ≡ platform.resolve requested)
      × (is_inside platform.root p ≡ true)
      × ((same_path p platform.root || allow_sensitive || not (any (contains sensitive_names) p))
          ≡ true)
unfolding resolve_workspace_path
resolve_workspace_path_lem platform requested allow_sensitive p h =
    let same = is_inside-same_path (platform.resolve requested) platform.root in
    (ground (arith, h), ground (arith, h, same), ground (arith, h))
