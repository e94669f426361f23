-- ===== src/Permissions/Engine.antt =====
-- PermissionEngine of permissions/engine.py.
use xiao_ming.Prelude.{
  String, Bool, true, false, ◌&&◌, Option, none, some, List, [], ◌∷◌, map, ◌==◌, if◌then◌else◌, any,
  contains, concat, strip, join, lower,
}
use xiao_ming.Permissions.Types.{
  PermissionBehavior, allow, ask, deny, PermissionMode, accept_edits, auto, PermissionRule,
  PermissionDecision, severity, is_bypass, is_auto, is_plan,
}
use xiao_ming.Permissions.Rules.{max_by, normalize, match_rules}
use xiao_ming.Permissions.Shell.{
  Lexed, lexed, failed, redirect_operators, sensitive_parts, sensitive_write_parts, shell_tokens,
  split_shell_segments_from_tokens, has_download_piped_to_shell, is_dangerous_shell,
  mentions_sensitive_path, is_read_only_segment, is_auto_safe_segment,
}

abbrev pub decision : PermissionBehavior → String → PermissionDecision
decision behavior reason = record { behavior = behavior; reason = reason; matched_rule = none }

-- _strictest, of a list with a first element
unfoldable pub strictest : PermissionDecision → List PermissionDecision → PermissionDecision
unfolding max_by
strictest first rest = max_by (λ d. severity d.behavior) first rest

-- What the engine takes from the standard library and the file system: `shlex`, `fnmatchcase`, and
-- `(root / requested).resolve()`, a path by its parts.
pub record Platform : Type 0 where
  pub shlex : String → Lexed
  pub fnmatchcase : String → String → Bool
  pub root : List String
  pub resolve : String → List String

pub record PermissionEngine : Type 0 where
  pub mode : PermissionMode
  pub rules : List PermissionRule

-- PermissionEngine._decide_shell_segment
unfoldable pub decide_shell_segment : PermissionMode → List String → PermissionDecision
decide_shell_segment mode [] = decision allow "empty shell segment"
decide_shell_segment mode (command ∷ args) =
    let segment = command ∷ args in
    let lowered = map lower segment in
    if any (contains redirect_operators) segment
    then decision ask "shell redirection can write files"
    else if is_dangerous_shell lowered
    then decision deny "dangerous shell command"
    else if mentions_sensitive_path segment
    then decision ask "command mentions sensitive path"
    else if is_read_only_segment lowered
    then decision allow "read-only shell command"
    else if is_auto mode && is_auto_safe_segment lowered
    then decision allow "auto-safe development command"
    else decision ask (concat ("unknown or write-capable shell command: " ∷ command ∷ []))

-- The decision on the segments, after the guards of `decide_shell`.
unfoldable pub decide_segments : PermissionMode → List (List String) → PermissionDecision
unfolding decide_shell_segment strictest
decide_segments mode [] = decision ask "empty shell command"
decide_segments mode (segment ∷ segments) =
    if is_bypass mode
    then decision allow "bypass mode"
    else strictest (decide_shell_segment mode segment) (map (decide_shell_segment mode) segments)

unfoldable pub decide_tokens : PermissionMode → Lexed → PermissionDecision
unfolding decide_segments
decide_tokens mode (failed message) =
    decision ask (concat ("could not parse shell command: " ∷ message ∷ []))
decide_tokens mode (lexed tokens) =
    if has_download_piped_to_shell tokens
    then decision deny "download piped to shell"
    else decide_segments mode (split_shell_segments_from_tokens tokens)

-- `explicit` if it is there
abbrev pub or_else : Option PermissionDecision → PermissionDecision → PermissionDecision
or_else none other = other
or_else (some explicit) other = explicit

-- str(resolved.relative_to(root)), and "." for the root itself
unfoldable pub relative : List String → List String → String
relative [] [] = "."
relative [] parts = join "/" parts
relative (r ∷ root) [] = "."
relative (r ∷ root) (p ∷ parts) = relative root parts

-- root == resolved or root in resolved.parents
unfoldable pub is_inside : List String → List String → Bool
is_inside [] parts = true
is_inside (r ∷ root) [] = false
is_inside (r ∷ root) (p ∷ parts) = r == p && is_inside root parts

abbrev pub read_tools : List String
read_tools = "Read" ∷ "List" ∷ "Search" ∷ "GitStatus" ∷ []

-- _is_sensitive_path
unfoldable pub is_sensitive_path : List String → Bool
is_sensitive_path parts = any (contains sensitive_parts) parts

-- _is_sensitive_write_path
unfoldable pub is_sensitive_write_path : List String → Bool
is_sensitive_write_path parts = any (contains sensitive_write_parts) parts

abbrev pub allows_edits : PermissionMode → Option String
allows_edits accept_edits = some "accept_edits"
allows_edits auto = some "auto"
allows_edits _ = none

abbrev decide_edit : Option String → PermissionDecision
decide_edit (some name) = decision allow (concat (name ∷ " allows workspace edits" ∷ []))
decide_edit none = decision ask "file write requires approval"

-- The part of `decide_file` behind the explicit rules.
unfoldable pub decide_access : PermissionMode → String → List String → PermissionDecision
decide_access mode tool resolved =
    if is_bypass mode
    then decision allow "bypass mode"
    else if contains read_tools tool
    then (if is_sensitive_path resolved
        then decision ask "path is sensitive"
        else decision allow "read-only file tool")
    else if is_plan mode
    then decision deny "plan mode blocks writes"
    else if is_sensitive_write_path resolved
    then decision ask "path is sensitive"
    else decide_edit (allows_edits mode)

module _ (platform : Platform) (engine : PermissionEngine) where
  -- PermissionEngine.decide_shell
  unfoldable pub decide_shell : String → PermissionDecision
  decide_shell command =
      or_else (match_rules platform.fnmatchcase engine.rules "Bash" (normalize command))
        (decide_tokens engine.mode (shell_tokens platform.shlex (strip command)))

  -- PermissionEngine.decide_file
  unfoldable pub decide_file : String → String → PermissionDecision
  decide_file tool requested_path =
      let resolved = platform.resolve requested_path in
      if is_inside platform.root resolved
      then or_else
          (match_rules platform.fnmatchcase engine.rules tool (relative platform.root resolved))
          (decide_access engine.mode tool resolved)
      else decision deny "path is outside workspace"
