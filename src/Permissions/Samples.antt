-- ===== src/Permissions/Samples.antt =====
-- The theorems on permissions, applied to a few commands, files and rules.
use mathlib.Core.List.{flatten}
use xiao_ming.Prelude.{
  String, true, false, not, ◌≡◌, refl, ◌≢◌, ◌⊎◌, none, some, List, [], ◌∷◌, ◌≤◌, any, keep, All,
  ◌||◌, contains, split, strip, lstrip, rstrip, is_space, join, splitlines, lower, concat, arith,
}
use xiao_ming.Permissions.Types.{
  PermissionDecision, PermissionRule, allow, deny, default, auto, plan, severity,
}
use xiao_ming.Permissions.Rules.{match_rules, normalize, matches, pick, max_by}
use xiao_ming.Permissions.Shell.{
  lexed, shell_tokens, split_shell_segments_from_tokens, has_download_piped_to_shell,
  coalesce_operators, shell_operators, without_comments, download_from, is_download, is_pipe,
  is_shell, is_separator, split_from, is_auto_safe_segment, is_dangerous_shell,
  is_read_only_segment, mentions_sensitive_path,
}
use xiao_ming.Permissions.Engine.{
  Platform, PermissionEngine, decide_tokens, decide_segments, decide_shell_segment, strictest,
  decide_shell, decide_file, is_inside, relative,
}
use xiao_ming.Permissions.Engine
use xiao_ming.Permissions.Segments.{IsSegment, split_shell_segments_lem}
use xiao_ming.Permissions.Downloads.{has_download_piped_to_shell_lem}
use xiao_ming.Permissions.Modes.{IsSafe, decide_shell-allow, decide_shell_mono}
use xiao_ming.Permissions.Files.{MayEdit, decide_file-allow-write}
use xiao_ming.Permissions.Denials.{decide_shell-deny, decide_file-deny}
use xiao_ming.Permissions.Policy.{
  allowed, decide_shell-allowed, exact_allowlist, resolve_workspace_path,
  resolve_workspace_path_lem, path, same_path, sensitive_names, approval_mode_to_permission_mode,
}
use xiao_ming.Permissions.Policy
use xiao_ming.Permissions.Store.{load_project_rules, save_project_rules, merge_rule, same_rule}
use xiao_ming.Permissions.Store.Laws.{load-save_project_rules, merge_rule_lem}

-- A platform that lexes at spaces, whose workspace is /w, and whose paths are single names in it.
abbrev platform : Platform
platform = record {
  shlex = λ s. lexed (split s);
  fnmatchcase = λ value pattern. false;
  root = "/" ∷ "w" ∷ [];
  resolve = λ s. "/" ∷ "w" ∷ s ∷ [];
}

abbrev deny_rm : PermissionRule
deny_rm = record { behavior = deny; tool = "Bash"; pattern = "rm x"; source = "project" }

abbrev allow_ls : PermissionRule
allow_ls = record { behavior = allow; tool = "Bash"; pattern = "ls"; source = "project" }

abbrev allow_edit : PermissionRule
allow_edit = record { behavior = allow; tool = "Edit"; pattern = "a.py"; source = "project" }

abbrev deny_edit : PermissionRule
deny_edit = record { behavior = deny; tool = "Edit"; pattern = "b.py"; source = "project" }

abbrev engine : PermissionEngine
engine = record { mode = default; rules = deny_rm ∷ allow_edit ∷ deny_edit ∷ [] }

decide_shell-allow_example :
    (tokens : List String) × (shell_tokens platform.shlex (strip "ls -l") ≡ lexed tokens)
    × (has_download_piped_to_shell tokens ≡ false)
    × (split_shell_segments_from_tokens tokens ≢ [])
    × All (IsSafe default) (split_shell_segments_from_tokens tokens)
unfolding decide_shell match_rules normalize matches pick max_by join split strip lstrip rstrip
    is_space decide_tokens shell_tokens without_comments splitlines has_download_piped_to_shell
    download_from coalesce_operators is_download is_pipe is_shell is_separator
    split_shell_segments_from_tokens split_from decide_segments decide_shell_segment strictest
    is_auto_safe_segment is_dangerous_shell is_read_only_segment mentions_sensitive_path lower
    concat
decide_shell-allow_example = decide_shell-allow platform engine "ls -l" refl refl refl

decide_shell_mono_example :
    severity (decide_shell platform (record { mode = auto; rules = [] }) "pytest").behavior
    ≤ severity (decide_shell platform (record { mode = plan; rules = [] }) "pytest").behavior
decide_shell_mono_example = decide_shell_mono platform [] auto plan "pytest" (omega arith)

decide_shell-deny_example : (decide_shell platform engine "rm  x").behavior ≡ deny
unfolding normalize matches pick max_by join split strip lstrip rstrip is_space
decide_shell-deny_example = decide_shell-deny platform engine "rm  x" refl

decide_file-deny_example : (decide_file platform engine "Edit" "b.py").behavior ≡ deny
unfolding relative normalize matches pick max_by join split strip lstrip rstrip is_space
decide_file-deny_example = decide_file-deny platform engine "Edit" "b.py" refl

decide_file-allow-write_example :
    (is_inside platform.root (platform.resolve "a.py") ≡ true)
    × (((d : PermissionDecision) × (match_rules platform.fnmatchcase engine.rules "Edit"
              (relative platform.root (platform.resolve "a.py"))
            ≡ some d)
          × (d.behavior ≡ allow))
        ⊎ ((match_rules platform.fnmatchcase engine.rules "Edit"
                (relative platform.root (platform.resolve "a.py"))
              ≡ none)
            × MayEdit default (platform.resolve "a.py")))
unfolding decide_file match_rules relative is_inside normalize matches pick max_by join split strip
    lstrip rstrip is_space
decide_file-allow-write_example = decide_file-allow-write platform engine "Edit" "a.py" refl refl

decide_shell-allowed_example :
    (◌≡◌ {A = String} "suggest" "full_auto" × (contains exact_allowlist (normalize "ls") ≡ true))
    ⊎ ((tokens : List String) × (shell_tokens platform.shlex (strip "ls") ≡ lexed tokens)
        × (has_download_piped_to_shell tokens ≡ false)
        × (split_shell_segments_from_tokens tokens ≢ [])
        × All
            (IsSafe (approval_mode_to_permission_mode "suggest"))
            (split_shell_segments_from_tokens tokens))
unfolding Policy.decide_shell Engine.decide_shell approval_mode_to_permission_mode match_rules
    normalize matches pick max_by join split strip lstrip rstrip is_space decide_tokens shell_tokens
    without_comments splitlines has_download_piped_to_shell download_from coalesce_operators
    is_download is_pipe is_shell is_separator split_shell_segments_from_tokens split_from
    decide_segments decide_shell_segment strictest is_auto_safe_segment is_dangerous_shell
    is_read_only_segment mentions_sensitive_path lower concat
decide_shell-allowed_example = decide_shell-allowed platform "ls" "suggest" refl refl

resolve_workspace_path_lem_example :
    ("/" ∷ "w" ∷ "a.py" ∷ [] ≡ platform.resolve "a.py")
    × (is_inside platform.root ("/" ∷ "w" ∷ "a.py" ∷ []) ≡ true)
    × ((same_path ("/" ∷ "w" ∷ "a.py" ∷ []) platform.root
          || false
          || not (any (contains sensitive_names) ("/" ∷ "w" ∷ "a.py" ∷ [])))
        ≡ true)
unfolding resolve_workspace_path is_inside
resolve_workspace_path_lem_example =
    resolve_workspace_path_lem platform "a.py" false ("/" ∷ "w" ∷ "a.py" ∷ []) refl

has_download_piped_to_shell_lem_example :
    has_download_piped_to_shell ("ls" ∷ ";" ∷ "curl" ∷ "x" ∷ "|" ∷ "tee" ∷ "|" ∷ "sh" ∷ "-" ∷ [])
    ≡ true
unfolding is_download is_pipe is_shell is_separator lower
has_download_piped_to_shell_lem_example =
    has_download_piped_to_shell_lem ("ls" ∷ ";" ∷ []) "curl" ("x" ∷ []) "|" ("tee" ∷ "|" ∷ []) "sh"
      ("-" ∷ []) refl ((refl), tt) refl ((refl), ((refl), tt)) ((refl), ((refl), tt)) refl

split_shell_segments_lem_example :
    All IsSegment (split_shell_segments_from_tokens ("ls" ∷ "|" ∷ "wc" ∷ []))
    × (flatten (split_shell_segments_from_tokens ("ls" ∷ "|" ∷ "wc" ∷ []))
        ≡ keep (λ t. not (contains shell_operators t)) ("ls" ∷ "|" ∷ "wc" ∷ []))
split_shell_segments_lem_example = split_shell_segments_lem ("ls" ∷ "|" ∷ "wc" ∷ [])

load-save_project_rules_example :
    load_project_rules (some (save_project_rules (deny_rm ∷ allow_ls ∷ [])))
    ≡ some (deny_rm ∷ allow_ls ∷ [])
load-save_project_rules_example =
    load-save_project_rules (deny_rm ∷ allow_ls ∷ []) ((refl), ((refl), tt))

merge_rule_lem_example :
    (keep (λ r. same_rule r deny_rm) (merge_rule (deny_rm ∷ allow_ls ∷ []) deny_rm) ≡ deny_rm ∷ [])
    × (keep (λ r. not (same_rule r deny_rm)) (merge_rule (deny_rm ∷ allow_ls ∷ []) deny_rm)
        ≡ keep (λ r. not (same_rule r deny_rm)) (deny_rm ∷ allow_ls ∷ []))
    × (merge_rule (merge_rule (deny_rm ∷ allow_ls ∷ []) deny_rm) deny_rm
        ≡ merge_rule (deny_rm ∷ allow_ls ∷ []) deny_rm)
merge_rule_lem_example = merge_rule_lem (deny_rm ∷ allow_ls ∷ []) deny_rm
