-- ===== src/Permissions/Modes.antt =====
-- Shell decisions of permissions/engine.py across modes, rules and segments.
use xiao_ming.Prelude.{
  ℕ, ◌≤◌, String, true, false, ◌&&◌, ◌||◌, Option, none, some, List, [], ◌∷◌, ◌≡◌, ◌≢◌, refl, arith,
  any, All, Bool-cases, inl, inr, map, contains, lower, strip,
}
use xiao_ming.Permissions.Types.{
  allow, PermissionMode, auto, bypass, PermissionRule, PermissionDecision, severity, is_auto,
  is_bypass,
}
use xiao_ming.Permissions.Rules.{max_by, match_rules, normalize}
use xiao_ming.Permissions.Shell.{
  Lexed, lexed, failed, redirect_operators, shell_tokens, split_shell_segments_from_tokens,
  has_download_piped_to_shell, is_dangerous_shell, mentions_sensitive_path, is_read_only_segment,
  is_auto_safe_segment,
}
use xiao_ming.Permissions.Engine.{
  Platform, PermissionEngine, strictest, decide_shell_segment, decide_segments, decide_tokens,
  or_else, decide_shell,
}
use xiao_ming.Permissions.Segments.{IsSegment, split_shell_segments_lem}
use xiao_ming.Permissions.Severity.{le-max_by, All-le-max_by, max_by_elim, allow_of_le}

-- What `decide_shell` asks of a segment before it allows it without a rule.
abbrev pub IsSafe : PermissionMode → List String → Type 0
IsSafe mode segment =
    (any (contains redirect_operators) segment ≡ false)
    × (is_dangerous_shell (map lower segment) ≡ false)
    × (mentions_sensitive_path segment ≡ false)
    × ((is_read_only_segment (map lower segment)
          || (is_auto mode && is_auto_safe_segment (map lower segment)))
        ≡ true)

segment-IsSafe :
    (mode : PermissionMode) (segment : List String)
    → segment ≢ []
    → (decide_shell_segment mode segment).behavior ≡ allow
    → IsSafe mode segment
unfolding decide_shell_segment
segment-IsSafe mode [] n h = absurd (n refl)
segment-IsSafe mode (c ∷ args) n h = (ground arith, ground arith, ground arith, ground arith)

All-segments :
    (mode : PermissionMode) (segments : List (List String))
    → All IsSegment segments
    → All (λ d. severity d.behavior ≤ 0) (map (decide_shell_segment mode) segments)
    → All (IsSafe mode) segments
All-segments mode [] w h = tt
All-segments mode (s ∷ segments) w h =
    (segment-IsSafe mode s w.0.0 (allow_of_le _ h.0), All-segments mode segments w.1 h.1)

segments-IsSafe :
    (mode : PermissionMode) (segments : List (List String))
    → is_bypass mode ≡ false
    → All IsSegment segments
    → (decide_segments mode segments).behavior ≡ allow
    → (segments ≢ []) × All (IsSafe mode) segments
unfolding decide_segments
segments-IsSafe mode [] m w h = absurd cc
segments-IsSafe mode (s ∷ segments) m w h =
    let allowed : severity
          (strictest (decide_shell_segment mode s)
            (map (decide_shell_segment mode) segments)).behavior
        ≤ 0 =
      ground (arith, m, h) in
    (
      (λ e. cc),
      All-segments mode (s ∷ segments) w (
        ground (
          arith,
          le-max_by (λ d. severity d.behavior) (decide_shell_segment mode s)
              (map (decide_shell_segment mode) segments),
          allowed,
        ),
        All-le-max_by (λ d. severity d.behavior) 0 _ _ allowed,
      ),
    )

tokens-IsSafe :
    (mode : PermissionMode) (l : Lexed)
    → is_bypass mode ≡ false
    → (decide_tokens mode l).behavior ≡ allow
    → (tokens : List String) × (l ≡ lexed tokens)
      × (has_download_piped_to_shell tokens ≡ false)
      × (split_shell_segments_from_tokens tokens ≢ [])
      × All (IsSafe mode) (split_shell_segments_from_tokens tokens)
unfolding decide_tokens
tokens-IsSafe mode (failed message) m h = absurd cc
tokens-IsSafe mode (lexed tokens) m h =
    let safe =
      segments-IsSafe mode (split_shell_segments_from_tokens tokens) m
        (split_shell_segments_lem tokens).0 (ground (arith, h)) in
    (tokens, refl, ground (arith, h), safe.0, safe.1)

-- Outside bypass mode, a command that no rule matches is allowed only if it was lexed, no download
-- is piped to a shell in it, it has a segment, and each of its segments redirects nothing, is not
-- dangerous, names no sensitive path, and is read-only or, in auto mode, a safe development command.
pub decide_shell-allow :
    (platform : Platform) (engine : PermissionEngine) (command : String)
    → is_bypass engine.mode ≡ false
    → match_rules platform.fnmatchcase engine.rules "Bash" (normalize command) ≡ none
    → (decide_shell platform engine command).behavior ≡ allow
    → (tokens : List String) × (shell_tokens platform.shlex (strip command) ≡ lexed tokens)
      × (has_download_piped_to_shell tokens ≡ false)
      × (split_shell_segments_from_tokens tokens ≢ [])
      × All (IsSafe engine.mode) (split_shell_segments_from_tokens tokens)
unfolding decide_shell
decide_shell-allow platform engine command m unmatched h =
    tokens-IsSafe engine.mode (shell_tokens platform.shlex (strip command)) m
      (ground (arith, unmatched, h))

-- From the freest mode to the strictest, for shell commands.
abbrev pub rank : PermissionMode → ℕ
rank bypass = 0
rank auto = 1
rank _ = 2

abbrev severity_of : PermissionDecision → ℕ
severity_of d = severity d.behavior

segment_mono :
    (m m' : PermissionMode) (segment : List String)
    → (is_auto m' ≡ true → is_auto m ≡ true)
    → severity_of (decide_shell_segment m segment) ≤ severity_of (decide_shell_segment m' segment)
unfolding decide_shell_segment
segment_mono m m' [] h = omega arith
segment_mono m m' (c ∷ args) h = elim (Bool-cases (is_auto m')) [
  | inl automatic ↦ rw (automatic, h automatic) (omega arith)
  | inr other ↦ rw other (ground arith)
]

map_mono :
    (f g : List String → PermissionDecision) (n : ℕ) (segments : List (List String))
    → ((s : List String) → severity_of (f s) ≤ severity_of (g s))
    → All (λ d. severity_of d ≤ n) (map g segments)
    → All (λ d. severity_of d ≤ n) (map f segments)
map_mono f g n [] mono h = tt
map_mono f g n (s ∷ segments) mono h =
    (omega (arith, mono s, h.0), map_mono f g n segments mono h.1)

strictest_mono :
    (f g : List String → PermissionDecision) (s : List String) (segments : List (List String))
    → ((s : List String) → severity_of (f s) ≤ severity_of (g s))
    → severity_of (strictest (f s) (map f segments))
      ≤ severity_of (strictest (g s) (map g segments))
unfolding strictest
strictest_mono f g s segments mono =
    let n : ℕ = severity_of (max_by severity_of (g s) (map g segments)) in
    max_by_elim severity_of (λ d. severity_of d ≤ n) (f s) (map f segments)
      (omega (arith, mono s, le-max_by severity_of (g s) (map g segments)))
      (map_mono f g n segments mono
        (All-le-max_by severity_of n (g s) (map g segments) (omega arith)))

auto_of_rank :
    (m m' : PermissionMode)
    → is_bypass m ≡ false
    → rank m ≤ rank m'
    → is_auto m' ≡ true
    → is_auto m ≡ true
auto_of_rank auto m' b h a = refl
auto_of_rank m auto b h a = absurd (grind (arith, b, h))
auto_of_rank m m' b h a = cc

segments_mono :
    (m m' : PermissionMode) (segments : List (List String))
    → rank m ≤ rank m'
    → severity_of (decide_segments m segments) ≤ severity_of (decide_segments m' segments)
unfolding decide_segments
segments_mono m m' [] h = omega arith
segments_mono bypass m' (s ∷ segments) h = omega arith
segments_mono m bypass (s ∷ segments) h = absurd (omega arith)
segments_mono m m' (s ∷ segments) h =
    strictest_mono (decide_shell_segment m) (decide_shell_segment m') s segments
      (λ t. segment_mono m m' t (auto_of_rank m m' refl h))

tokens_mono :
    (m m' : PermissionMode) (l : Lexed)
    → rank m ≤ rank m'
    → severity_of (decide_tokens m l) ≤ severity_of (decide_tokens m' l)
unfolding decide_tokens
tokens_mono m m' (failed message) h = omega arith
tokens_mono m m' (lexed tokens) h =
    ground (arith, segments_mono m m' (split_shell_segments_from_tokens tokens) h)

or_else_mono :
    (explicit : Option PermissionDecision) (d d' : PermissionDecision)
    → severity_of d ≤ severity_of d'
    → severity_of (or_else explicit d) ≤ severity_of (or_else explicit d')
or_else_mono none d d' h = h
or_else_mono (some e) d d' h = omega arith

-- Under the same rules a freer mode decides a shell command no more strictly: bypass no more than
-- auto, and auto no more than default, plan and accept_edits, which decide alike in severity.
pub decide_shell_mono :
    (platform : Platform) (rules : List PermissionRule) (m m' : PermissionMode) (command : String)
    → rank m ≤ rank m'
    → severity (decide_shell platform (record { mode = m; rules = rules }) command).behavior
      ≤ severity (decide_shell platform (record { mode = m'; rules = rules }) command).behavior
unfolding decide_shell
decide_shell_mono platform rules m m' command h =
    or_else_mono (match_rules platform.fnmatchcase rules "Bash" (normalize command)) _ _
      (tokens_mono m m' (shell_tokens platform.shlex (strip command)) h)
