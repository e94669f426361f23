-- ===== src/Permissions/Shell.antt =====
-- The functions on shell tokens of permissions/engine.py. The lexer `shlex` is a parameter.
use xiao_ming.Prelude.{
  String, Bool, true, false, not, ◌&&◌, ◌||◌, List, [], ◌∷◌, ◌++◌, length, take, ◌==◌,
  if◌then◌else◌, keep, any, contains, concat, join, splitlines, lstrip, lower,
}
use text.Mathlib.Text.{starts_with}

abbrev pub read_commands : List String
read_commands =
    "cat" ∷ "du" ∷ "file" ∷ "find" ∷ "grep" ∷ "head" ∷ "jq" ∷ "ls" ∷ "pwd" ∷ "rg" ∷ "sort" ∷ "stat"
    ∷ "tail" ∷ "tree" ∷ "uniq" ∷ "wc" ∷ "which" ∷ []

abbrev pub read_git_subcommands : List String
read_git_subcommands = "diff" ∷ "log" ∷ "show" ∷ "status" ∷ []

abbrev pub neutral_commands : List String
neutral_commands = "echo" ∷ "printf" ∷ "true" ∷ "false" ∷ ":" ∷ []

abbrev pub auto_commands : List (List String)
auto_commands =
    ("npm" ∷ "test" ∷ [])
    ∷ ("npm" ∷ "run" ∷ "build" ∷ [])
    ∷ ("npm" ∷ "run" ∷ "lint" ∷ [])
    ∷ ("npm" ∷ "run" ∷ "test" ∷ [])
    ∷ ("pnpm" ∷ "build" ∷ [])
    ∷ ("pnpm" ∷ "lint" ∷ [])
    ∷ ("pnpm" ∷ "test" ∷ [])
    ∷ ("python" ∷ "-m" ∷ "pytest" ∷ [])
    ∷ ("pytest" ∷ [])
    ∷ []

abbrev pub shell_operators : List String
shell_operators = "&&" ∷ "||" ∷ ";" ∷ "|" ∷ []

abbrev pub redirect_operators : List String
redirect_operators = ">" ∷ ">>" ∷ "<" ∷ "2>" ∷ "2>>" ∷ []

abbrev pub sensitive_parts : List String
sensitive_parts = ".env" ∷ ".ssh" ∷ []

abbrev pub sensitive_write_parts : List String
sensitive_write_parts = ".env" ∷ ".git" ∷ ".ssh" ∷ ".xiaoming" ∷ "skills" ∷ []

-- left == right for lists and tuples of texts
abbrev pub same_texts : List String → List String → Bool
same_texts [] [] = true
same_texts (x ∷ xs) (y ∷ ys) = x == y && same_texts xs ys
same_texts _ _ = false

-- tokens[: len(pattern)] == pattern
abbrev pub begins : List String → List String → Bool
begins tokens pattern = same_texts (take (length pattern) tokens) pattern

abbrev pub doubles : String → String → Bool
doubles token next = contains ("&" ∷ "|" ∷ ">" ∷ "<" ∷ []) token && next == token

abbrev pub redirects_stderr : String → String → Bool
redirects_stderr token next = token == "2" && contains (">" ∷ ">>" ∷ []) next

-- _coalesce_operators
unfoldable pub coalesce_operators : List String → List String
coalesce_operators [] = []
coalesce_operators (token ∷ []) = token ∷ []
coalesce_operators (token ∷ next ∷ rest) =
    let joined = concat (token ∷ next ∷ []) ∷ coalesce_operators rest in
    let kept = token ∷ coalesce_operators (next ∷ rest) in
    if doubles token next || redirects_stderr token next then joined else kept

-- The lines of the command that are not comments.
unfoldable pub without_comments : String → String
without_comments command =
    join "\n" (keep (λ line. not (starts_with (lstrip line) "#")) (splitlines command))

-- What the lexer gives: its tokens, or the text of its ValueError.
pub data Lexed : Type 0 where
  lexed : List String → Lexed
  failed : String → Lexed

-- _shell_tokens
module _ (shlex : String → Lexed) where
  unfoldable pub shell_tokens : String → Lexed
  shell_tokens command = elim (shlex (without_comments command)) [
    | failed message ↦ failed message
    | lexed raw_tokens ↦ lexed (coalesce_operators raw_tokens)
  ]

abbrev pub close : List (List String) → List String → List (List String)
close segments [] = segments
close segments (t ∷ ts) = segments ++ (t ∷ ts) ∷ []

-- The loop of _split_shell_segments_from_tokens, over `segments` and `current`.
unfoldable pub split_from : List (List String) → List String → List String → List (List String)
split_from segments current [] = close segments current
split_from segments current (token ∷ tokens) =
    let ended = split_from (close segments current) [] tokens in
    let extended = split_from segments (current ++ token ∷ []) tokens in
    if contains shell_operators token then ended else extended

unfoldable pub split_shell_segments_from_tokens : List String → List (List String)
split_shell_segments_from_tokens tokens = split_from [] [] tokens

-- The tests of a token in _has_download_piped_to_shell, in lower case.
unfoldable pub is_download : String → Bool
is_download token = contains ("curl" ∷ "wget" ∷ []) (lower token)

unfoldable pub is_pipe : String → Bool
is_pipe token = lower token == "|"

unfoldable pub is_shell : String → Bool
is_shell token = contains ("sh" ∷ "bash" ∷ []) (lower token)

unfoldable pub is_separator : String → Bool
is_separator token = contains ("&&" ∷ "||" ∷ ";" ∷ []) (lower token)

-- The loop of _has_download_piped_to_shell, over `saw_download` and `after_pipe`.
unfoldable pub download_from : Bool → Bool → List String → Bool
download_from saw_download after_pipe [] = false
download_from saw_download after_pipe (token ∷ tokens) =
    let fetched = download_from true false tokens in
    let piped = download_from saw_download saw_download tokens in
    let reset = download_from false false tokens in
    let same = download_from saw_download after_pipe tokens in
    if is_download token
    then fetched
    else if is_pipe token
    then piped
    else if after_pipe && is_shell token
    then true
    else if is_separator token
    then reset
    else same

-- _has_download_piped_to_shell
unfoldable pub has_download_piped_to_shell : List String → Bool
has_download_piped_to_shell tokens = download_from false false tokens

-- _is_dangerous_shell
unfoldable pub is_dangerous_shell : List String → Bool
is_dangerous_shell [] = false
is_dangerous_shell (command ∷ args) =
    let tokens = command ∷ args in
    command == "sudo"
    || begins tokens ("git" ∷ "reset" ∷ "--hard" ∷ [])
    || begins tokens ("git" ∷ "checkout" ∷ "--" ∷ [])
    || (command == "rm" && contains tokens "-rf" && any (contains ("." ∷ "/" ∷ "*" ∷ [])) args)
    || (contains ("curl" ∷ "wget" ∷ []) command && any (contains ("sh" ∷ "bash" ∷ [])) args)

-- _mentions_sensitive_path
unfoldable pub mentions_sensitive_path : List String → Bool
mentions_sensitive_path tokens =
    any
      (λ part.
        any (λ sensitive. part == sensitive || starts_with part (concat (sensitive ∷ "/" ∷ [])))
          sensitive_parts)
      tokens

-- _is_read_only_segment
unfoldable pub is_read_only_segment : List String → Bool
is_read_only_segment [] = true
is_read_only_segment (command ∷ args) =
    contains read_commands command
    || (command == "git" && any (contains read_git_subcommands) (take 1 args))
    || contains neutral_commands command

-- _is_auto_safe_segment
unfoldable pub is_auto_safe_segment : List String → Bool
is_auto_safe_segment tokens = any (begins tokens) auto_commands
