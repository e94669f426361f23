-- ===== src/Permissions/Downloads.antt =====
-- What _has_download_piped_to_shell of permissions/engine.py finds.
use xiao_ming.Prelude.{
  String, Bool, true, false, List, [], ◌∷◌, ◌++◌, ◌≡◌, refl, arith, ◌==◌, eq_iff, lower, All,
  contains, contains-elim,
}
use xiao_ming.Permissions.Shell.{
  is_download, is_pipe, is_shell, is_separator, download_from, has_download_piped_to_shell,
}

shell_first : (t : String) → is_shell t ≡ true → (is_download t ≡ false) × (is_pipe t ≡ false)
unfolding is_shell is_download is_pipe
shell_first t =
    contains-elim (λ s. (contains ("curl" ∷ "wget" ∷ []) s ≡ false) × ((s == "|") ≡ false))
      ("sh" ∷ "bash" ∷ []) (lower t) ((refl, refl), ((refl, refl), tt))

pipe_first : (t : String) → is_pipe t ≡ true → is_download t ≡ false
unfolding is_download is_pipe
pipe_first t h = rw ((eq_iff (lower t) "|").0 h)

abbrev pub Continues : String → Type 0
Continues token = is_separator token ≡ false

abbrev pub NoDownload : String → Type 0
NoDownload token = is_download token ≡ false

module _ (shell : String) (rest : List String) (at_shell : is_shell shell ≡ true) where
  behind_pipe :
      (more : List String)
      → All Continues more
      → All NoDownload more
      → download_from true true (more ++ shell ∷ rest) ≡ true
  unfolding download_from
  behind_pipe [] h k = ground (arith, shell_first shell)
  behind_pipe (t ∷ more) h k = ground (arith, behind_pipe more h.1 k.1)

  module _ (pipe : String) (more : List String) (at_pipe : is_pipe pipe ≡ true)
      (continues : All Continues more) (no_download : All NoDownload more) where
    behind_download :
        (args : List String) (after : Bool)
        → All Continues args
        → download_from true after (args ++ pipe ∷ (more ++ shell ∷ rest)) ≡ true
    unfolding download_from
    behind_download [] after h = ground (arith, pipe_first pipe, behind_pipe more)
    behind_download (t ∷ args) after h =
        ground (arith, behind_download args true h.1, behind_download args false h.1)

    anywhere :
        (before : List String) (download : String) (args : List String) (saw after : Bool)
        → is_download download ≡ true
        → All Continues args
        → download_from saw after (before ++ download ∷ (args ++ pipe ∷ (more ++ shell ∷ rest)))
          ≡ true
    unfolding download_from
    anywhere [] download args saw after d h = rw d (behind_download args false h)
    anywhere (t ∷ before) download args saw after d h = ground (
      arith,
      anywhere before download args true false d h,
      anywhere before download args saw saw d h,
      anywhere before download args false false d h,
      anywhere before download args saw after d h,
    )

-- A download whose output goes through a pipe to a shell is found wherever it stands in the
-- command, whatever stands before the download and behind the shell: between the download and the
-- pipe there is no `&&`, `||` or `;`, and between the pipe and the shell neither these nor another
-- download.
pub has_download_piped_to_shell_lem :
    (before : List String) (download : String) (args : List String) (pipe : String)
    (more : List String) (shell : String) (rest : List String)
    → is_download download ≡ true
    → All Continues args
    → is_pipe pipe ≡ true
    → All Continues more
    → All NoDownload more
    → is_shell shell ≡ true
    → has_download_piped_to_shell (before ++ download ∷ (args ++ pipe ∷ (more ++ shell ∷ rest)))
      ≡ true
unfolding has_download_piped_to_shell
has_download_piped_to_shell_lem before download args pipe more shell rest d h p k n s =
    anywhere shell rest s pipe more p k n before download args false false d h
