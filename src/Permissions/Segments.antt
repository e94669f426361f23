-- ===== src/Permissions/Segments.antt =====
-- What the token functions of permissions/engine.py keep and drop.
use text.Mathlib.TextLemmas
use xiao_ming.Prelude.{
  String, false, not, ◌||◌, List, [], ◌∷◌, ◌++◌, ◌≡◌, ◌≢◌, refl, ap, Bool-cases, inl, inr, keep,
  contains, concat, All, ◌∙◌, sym,
}
use mathlib.Core.List.{append_assoc, append-nil, flatten}
use xiao_ming.Permissions.Shell.{
  coalesce_operators, doubles, redirects_stderr, shell_operators, split_from, close,
  split_shell_segments_from_tokens,
}

concat_pair :
    (s t : String) (ws : List String) → concat (concat (s ∷ t ∷ []) ∷ ws) ≡ concat (s ∷ t ∷ ws)
unfolding concat
concat_pair s t ws = simp (TextLemmas.append_assoc, TextLemmas.append-nil)

concat-cons :
    (s : String) (xs ys : List String) → concat xs ≡ concat ys → concat (s ∷ xs) ≡ concat (s ∷ ys)
unfolding concat
concat-cons s xs ys h = rw h

-- Joining operators loses and adds no character: the tokens spell the same text before and after.
pub concat-coalesce_operators :
    (tokens : List String) → concat (coalesce_operators tokens) ≡ concat tokens
unfolding coalesce_operators
concat-coalesce_operators [] = refl
concat-coalesce_operators (t ∷ []) = refl
concat-coalesce_operators (t ∷ u ∷ rest) = elim (Bool-cases (doubles t u || redirects_stderr t u)) [
  | inl joined ↦
      rw joined (concat-cons _ _ _ (concat-coalesce_operators rest) ∙ concat_pair t u rest)
  | inr kept ↦ rw kept (concat-cons t _ _ (concat-coalesce_operators (u ∷ rest)))
]

abbrev IsWord : String → Type 0
IsWord token = contains shell_operators token ≡ false

abbrev pub IsSegment : List String → Type 0
IsSegment segment = (segment ≢ []) × All IsWord segment

All-snoc {ℓ κ} :
    {A : Type ℓ} (P : A → Type κ) (xs : List A) {x : A} → All P xs → P x → All P (xs ++ x ∷ [])
All-snoc P [] h p = (p, tt)
All-snoc P (y ∷ xs) h p = (h.0, All-snoc P xs h.1 p)

close-IsSegment :
    (segments : List (List String)) (current : List String)
    → All IsSegment segments
    → All IsWord current
    → All IsSegment (close segments current)
close-IsSegment segments [] h k = h
close-IsSegment segments (c ∷ cs) h k = All-snoc IsSegment segments h ((λ e. cc), k)

split_from-IsSegment :
    (tokens : List String) (segments : List (List String)) (current : List String)
    → All IsSegment segments
    → All IsWord current
    → All IsSegment (split_from segments current tokens)
unfolding split_from
split_from-IsSegment [] segments current h k = close-IsSegment segments current h k
split_from-IsSegment (t ∷ ts) segments current h k =
    elim (Bool-cases (contains shell_operators t)) [
      | inl op ↦ rw op (split_from-IsSegment ts _ [] (close-IsSegment segments current h k) tt)
      | inr word ↦ rw word (split_from-IsSegment ts segments _ h (All-snoc IsWord current k word))
    ]

flatten-snoc :
    (xss : List (List String)) (xs : List String) → flatten (xss ++ xs ∷ []) ≡ flatten xss ++ xs
unfolding flatten
flatten-snoc [] xs = append-nil xs
flatten-snoc (ys ∷ xss) xs = rw (flatten-snoc xss xs) (sym (append_assoc ys (flatten xss) xs))

flatten-close :
    (segments : List (List String)) (current : List String)
    → flatten (close segments current) ≡ flatten segments ++ current
flatten-close segments [] = sym (append-nil _)
flatten-close segments (c ∷ cs) = flatten-snoc segments (c ∷ cs)

abbrev words : List String → List String
words tokens = keep (λ t. not (contains shell_operators t)) tokens

flatten-split_from :
    (tokens : List String) (segments : List (List String)) (current : List String)
    → flatten (split_from segments current tokens) ≡ (flatten segments ++ current) ++ words tokens
unfolding split_from
flatten-split_from [] segments current = flatten-close segments current ∙ sym (append-nil _)
flatten-split_from (t ∷ ts) segments current = elim (Bool-cases (contains shell_operators t)) [
  | inl op ↦ rw op (
      flatten-split_from ts (close segments current) []
      ∙ ap (λ l. l ++ words ts) (append-nil _ ∙ flatten-close segments current))
  | inr word ↦ rw word (flatten-split_from ts segments (current ++ t ∷ []) ∙ simp append_assoc)
]

-- Splitting a command at its operators gives segments that are not empty and hold no operator, and
-- that hold together, in their order, exactly the tokens that are no operators.
pub split_shell_segments_lem :
    (tokens : List String)
    → All IsSegment (split_shell_segments_from_tokens tokens)
      × (flatten (split_shell_segments_from_tokens tokens)
          ≡ keep (λ t. not (contains shell_operators t)) tokens)
unfolding split_shell_segments_from_tokens flatten
split_shell_segments_lem tokens =
    (split_from-IsSegment tokens [] [] tt tt, flatten-split_from tokens [] [])
