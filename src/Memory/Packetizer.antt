-- ===== src/Memory/Packetizer.antt =====
-- memory/packetizer.py: the fragments of a day, split into packets for the dream runner. Of the datetime
-- library the parameter `fromisoformat` gives the instant and the hour that a text names, or raises; all
-- texts name a timezone, or none does. An instant counts microseconds.
pub mod Cover
use xiao_ming.Prelude.{
  ℕ, zero, suc, ◌+◌, ◌-◌, ◌*◌, String, Bool, true, false, ◌&&◌, ◌||◌, Option, none, some, List, [],
  ◌∷◌, ◌++◌, if◌then◌else◌, leb, ltb, eqb, length, take, drop, map, concat, strip, Result, ok,
  error, ◌>>=◌,
}
use Prim.Native.Char.{code}
use xiao_ming.Json.{Python, num}
use xiao_ming.Memory.Models.{MemoryFragment}

pub record DateTime : Type 0 where
  pub instant : ℕ
  pub hour : ℕ

-- datetime.fromisoformat
abbrev pub Calendar : Type 0
Calendar = String → Result DateTime

pub record MemoryPacket : Type 0 where
  pub id : String
  pub fragments : List MemoryFragment

-- sum(fragment.token_estimate for fragment in fragments)
abbrev pub total_tokens : List MemoryFragment → ℕ
total_tokens [] = 0
total_tokens (f ∷ fragments) = f.token_estimate + total_tokens fragments

-- text[:-1] + "+00:00" for a text that ends with "Z"
unfoldable pub with_offset : String → String
with_offset String.[] = String.[]
with_offset (String.◌∷◌ c String.[]) = if eqb (code c) 90 then "+00:00" else String.◌∷◌ c String.[]
with_offset (String.◌∷◌ c (String.◌∷◌ d s)) = String.◌∷◌ c (with_offset (String.◌∷◌ d s))

-- A score: what counts for a split, and what counts against it. `none` is float("-inf").
abbrev pub Score : Type 0
Score = Option (ℕ × ℕ)

abbrev pub better : ℕ × ℕ → Score → Bool
better score none = true
better score (some best) = ltb (best.0 + score.1) (score.0 + best.1)

-- abs(m - n)
abbrev pub distance : ℕ → ℕ → ℕ
distance m n = (m - n) + (n - m)

module _ (fromisoformat : Calendar) where
  -- _parse_datetime
  unfoldable pub parse_datetime : String → Result DateTime
  unfolding with_offset strip
  parse_datetime value = fromisoformat (with_offset (strip value))

  -- _gap_seconds, in microseconds
  unfoldable pub gap : MemoryFragment → MemoryFragment → Result ℕ
  unfolding parse_datetime
  gap left right = do
    r ← parse_datetime right.created_at
    l ← parse_datetime left.created_at
    ok (r.instant - l.instant)

  -- _is_night_boundary
  unfoldable pub is_night_boundary : MemoryFragment → MemoryFragment → Result Bool
  unfolding parse_datetime
  is_night_boundary left right = do
    l ← parse_datetime left.created_at
    r ← parse_datetime right.created_at
    ok (leb 18 l.hour && leb r.hour 8)

  -- gap_seconds + night_bonus - imbalance_penalty, in microseconds
  unfoldable pub score_of : ℕ → ℕ → MemoryFragment → MemoryFragment → Result (ℕ × ℕ)
  unfolding gap is_night_boundary
  score_of left_tokens right_tokens left right = do
    seconds ← gap left right
    night ← is_night_boundary left right
    ok (seconds + (if night then 7200000000 else 0), distance left_tokens right_tokens * 1000000)

  -- The loop of _best_split_index: the tokens of all, those left of the fragments that it looks at, the
  -- index of the second of them, and the best index with its score.
  unfoldable pub best_from : ℕ → ℕ → ℕ → ℕ → Score → List MemoryFragment → Result ℕ
  unfolding score_of
  best_from total left_tokens index best best_score (left ∷ right ∷ rest) =
      let left' = left_tokens + left.token_estimate in
      do
        score ← score_of left' (total - left') left right
        best_from total left' (suc index) (if better score best_score then index else best)
            (if better score best_score then some score else best_score) (right ∷ rest)
  best_from total left_tokens index best best_score (last ∷ []) = ok best
  best_from total left_tokens index best best_score [] = ok best

  -- _best_split_index
  unfoldable pub best_split_index : List MemoryFragment → Result ℕ
  unfolding best_from
  best_split_index fragments = best_from (total_tokens fragments) 0 1 1 none fragments

  -- _split, with fuel for its recursion
  unfoldable pub split : ℕ → ℕ → List MemoryFragment → Result (List (List MemoryFragment))
  unfolding best_split_index
  split zero token_budget fragments = error "out of fuel"
  split (suc fuel) token_budget fragments =
      if leb (total_tokens fragments) token_budget || leb (length fragments) 1
      then ok (fragments ∷ [])
      else (best_split_index fragments >>= λ index.
          split fuel token_budget (take index fragments) >>= λ left.
          split fuel token_budget (drop index fragments) >>= λ right. ok (left ++ right))

-- The packets with their ids, but for the empty one, from an index on.
abbrev pub number : Python → ℕ → List (List MemoryFragment) → List MemoryPacket
number python index [] = []
number python index ([] ∷ packets) = number python (suc index) packets
number python index ((f ∷ fragments) ∷ packets) =
    record {
      id = concat ("packet-" ∷ python.repr (num (index + 1)) ∷ []);
      fragments = f ∷ fragments;
    }
    ∷ number python (suc index) packets

-- packetize_fragments; fuel for each fragment, and one more, is enough
unfoldable pub packetize_fragments :
    Calendar → Python → List MemoryFragment → ℕ → Result (List MemoryPacket)
unfolding split
packetize_fragments fromisoformat python fragments token_budget =
    split fromisoformat (suc (length fragments)) (if leb token_budget 1 then 1 else token_budget)
      fragments
    >>= λ packets. ok (number python 0 packets)
