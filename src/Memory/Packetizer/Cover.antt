-- ===== src/Memory/Packetizer/Cover.antt =====
-- The packets hold the fragments, in their order, within the budget.
use xiao_ming.Prelude.{
  ℕ, zero, suc, ◌+◌, ◌-◌, ◌≤◌, ◌<◌, Bool, true, false, ◌||◌, ◌≡◌, refl, sym, ap, ◌∙◌, none, some,
  List, [], ◌∷◌, ◌++◌, if◌then◌else◌, leb, length, take, drop, All, Result, ok, ◌>>=◌, Bool-cases,
  inl, inr, ◌⊎◌, arith,
}
use mathlib.Core.List.{append_assoc, append-nil, flatten}
use xiao_ming.Json.{Python}
use xiao_ming.Memory.Models.{MemoryFragment}
use xiao_ming.Memory.Packetizer.{
  DateTime, Calendar, MemoryPacket, total_tokens, parse_datetime, gap, is_night_boundary, Score,
  better, score_of, best_from, split, number, packetize_fragments,
}

>>=-ok {ℓ κ} :
    {A : Type ℓ} {B : Type κ} (m : Result A) (f : A → Result B) (a : A) (b : B)
    → m ≡ ok a
    → f a ≡ ok b
    → (m >>= f) ≡ ok b
>>=-ok m f a b gives then_gives = ap (λ r. r >>= f) gives ∙ then_gives

module _ {ℓ} {A : Type ℓ} where
  length-take : (n : ℕ) (xs : List A) → n ≤ length xs → length (take n xs) ≡ n
  length-take zero xs h = refl
  length-take (suc n) [] h = omega arith
  length-take (suc n) (x ∷ xs) h = ap suc (length-take n xs (omega arith))

  length-drop : (n : ℕ) (xs : List A) → n ≤ length xs → length (drop n xs) + n ≡ length xs
  length-drop zero xs h = omega arith
  length-drop (suc n) [] h = omega arith
  length-drop (suc n) (x ∷ xs) h = grind (arith, length-drop n xs)

  take-drop : (n : ℕ) (xs : List A) → take n xs ++ drop n xs ≡ xs
  take-drop zero xs = refl
  take-drop (suc n) [] = refl
  take-drop (suc n) (x ∷ xs) = ap (λ ys. x ∷ ys) (take-drop n xs)

  flatten-append : (xss yss : List (List A)) → flatten (xss ++ yss) ≡ flatten xss ++ flatten yss
  unfolding flatten
  flatten-append [] yss = refl
  flatten-append (xs ∷ xss) yss =
      ap (λ r. xs ++ r) (flatten-append xss yss) ∙ sym (append_assoc xs (flatten xss) (flatten yss))

  module _ {κ} (P : A → Type κ) where
    All-take : (n : ℕ) (xs : List A) → All P xs → All P (take n xs)
    All-take zero xs h = tt
    All-take (suc n) [] h = tt
    All-take (suc n) (x ∷ xs) h = (h.0, All-take n xs h.1)

    All-drop : (n : ℕ) (xs : List A) → All P xs → All P (drop n xs)
    All-drop zero xs h = h
    All-drop (suc n) [] h = tt
    All-drop (suc n) (x ∷ xs) h = All-drop n xs h.1

    All-append : (xs ys : List A) → All P xs → All P ys → All P (xs ++ ys)
    All-append [] ys f g = g
    All-append (x ∷ xs) ys f g = (f.0, All-append xs ys f.1 g)

chosen : (P : ℕ → Type 0) (b : Bool) (m n : ℕ) → P m → P n → P (if b then m else n)
chosen P true m n p q = p
chosen P false m n p q = q

two_or_more : (b : Bool) (n : ℕ) → (b || leb n 1) ≡ false → 1 < n
two_or_more true n h = absurd (cc)
two_or_more false n h = ground (arith, h)

abbrev pub Fits : ℕ → List MemoryFragment → Type 0
Fits budget packet = (total_tokens packet ≤ budget) ⊎ (length packet ≤ 1)

small-Fits :
    (budget : ℕ) (packet : List MemoryFragment)
    → (leb (total_tokens packet) budget || leb (length packet) 1) ≡ true
    → Fits budget packet
small-Fits budget packet small = elim (Bool-cases (leb (total_tokens packet) budget)) [
  | inl within ↦ inl (ground (arith, within))
  | inr over ↦ inr (ground (arith, over, small))
]

module _ (fromisoformat : Calendar) where
  -- The time of a fragment can be read.
  abbrev pub Readable : MemoryFragment → Type 0
  Readable f = (d : DateTime) × (parse_datetime fromisoformat f.created_at ≡ ok d)

  score_of-ok :
      (m n : ℕ) (left right : MemoryFragment)
      → Readable left
      → Readable right
      → (score : ℕ × ℕ) × (score_of fromisoformat m n left right ≡ ok score)
  unfolding score_of gap is_night_boundary
  score_of-ok m n left right l r = rw (l.1, r.1) (_, refl)

  best_from-within :
      (bound total left_tokens index best : ℕ) (score : Score) (fragments : List MemoryFragment)
      → All Readable fragments
      → 1 ≤ best
      → best < bound
      → 1 ≤ index
      → index + length fragments ≤ suc bound
      → (i : ℕ) × (best_from fromisoformat total left_tokens index best score fragments ≡ ok i)
        × (1 ≤ i)
        × (i < bound)
  unfolding best_from
  best_from-within bound total left_tokens index best score [] h low high start room =
      (best, refl, low, high)
  best_from-within bound total left_tokens index best score (f ∷ []) h low high start room =
      (best, refl, low, high)
  best_from-within bound total left_tokens index best score (f ∷ g ∷ rest) h low high start room =
      let left' = left_tokens + f.token_estimate in
      let scored = score_of-ok left' (total - left') f g h.0 h.1.0 in
      let next = scored.0 in
      let next_best = if better next score then index else best in
      let next_score = if better next score then some next else score in
      let later =
        best_from-within bound total left' (suc index) next_best next_score (g ∷ rest) h.1
          (chosen (λ i. 1 ≤ i) (better next score) index best start low)
          (chosen (λ i. i < bound) (better next score) index best (omega arith) high) (omega arith)
          (omega arith) in
      (
        later.0,
        >>=-ok (score_of fromisoformat left' (total - left') f g) _ next later.0 scored.1 later.1,
        later.2,
        later.3,
      )

  split-covers :
      (fuel budget : ℕ) (fragments : List MemoryFragment)
      → length fragments < fuel
      → All Readable fragments
      → (packets : List (List MemoryFragment)) × (split fromisoformat fuel budget fragments
          ≡ ok packets)
        × (flatten packets ≡ fragments)
        × All (Fits budget) packets
  unfolding split flatten
  split-covers zero budget fragments h readable = absurd (omega arith)
  split-covers (suc fuel) budget fragments h readable =
      elim (Bool-cases (leb (total_tokens fragments) budget || leb (length fragments) 1)) [
        | inl small ↦
            rw small
              (fragments ∷ [], refl, append-nil fragments, (small-Fits budget fragments small, tt))
        | inr large ↦ rw large (
            let several : 1 < length fragments =
              two_or_more (leb (total_tokens fragments) budget) (length fragments) large in
            let best =
              best_from-within (length fragments) (total_tokens fragments) 0 1 1 none fragments
                readable (omega arith) several (omega arith) (omega arith) in
            let i = best.0 in
            let l =
              split-covers fuel budget (take i fragments)
                (rw (length-take i fragments (omega (arith, best.3))) (omega (arith, best.3)))
                (All-take Readable i fragments readable) in
            let r =
              split-covers fuel budget (drop i fragments)
                (omega (arith, length-drop i fragments (omega (arith, best.3)), best.2, best.3))
                (All-drop Readable i fragments readable) in
            (
              l.0 ++ r.0,
              >>=-ok _ _ i (l.0 ++ r.0) best.1
                  (>>=-ok _ _ l.0 (l.0 ++ r.0) l.1 (>>=-ok _ _ r.0 (l.0 ++ r.0) r.1 refl)),
              flatten-append l.0 r.0 ∙ rw (l.2, r.2) (take-drop i fragments),
              All-append (Fits budget) l.0 r.0 l.3 r.3,
            ))
      ]

-- What a packet holds, in the order of the packets.
abbrev pub contents : List MemoryPacket → List MemoryFragment
contents [] = []
contents (p ∷ packets) = p.fragments ++ contents packets

contents-number :
    (python : Python) (index : ℕ) (packets : List (List MemoryFragment))
    → contents (number python index packets) ≡ flatten packets
unfolding flatten
contents-number python index [] = refl
contents-number python index ([] ∷ packets) = contents-number python (suc index) packets
contents-number python index ((f ∷ fragments) ∷ packets) =
    ap (λ r. f ∷ fragments ++ r) (contents-number python (suc index) packets)

-- The packet holds a fragment, and no more than the budget, unless it holds only one.
abbrev pub Good : ℕ → MemoryPacket → Type 0
Good budget packet = Fits budget packet.fragments × (1 ≤ length packet.fragments)

number-Good :
    (python : Python) (budget index : ℕ) (packets : List (List MemoryFragment))
    → All (Fits budget) packets
    → All (Good budget) (number python index packets)
number-Good python budget index [] h = tt
number-Good python budget index ([] ∷ packets) h = number-Good python budget (suc index) packets h.1
number-Good python budget index ((f ∷ fragments) ∷ packets) h =
    ((h.0, omega arith), number-Good python budget (suc index) packets h.1)

-- Where the time of each fragment can be read, the fragments are split into packets, and the recursion
-- ends: the packets hold the fragments in their order, each one or more, and none holds more tokens
-- than the budget (at least one) unless it holds one fragment only.
pub packetize_fragments-covers :
    (fromisoformat : Calendar) (python : Python) (fragments : List MemoryFragment)
    (token_budget : ℕ)
    → All (Readable fromisoformat) fragments
    → (packets : List MemoryPacket) × (packetize_fragments fromisoformat python fragments
          token_budget
        ≡ ok packets)
      × (contents packets ≡ fragments)
      × All (Good (if leb token_budget 1 then 1 else token_budget)) packets
unfolding packetize_fragments
packetize_fragments-covers fromisoformat python fragments token_budget readable =
    let budget = if leb token_budget 1 then 1 else token_budget in
    let done =
      split-covers fromisoformat (suc (length fragments)) budget fragments (omega arith) readable in
    (
      number python 0 done.0,
      >>=-ok _ _ done.0 (number python 0 done.0) done.1 refl,
      contents-number python 0 done.0 ∙ done.2,
      number-Good python budget 0 done.0 done.3,
    )
