-- ===== src/Context/Truncation.antt =====
-- truncate_middle of context/truncation.py, and the previews of context/tool_output.py and formatting.py.
use Prim.Native.String.{String, ◌++◌}
use text.Mathlib.TextLemmas.{nil-append, cons-append}
use xiao_ming.Prelude.{
  ℕ, zero, suc, ◌+◌, ◌-◌, ◌≤◌, ◌<◌, true, false, ◌≡◌, refl, ap, ◌∙◌, if◌then◌else◌, leb, ltb,
  Bool-cases, inl, inr, arith,
}

-- len(text)
unfoldable pub len : String → ℕ
len String.[] = 0
len (String.◌∷◌ c s) = suc (len s)

-- text[:n]
unfoldable pub first : ℕ → String → String
first zero s = String.[]
first (suc n) String.[] = String.[]
first (suc n) (String.◌∷◌ c s) = String.◌∷◌ c (first n s)

-- text[n:]
unfoldable pub behind : ℕ → String → String
behind zero s = s
behind (suc n) String.[] = String.[]
behind (suc n) (String.◌∷◌ c s) = behind n s

-- n // 2
unfoldable pub half : ℕ → ℕ
half zero = 0
half (suc zero) = 0
half (suc (suc n)) = suc (half n)

abbrev pub marker : String
marker = "\n... truncated ...\n"

-- truncate_middle; text[-n:] with n at least 1 and at most len(text) is text[len(text) - n:]
unfoldable pub truncate_middle : String → ℕ → String
unfolding len first behind half
truncate_middle text limit =
    let remaining = limit - len marker in
    let start_len = half remaining in
    let end_len = remaining - start_len in
    if ltb limit 1
    then ""
    else if leb (len text) limit
    then text
    else if leb limit (len marker)
    then first limit marker
    else first start_len text ++ (marker ++ behind (len text - end_len) text)

len-append : (s t : String) → len (s ++ t) ≡ len s + len t
unfolding len
len-append String.[] t = ap len (nil-append t) ∙ omega arith
len-append (String.◌∷◌ c s) t = ap len (cons-append c s t) ∙ grind (arith, len-append s t)

len-first : (n : ℕ) (s : String) → n ≤ len s → len (first n s) ≡ n
unfolding len first
len-first zero s h = refl
len-first (suc n) String.[] h = omega arith
len-first (suc n) (String.◌∷◌ c s) h = ap suc (len-first n s (omega arith))

len-behind : (n : ℕ) (s : String) → n ≤ len s → len (behind n s) + n ≡ len s
unfolding len behind
len-behind zero s h = omega arith
len-behind (suc n) String.[] h = omega arith
len-behind (suc n) (String.◌∷◌ c s) h = grind (arith, len-behind n s)

half-≤ : (n : ℕ) → half n ≤ n
unfolding half
half-≤ zero = omega arith
half-≤ (suc zero) = omega arith
half-≤ (suc (suc n)) = grind (arith, half-≤ n)

len-middle :
    (text : String) (limit : ℕ)
    → len marker < limit
    → limit < len text
    → len (
        first (half (limit - len marker)) text
        ++ (marker ++ behind (len text - ((limit - len marker) - half (limit - len marker))) text))
      ≡ limit
len-middle text limit fits longer =
    let remaining = limit - len marker in
    let small : half remaining ≤ remaining = half-≤ remaining in
    let back = len text - (remaining - half remaining) in
    len-append (first (half remaining) text) (marker ++ behind back text)
    ∙ omega (
      arith,
      len-append marker (behind back text),
      len-first (half remaining) text (omega arith),
      len-behind back text (omega arith),
      small,
    )

leb_yes : (m n : ℕ) → m ≤ n → leb m n ≡ true
leb_yes m n h = ground (arith, h)

leb_not : (m n : ℕ) → n < m → leb m n ≡ false
leb_not m n h = ground (arith, h)

leb-true : (m n : ℕ) → leb m n ≡ true → m ≤ n
leb-true m n h = ground (arith, h)

leb-false : (m n : ℕ) → leb m n ≡ false → n < m
leb-false m n h = ground (arith, h)

len-nil : len "" ≡ 0
unfolding len
len-nil = refl

empty-of-len : (text : String) → len text ≤ 0 → "" ≡ text
unfolding len
empty-of-len String.[] h = refl
empty-of-len (String.◌∷◌ c s) h = absurd (omega arith)

kept_short : (text : String) (limit : ℕ) → len text ≤ limit → truncate_middle text limit ≡ text
unfolding truncate_middle
kept_short text limit h = elim (Bool-cases (ltb limit 1)) [
  | inl none_fit ↦ rw none_fit (empty-of-len text (ground (arith, none_fit, h)))
  | inr some_fit ↦ rw (some_fit, leb_yes (len text) limit h) refl
]

cut_long : (text : String) (limit : ℕ) → limit < len text → len (truncate_middle text limit) ≡ limit
unfolding truncate_middle
cut_long text limit h = elim (Bool-cases (ltb limit 1)) [
  | inl none_fit ↦ rw none_fit (ground (arith, none_fit, len-nil))
  | inr some_fit ↦ elim (Bool-cases (leb limit (len marker))) [
    | inl tiny ↦
        rw (some_fit, leb_not (len text) limit h, tiny)
          (len-first limit marker (leb-true limit (len marker) tiny))
    | inr roomy ↦
        rw (some_fit, leb_not (len text) limit h, roomy)
          (len-middle text limit (leb-false limit (len marker) roomy) h)
  ]
]

-- A text of no more characters than the limit is not truncated; any other has as many characters as the
-- limit afterwards.
pub truncate_middle_lem :
    (text : String) (limit : ℕ)
    → (len text ≤ limit → truncate_middle text limit ≡ text)
      × (limit < len text → len (truncate_middle text limit) ≡ limit)
unfolding truncate_middle
truncate_middle_lem text limit = (kept_short text limit, cut_long text limit)
