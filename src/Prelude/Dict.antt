-- ===== src/Prelude/Dict.antt =====
-- Python's `dict` with text keys, in the order of insertion.
use Prim.Native.String.{String}
use mathlib.Core.Path.{◌≡◌, refl}
use mathlib.Core.Option.{Option, none, some}
use mathlib.Core.List.{List, [], ◌∷◌, map}
use native.Mathlib.Omega.{arith}
use text.Mathlib.TextEquality.{eq_iff}
use text.Mathlib.TextPositions.{eq_refl}
use mathlib.Core.Logic.{inl, inr}
use mathlib.Core.Bool.{Bool, ◌&&◌}
use xiao_ming.Prelude.Lists.{keep}
use xiao_ming.Prelude.Tests.{◌==◌, if◌then◌else◌, Bool-cases}

abbrev pub Dict {ℓ} : Type ℓ → Type ℓ
Dict V = List (String × V)

module _ {ℓ} {V : Type ℓ} where
  -- d.get(k)
  unfoldable pub get : Dict V → String → Option V
  get [] k = none
  get ((j, v) ∷ d) k = if j == k then some v else get d k

  -- d[k] = v: a key that is there keeps its place
  unfoldable pub put : Dict V → String → V → Dict V
  put [] k v = (k, v) ∷ []
  put ((j, w) ∷ d) k v = if j == k then (j, v) ∷ d else (j, w) ∷ put d k v

  -- d.pop(k, None)
  unfoldable pub remove : Dict V → String → Dict V
  remove [] k = []
  remove ((j, w) ∷ d) k = let rest = remove d k in if j == k then rest else (j, w) ∷ rest

  -- list(d.values())
  abbrev pub values : Dict V → List V
  values d = map (λ e. e.1) d

  -- list(d)
  abbrev pub keys : Dict V → List String
  keys d = map (λ e. e.0) d

  pub get-put :
      (d : Dict V) (k : String) (v : V) (j : String)
      → get (put d k v) j ≡ (if k == j then some v else get d j)
  unfolding get put
  get-put [] k v j = refl
  get-put ((i, w) ∷ d) k v j = ground (arith, eq_iff k j, eq_iff i k, eq_iff i j, get-put d k v j)

  pub get-remove :
      (d : Dict V) (k j : String) → get (remove d k) j ≡ (if k == j then none else get d j)
  unfolding get remove
  get-remove [] k j = ground arith
  get-remove ((i, w) ∷ d) k j = ground (arith, eq_iff k j, eq_iff i k, eq_iff i j, get-remove d k j)

module _ {ℓ} {V : Type ℓ} where
  -- No key twice.
  abbrev pub Distinct : Dict V → Type ℓ
  Distinct [] = Unit
  Distinct ((k, v) ∷ d) = (get d k ≡ none) × Distinct d

  pub put-Distinct : (d : Dict V) (k : String) (v : V) → Distinct d → Distinct (put d k v)
  unfolding get put
  put-Distinct [] k v h = (refl, tt)
  put-Distinct ((j, w) ∷ d) k v h = elim (Bool-cases (j == k)) [
    | inl same ↦ rw same h
    | inr other ↦ rw other (
      ground (arith, get-put d k v j, other, eq_iff j k, eq_iff k j, h.0),
      put-Distinct d k v h.1,
    )
  ]

  pub remove-Distinct : (d : Dict V) (k : String) → Distinct d → Distinct (remove d k)
  unfolding remove
  remove-Distinct [] k h = tt
  remove-Distinct ((j, w) ∷ d) k h = elim (Bool-cases (j == k)) [
    | inl same ↦ rw same (remove-Distinct d k h.1)
    | inr other ↦ rw other (ground (arith, get-remove d k j, h.0), remove-Distinct d k h.1)
  ]

  -- The value if it passes the test.
  abbrev pub filter_value : (V → Bool) → Option V → Option V
  filter_value p none = none
  filter_value p (some v) = if p v then some v else none

  pub get-keep :
      (p : V → Bool) (d : Dict V) (k : String)
      → Distinct d
      → get (keep (λ e. p e.1) d) k ≡ filter_value p (get d k)
  unfolding get
  get-keep p [] k h = refl
  get-keep p ((j, w) ∷ d) k h = ground (arith, get-keep p d k h.1, eq_iff j k, h.0)

  pub keep-Distinct : (p : V → Bool) (d : Dict V) → Distinct d → Distinct (keep (λ e. p e.1) d)
  keep-Distinct p [] h = tt
  keep-Distinct p ((k, v) ∷ d) h = elim (Bool-cases (p v)) [
    | inl kept ↦ rw kept (rw (get-keep p d k h.1, h.0), keep-Distinct p d h.1)
    | inr dropped ↦ rw dropped (keep-Distinct p d h.1)
  ]

  -- Removing a key if its value passes a test.
  pub get-remove_if :
      (q : Option V → Bool) (d : Dict V) (k p : String)
      → get (if q (get d k) then remove d k else d) p
        ≡ (if (p == k) && q (get d p) then none else get d p)
  get-remove_if q d k p = elim (Bool-cases (p == k)) [
    | inl same ↦ rw ((eq_iff p k).0 same) (elim (Bool-cases (q (get d k))) [
      | inl passes ↦ rw (passes, get-remove d k k, eq_refl k)
      | inr fails ↦ rw (fails, eq_refl k)
    ])
    | inr other ↦ ground (arith, other, get-remove d k p, eq_iff p k, eq_iff k p)
  ]
