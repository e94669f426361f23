-- ===== src/Permissions/Severity.antt =====
-- `max` by severity, in rules.py and engine.py.
use xiao_ming.Prelude.{
  ℕ, ◌≤◌, Bool, true, false, List, [], ◌∷◌, ◌≡◌, refl, arith, ltb, All, Bool-cases, inl, inr,
}
use xiao_ming.Permissions.Types.{PermissionBehavior, allow, ask, deny, severity}
use xiao_ming.Permissions.Rules.{max_by}

module _ {ℓ} {A : Type ℓ} (key : A → ℕ) where
  pub le-max_by : (best : A) (xs : List A) → key best ≤ key (max_by key best xs)
  unfolding max_by
  le-max_by best [] = omega arith
  le-max_by best (x ∷ xs) = ground (arith, le-max_by best xs, le-max_by x xs)

  -- No candidate has a greater key than the greatest.
  pub All-le-max_by :
      (n : ℕ) (best : A) (xs : List A) → key (max_by key best xs) ≤ n → All (λ x. key x ≤ n) xs
  unfolding max_by
  All-le-max_by n best [] h = tt
  All-le-max_by n best (x ∷ xs) h = elim (Bool-cases (ltb (key best) (key x))) [
    | inl less ↦ (ground (arith, le-max_by x xs), All-le-max_by n x xs (rw less at h))
    | inr not_less ↦ (ground (arith, le-max_by best xs), All-le-max_by n best xs (rw not_less at h))
  ]

  -- A predicate that all candidates have, the greatest has.
  pub max_by_elim {κ} :
      (P : A → Type κ) (best : A) (xs : List A) → P best → All P xs → P (max_by key best xs)
  unfolding max_by
  max_by_elim P best [] p h = p
  max_by_elim P best (x ∷ xs) p h = elim (Bool-cases (ltb (key best) (key x))) [
    | inl less ↦ rw less (max_by_elim P x xs h.0 h.1)
    | inr not_less ↦ rw not_less (max_by_elim P best xs p h.1)
  ]

abbrev pub is_deny : PermissionBehavior → Bool
is_deny deny = true
is_deny _ = false

pub deny_of_le : (b : PermissionBehavior) → 2 ≤ severity b → b ≡ deny
deny_of_le allow h = absurd (omega arith)
deny_of_le ask h = absurd (omega arith)
deny_of_le deny h = refl

pub allow_of_le : (b : PermissionBehavior) → severity b ≤ 0 → b ≡ allow
allow_of_le allow h = refl
allow_of_le ask h = absurd (omega arith)
allow_of_le deny h = absurd (omega arith)
