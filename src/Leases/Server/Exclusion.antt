-- ===== src/Leases/Server/Exclusion.antt =====
-- WriteLeaseServer: all or nothing, and no two holders.
use xiao_ming.Prelude.{
  String, Bool, true, false, not, ◌&&◌, Option, none, some, List, [], ◌∷◌, map, ◌==◌, ◌≡◌, refl,
  arith, eq_iff, if◌then◌else◌, contains, Bool-cases, Option-cases, inl, inr, ◌⊎◌, eq_refl,
}
use xiao_ming.Prelude.Dict
use xiao_ming.Prelude.Dict.{Dict, Distinct, get-put, get-keep, get-remove_if}
use xiao_ming.Leases.Server.{
  normalize, Holders, taken, conflict, hold, acquire, held_by, release_each, release,
}

get-hold :
    (task_id : String) (paths : List String) (holders : Holders) (p : String)
    → Dict.get (hold task_id paths holders) p
      ≡ (if contains paths p then some task_id else Dict.get holders p)
unfolding hold
get-hold task_id [] holders p = refl
get-hold task_id (q ∷ paths) holders p = ground (
  arith,
  get-hold task_id paths (Dict.put holders q task_id) p,
  get-put holders q task_id p,
  eq_iff q p,
  eq_iff p q,
)

get-release_each :
    (task_id : String) (paths : List String) (holders : Holders) (p : String)
    → Dict.get (release_each task_id paths holders) p ≡ (
        if contains paths p && held_by task_id (Dict.get holders p)
        then none
        else Dict.get holders p)
unfolding release_each
get-release_each task_id [] holders p = refl
get-release_each task_id (q ∷ paths) holders p =
    rw (get-release_each task_id paths _ p, get-remove_if (held_by task_id) holders q p)
      (ground arith)

conflict_lem :
    (task_id : String) (paths : List String) (holders : Holders) (p : String)
    → conflict task_id holders paths ≡ none
    → contains paths p ≡ true
    → taken task_id (Dict.get holders p) ≡ false
unfolding conflict
conflict_lem task_id [] holders p h m = cc
conflict_lem task_id (q ∷ paths) holders p h m = elim (Bool-cases (p == q)) [
  | inl same ↦ rw ((eq_iff p q).0 same) (ground (arith, h))
  | inr other ↦ conflict_lem task_id paths holders p (ground (arith, h)) (ground (arith, m, other))
]

conflict-taken :
    (task_id : String) (paths : List String) (holders : Holders) (p : String)
    → conflict task_id holders paths ≡ some p
    → (contains paths p ≡ true) × (taken task_id (Dict.get holders p) ≡ true)
unfolding conflict
conflict-taken task_id [] holders p h = absurd cc
conflict-taken task_id (q ∷ paths) holders p h =
    elim (Bool-cases (taken task_id (Dict.get holders q))) [
      | inl other ↦ ground (arith, other, h, eq_refl q)
      | inr free ↦
          let rest = conflict-taken task_id paths holders p (ground (arith, free, h)) in
          ground (arith, rest)
    ]

-- A lease request is granted exactly if no other task holds one of its paths; then the task holds
-- all of them and all other paths are held as before. If it is refused, some path of it is held by
-- another task, and nothing changes: no path is taken in part.
pub acquire_lem :
    (task_id : String) (paths : List String) (holders : Holders)
    → let normalized = map normalize paths in
      let after = acquire task_id paths holders in
      ((after.0.granted ≡ true)
        × ((p : String) → contains normalized p ≡ true → taken task_id (Dict.get holders p) ≡ false)
        × ((p : String)
            → Dict.get after.1 p
              ≡ (if contains normalized p then some task_id else Dict.get holders p)))
      ⊎ ((after.0.granted ≡ false)
          × (after.1 ≡ holders)
          × ((p : String) × (contains normalized p ≡ true)
              × (taken task_id (Dict.get holders p) ≡ true)))
unfolding acquire
acquire_lem task_id paths holders =
    let normalized = map normalize paths in
    elim (Option-cases (conflict task_id holders normalized)) [
      | inl free ↦ rw free (
          inl (
            refl,
            (λ p. conflict_lem task_id normalized holders p free),
            get-hold task_id normalized holders,
          ))
      | inr (p, found) ↦
          let (asked, held) = conflict-taken task_id normalized holders p found in
          rw found (inr (refl, refl, (p, asked, held)))
    ]

-- What a release leaves.
abbrev pub released : String → Option (List String) → String → Bool
released task_id none p = true
released task_id (some paths) p = contains (map normalize paths) p

-- A release frees exactly the paths that the task holds, all of them or those that it names, and
-- leaves the leases of other tasks alone.
pub get-release :
    (task_id : String) (paths : Option (List String)) (holders : Holders) (p : String)
    → Distinct holders
    → Dict.get (release task_id paths holders) p ≡ (
        if released task_id paths p && held_by task_id (Dict.get holders p)
        then none
        else Dict.get holders p)
unfolding release
get-release task_id none holders p h =
    rw (get-keep (λ v. not (v == task_id)) holders p h) (keep_others (Dict.get holders p))
  where
    keep_others :
        (o : Option String)
        → Dict.filter_value (λ v. not (v == task_id)) o ≡ (if held_by task_id o then none else o)
    keep_others none = refl
    keep_others (some v) = ground arith
get-release task_id (some paths) holders p h =
    get-release_each task_id (map normalize paths) holders p
