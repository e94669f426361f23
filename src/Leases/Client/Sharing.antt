-- ===== src/Leases/Client/Sharing.antt =====
-- FileWriteLeaseClient: what a request leaves of the shared lease files.
use xiao_ming.Prelude.{
  String, Bool, true, false, not, ◌&&◌, ◌||◌, Option, none, some, List, [], ◌∷◌, ◌++◌, map, ◌==◌,
  ◌≡◌, refl, arith, eq_iff, eq_refl, if◌then◌else◌, contains, Bool-cases, Option-cases, inl, inr,
  All, is_some, ◌∙◌,
}
use mathlib.Core.List.{append-nil, append_assoc}
use xiao_ming.Prelude.Dict
use xiao_ming.Prelude.Dict.{Dict, get-put, get-remove_if}
use xiao_ming.Leases.Client.{
  Lease, Client, owned, release_paths, lease_path, acquire_from, acquire, release_all,
}

-- What is read at a file name after the files of a list are released.
get-release_paths :
    (task_id : String) (paths : List String) (client : Client) (p : String)
    → Dict.get (release_paths task_id paths client).files p ≡ (
        if contains paths p && owned task_id (Dict.get client.files p)
        then none
        else Dict.get client.files p)
unfolding release_paths
get-release_paths task_id [] client p = refl
get-release_paths task_id (q ∷ paths) client p =
    rw (get-release_paths task_id paths _ p, get-remove_if (owned task_id) client.files q p)
      (ground arith)

-- The file is there and another task's, or unreadable.
abbrev pub foreign : String → Option Lease → Bool
foreign task_id none = false
foreign task_id (some lease) = not (owned task_id (some lease))

contains-snoc :
    (xs : List String) (x q : String) → contains (xs ++ x ∷ []) q ≡ (contains xs q || q == x)
contains-snoc [] x q = ground arith
contains-snoc (y ∷ xs) x q = ground (arith, contains-snoc xs x q)

contains-append :
    (xs ys : List String) (q : String) → contains (xs ++ ys) q ≡ (contains xs q || contains ys q)
contains-append [] ys q = refl
contains-append (y ∷ xs) ys q = ground (arith, contains-append xs ys q)

module _ (sha256 : String → String) (task_id : String) where
  abbrev pub file_of : String → String
  file_of path = lease_path sha256 task_id path

  abbrev Owns : List String → Dict Lease → Type 0
  Owns acquired files =
      (q : String) → contains acquired q ≡ true → owned task_id (Dict.get files q) ≡ true

  abbrev pub Free : List String → Dict Lease → Type 0
  Free paths files = All (λ b. foreign task_id (Dict.get files (file_of b)) ≡ false) paths

  -- The state after the loop has made a new lease file.
  abbrev made : Client → String → Client
  made client b = record {
    files = Dict.put client.files (file_of b) (some task_id);
    held = if contains client.held (file_of b) then client.held else client.held ++ file_of b ∷ [];
  }

  step-none :
      (acquired paths : List String) (b : String) (client : Client)
      → Dict.get client.files (file_of b) ≡ none
      → acquire_from sha256 task_id acquired (b ∷ paths) client
        ≡ acquire_from sha256 task_id (acquired ++ file_of b ∷ []) paths (made client b)
  unfolding acquire_from
  step-none acquired paths b client h = rw (h, acquire_from)

  step-owned :
      (acquired paths : List String) (b : String) (client : Client)
      → owned task_id (Dict.get client.files (file_of b)) ≡ true
      → acquire_from sha256 task_id acquired (b ∷ paths) client
        ≡ acquire_from sha256 task_id (acquired ++ file_of b ∷ []) paths client
  unfolding acquire_from
  step-owned acquired paths b client h = ground (arith, h)

  step-foreign :
      (acquired paths : List String) (b : String) (client : Client)
      → foreign task_id (Dict.get client.files (file_of b)) ≡ true
      → acquire_from sha256 task_id acquired (b ∷ paths) client
        ≡ (false, release_paths task_id acquired client)
  unfolding acquire_from
  step-foreign acquired paths b client h = ground (arith, h)

  get-made :
      (client : Client) (b q : String)
      → Dict.get (made client b).files q
        ≡ (if file_of b == q then some (some task_id) else Dict.get client.files q)
  get-made client b q = get-put client.files (file_of b) (some task_id) q

  -- The state after the loop has passed a file that is not foreign.
  abbrev pass : Client → String → Client
  pass client b = if is_some (Dict.get client.files (file_of b)) then client else made client b

  get-pass :
      (client : Client) (b q : String)
      → Dict.get (pass client b).files q ≡ (
          if (q == file_of b) && not (is_some (Dict.get client.files q))
          then some (some task_id)
          else Dict.get client.files q)
  get-pass client b q = elim (Bool-cases (q == file_of b)) [
    | inl same ↦
        rw ((eq_iff q (file_of b)).0 same)
          (ground (arith, get-made client b (file_of b), eq_refl (file_of b)))
    | inr other ↦
        ground (arith, other, get-made client b q, eq_iff q (file_of b), eq_iff (file_of b) q)
  ]

  advance : List String → Client → Client
  advance [] client = client
  advance (b ∷ before) client = advance before (pass client b)

  get-advance :
      (before : List String) (client : Client) (q : String)
      → Dict.get (advance before client).files q ≡ (
          if contains (map file_of before) q && not (is_some (Dict.get client.files q))
          then some (some task_id)
          else Dict.get client.files q)
  unfolding advance
  get-advance [] client q = refl
  get-advance (b ∷ before) client q =
      rw (get-advance before (pass client b) q, get-pass client b q) (ground arith)

  step-pass :
      (acquired paths : List String) (b : String) (client : Client)
      → foreign task_id (Dict.get client.files (file_of b)) ≡ false
      → acquire_from sha256 task_id acquired (b ∷ paths) client
        ≡ acquire_from sha256 task_id (acquired ++ file_of b ∷ []) paths (pass client b)
  step-pass acquired paths b client h = elim (Option-cases (Dict.get client.files (file_of b))) [
    | inl missing ↦ step-none acquired paths b client missing ∙ rw missing
    | inr (lease, there) ↦ step-owned acquired paths b client (ground (arith, there, h)) ∙ rw there
  ]

  pass-Free :
      (paths : List String) (b : String) (client : Client)
      → Free paths client.files
      → Free paths (pass client b).files
  pass-Free [] b client h = tt
  pass-Free (p ∷ paths) b client h = (
    rw (get-pass client b (file_of p)) (ground (arith, h.0, eq_refl task_id)),
    pass-Free paths b client h.1,
  )

  acquire_from-advance :
      (before acquired rest : List String) (client : Client)
      → Free before client.files
      → acquire_from sha256 task_id acquired (before ++ rest) client
        ≡ acquire_from sha256 task_id (acquired ++ map file_of before) rest (advance before client)
  unfolding advance
  acquire_from-advance [] acquired rest client h = rw (append-nil acquired)
  acquire_from-advance (b ∷ before) acquired rest client h =
      step-pass acquired (before ++ rest) b client h.0
      ∙ acquire_from-advance before (acquired ++ file_of b ∷ []) rest (pass client b)
          (pass-Free before b client h.1)
      ∙ rw (append_assoc acquired (file_of b ∷ []) (map file_of before))

  Free-contains :
      (paths : List String) (files : Dict Lease) (q : String)
      → Free paths files
      → contains (map file_of paths) q ≡ true
      → foreign task_id (Dict.get files q) ≡ false
  Free-contains [] files q h m = absurd cc
  Free-contains (b ∷ paths) files q h m = elim (Bool-cases (q == file_of b)) [
    | inl same ↦ rw ((eq_iff q (file_of b)).0 same) h.0
    | inr other ↦ Free-contains paths files q h.1 (ground (arith, m, other))
  ]

  acquire-refused :
      (client : Client) (before : List String) (path : String) (rest : List String)
      → Free before client.files
      → foreign task_id (Dict.get client.files (file_of path)) ≡ true
      → acquire sha256 task_id (before ++ path ∷ rest) client
        ≡ (false, release_paths task_id (map file_of before) (advance before client))
  unfolding acquire
  acquire-refused client before path rest free other =
      acquire_from-advance before [] (path ∷ rest) client free
      ∙ step-foreign (map file_of before) rest path (advance before client)
          (rw (get-advance before client (file_of path)) (ground (arith, other)))

  -- What a request leaves in the lease files.
  abbrev pub Leaves : Bool → (String → Option Lease) → Bool × Client → Type 0
  Leaves result files after =
      (after.0 ≡ result) × ((q : String) → Dict.get after.1.files q ≡ files q)

  -- At the first file that another task has, or that cannot be read, a request is refused, and what is
  -- left of the files is what there was, without the files of the paths before it: also those that the
  -- task had before the request.
  pub acquire-foreign-Leaves :
      (client : Client) (before : List String) (path : String) (rest : List String)
      → Free before client.files
      → foreign task_id (Dict.get client.files (file_of path)) ≡ true
      → Leaves false
          (λ q. if contains (map file_of before) q then none else Dict.get client.files q)
          (acquire sha256 task_id (before ++ path ∷ rest) client)
  acquire-foreign-Leaves client before path rest free other =
      rw (acquire-refused client before path rest free other) (
        refl,
        (λ q.
            rw
              (
                get-release_paths task_id (map file_of before) (advance before client) q,
                get-advance before client q,
              )
              (ground (arith, Free-contains before client.files q free, eq_refl task_id))),
      )

module _ (sha256 : String → String) (task_id q : String) where
  release-foreign :
      (paths : List String) (c : Client)
      → foreign task_id (Dict.get c.files q) ≡ true
      → Dict.get (release_paths task_id paths c).files q ≡ Dict.get c.files q
  release-foreign paths c other = rw (get-release_paths task_id paths c q) (ground (arith, other))

  acquire_from-foreign :
      (paths acquired : List String) (c : Client)
      → foreign task_id (Dict.get c.files q) ≡ true
      → Dict.get (acquire_from sha256 task_id acquired paths c).1.files q ≡ Dict.get c.files q
  unfolding acquire_from
  acquire_from-foreign [] acquired c other = refl
  acquire_from-foreign (b ∷ paths) acquired c other =
      elim (Bool-cases (foreign task_id (Dict.get c.files (lease_path sha256 task_id b)))) [
        | inl taken ↦
            rw (step-foreign sha256 task_id acquired paths b c taken)
              (release-foreign acquired c other)
        | inr free ↦
            let kept : Dict.get (pass sha256 task_id c b).files q ≡ Dict.get c.files q =
              rw (get-pass sha256 task_id c b q) (ground (arith, other)) in
            rw (step-pass sha256 task_id acquired paths b c free) (
              acquire_from-foreign paths (acquired ++ lease_path sha256 task_id b ∷ [])
                (pass sha256 task_id c b) (rw kept other)
              ∙ kept)
      ]

  -- Whatever a client does, a lease file that another task has keeps that task's name, and one that
  -- is unreadable stays as it is: no request and no release of a task overwrites or removes it.
  pub foreign_kept :
      (client : Client)
      → foreign task_id (Dict.get client.files q) ≡ true
      → ((paths : List String)
          → Dict.get (acquire sha256 task_id paths client).1.files q ≡ Dict.get client.files q)
        × (Dict.get (release_all sha256 task_id client).files q ≡ Dict.get client.files q)
  unfolding acquire release_all
  foreign_kept client other = (
    (λ paths. acquire_from-foreign paths [] client other),
    release-foreign client.held client other,
  )
