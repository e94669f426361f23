-- ===== src/Leases/Server/Trace.antt =====
-- WriteLeaseServer under interleaved calls of several tasks.
use xiao_ming.Prelude.{
  String, true, false, not, Option, none, some, List, [], ◌∷◌, map, ◌==◌, ◌≡◌, arith, eq_iff,
  contains, Bool-cases, inl, inr, All,
}
use xiao_ming.Prelude.Dict
use xiao_ming.Prelude.Dict.{Dict, Distinct, put-Distinct, remove-Distinct, keep-Distinct}
use xiao_ming.Leases.Server.{
  normalize, Holders, conflict, hold, granting, acquire, held_by, release_each, release,
}
use xiao_ming.Leases.Server.Exclusion.{acquire_lem, get-release}

-- A call of the server.
pub data Call : Type 0 where
  acquiring : String → List String → Call
  releasing : String → Option (List String) → Call

abbrev pub caller : Call → String
caller (acquiring task_id paths) = task_id
caller (releasing task_id paths) = task_id

abbrev pub serve : Call → Holders → Holders
serve (acquiring task_id paths) holders = (acquire task_id paths holders).1
serve (releasing task_id paths) holders = release task_id paths holders

abbrev pub serve_all : List Call → Holders → Holders
serve_all [] holders = holders
serve_all (call ∷ calls) holders = serve_all calls (serve call holders)

hold-Distinct :
    (task_id : String) (paths : List String) (holders : Holders)
    → Distinct holders
    → Distinct (hold task_id paths holders)
unfolding hold
hold-Distinct task_id [] holders h = h
hold-Distinct task_id (p ∷ paths) holders h =
    hold-Distinct task_id paths _ (put-Distinct holders p task_id h)

release_each-Distinct :
    (task_id : String) (paths : List String) (holders : Holders)
    → Distinct holders
    → Distinct (release_each task_id paths holders)
unfolding release_each
release_each-Distinct task_id [] holders h = h
release_each-Distinct task_id (p ∷ paths) holders h =
    elim (Bool-cases (held_by task_id (Dict.get holders p))) [
      | inl held ↦ rw held (release_each-Distinct task_id paths _ (remove-Distinct holders p h))
      | inr free ↦ rw free (release_each-Distinct task_id paths holders h)
    ]

granting-Distinct :
    (o : Option String) (task_id : String) (paths : List String) (holders : Holders)
    → Distinct holders
    → Distinct (granting o task_id paths holders).1
granting-Distinct none task_id paths holders h = hold-Distinct task_id paths holders h
granting-Distinct (some p) task_id paths holders h = h

pub serve-Distinct :
    (call : Call) (holders : Holders) → Distinct holders → Distinct (serve call holders)
unfolding acquire release
serve-Distinct (acquiring task_id paths) holders h =
    granting-Distinct (conflict task_id holders (map normalize paths)) task_id (map normalize paths)
      holders h
serve-Distinct (releasing task_id none) holders h =
    keep-Distinct (λ v. not (v == task_id)) holders h
serve-Distinct (releasing task_id (some paths)) holders h =
    release_each-Distinct task_id (map normalize paths) holders h

module _ (task_id p : String) where
  -- A call of another task leaves a path that the task holds with the task.
  serve-other :
      (call : Call) (holders : Holders)
      → Distinct holders
      → (caller call == task_id) ≡ false
      → Dict.get holders p ≡ some task_id
      → Dict.get (serve call holders) p ≡ some task_id
  serve-other (acquiring other paths) holders d o h = elim (acquire_lem other paths holders) [
    | inl (granted, free, after) ↦ elim (Bool-cases (contains (map normalize paths) p)) [
      | inl asked ↦
          absurd (ground (arith, free p asked, h, o, eq_iff other task_id, eq_iff task_id other))
      | inr not_asked ↦ rw (after p, not_asked) h
    ]
    | inr (refused, same, _) ↦ rw same h
  ]
  serve-other (releasing other paths) holders d o h =
      rw (get-release other paths holders p d, h)
        (ground (arith, o, eq_iff other task_id, eq_iff task_id other))

  serve_all-other :
      (calls : List Call) (holders : Holders)
      → Distinct holders
      → All (λ call. (caller call == task_id) ≡ false) calls
      → Dict.get holders p ≡ some task_id
      → Dict.get (serve_all calls holders) p ≡ some task_id
  serve_all-other [] holders d o h = h
  serve_all-other (call ∷ calls) holders d o h =
      serve_all-other calls (serve call holders) (serve-Distinct call holders d) o.1
        (serve-other call holders d o.0 h)

-- From a server whose table holds no path twice: once a request of a task is granted, and for as
-- long as only other tasks call the server, whatever they ask for and release, the task keeps each
-- of the requested paths, and every request of another task that names one of them is refused.
pub acquire-serve_all-acquire :
    (holders : Holders) (task_id : String) (paths : List String) (calls : List Call)
    (other : String) (wanted : List String) (p : String)
    → Distinct holders
    → (acquire task_id paths holders).0.granted ≡ true
    → All (λ call. (caller call == task_id) ≡ false) calls
    → (other == task_id) ≡ false
    → contains (map normalize paths) p ≡ true
    → contains (map normalize wanted) p ≡ true
    → let later = serve_all calls (acquire task_id paths holders).1 in
      (Dict.get later p ≡ some task_id) × ((acquire other wanted later).0.granted ≡ false)
acquire-serve_all-acquire holders task_id paths calls other wanted p d granted others o asked want =
    let first = (acquire task_id paths holders).1 in
    let later = serve_all calls first in
    let at_first : Dict.get first p ≡ some task_id = elim (acquire_lem task_id paths holders) [
      | inl (_, _, after) ↦ rw (after p, asked)
      | inr (refused, _, _) ↦ absurd cc
    ] in
    let held =
      serve_all-other task_id p calls first (serve-Distinct (acquiring task_id paths) holders d)
        others at_first in
    (
      held,
      elim (acquire_lem other wanted later) [
        | inl (_, free, _) ↦
            absurd
              (ground (arith, free p want, held, o, eq_iff other task_id, eq_iff task_id other))
        | inr (refused, _, _) ↦ refused
      ],
    )
