-- ===== src/Leases/Server/Refinement.antt =====
-- WriteLeaseServer as an implementation of a function from paths to the tasks that hold them.
use mathlib.Core.Path.{fun_ext}
use xiao_ming.Prelude.{
  String, Bool, true, false, ◌&&◌, ◌≡◌, sym, Option, none, some, List, [], ◌∷◌, map, contains,
  if◌then◌else◌, inl, inr, subst,
}
use xiao_ming.Prelude.Dict
use xiao_ming.Prelude.Dict.{Dict, Distinct}
use xiao_ming.Leases.Server.{normalize, Holders, taken, acquire, held_by}
use xiao_ming.Leases.Server.Exclusion.{acquire_lem, released, get-release}
use xiao_ming.Leases.Server.Trace.{Call, acquiring, releasing, serve, serve_all, serve-Distinct}

-- What the callers see of the leases: the task that holds a path, if one does.
abbrev pub Owners : Type 0
Owners = String → Option String

abbrev pub owners : Holders → Owners
owners holders path = Dict.get holders path

-- What a caller may be answered, and what the leases are then: a request is granted whole if no other
-- task holds a path of it, and refused only if one does, with nothing changed; a release frees what the
-- caller holds of what it names.
pub data Allowed : Call → Owners → Bool → Owners → Type 0 where
  granted :
      (task_id : String) (paths : List String) (before : Owners)
      → ((p : String) → contains (map normalize paths) p ≡ true → taken task_id (before p) ≡ false)
      → Allowed
          (acquiring task_id paths)
          before
          true
          (λ p. if contains (map normalize paths) p then some task_id else before p)
  refused :
      (task_id : String) (paths : List String) (before : Owners) (p : String)
      → contains (map normalize paths) p ≡ true
      → taken task_id (before p) ≡ true
      → Allowed (acquiring task_id paths) before false before
  freed :
      (task_id : String) (paths : Option (List String)) (before : Owners)
      → Allowed
          (releasing task_id paths)
          before
          true
          (λ p. if released task_id paths p && held_by task_id (before p) then none else before p)

-- A sequence of calls with their answers.
pub data Run : Owners → List (Call × Bool) → Owners → Type 0 where
  done : (before : Owners) → Run before [] before
  next :
      (call : Call) (answer : Bool) (before between after : Owners) (calls : List (Call × Bool))
      → Allowed call before answer between
      → Run between calls after
      → Run before ((call, answer) ∷ calls) after

-- The server's answer to a call; a release has none that could fail.
abbrev pub answer : Call → Holders → Bool
answer (acquiring task_id paths) holders = (acquire task_id paths holders).0.granted
answer (releasing task_id paths) holders = true

abbrev pub answers : List Call → Holders → List (Call × Bool)
answers [] holders = []
answers (call ∷ calls) holders = (call, answer call holders) ∷ answers calls (serve call holders)

acquire-Allowed :
    (task_id : String) (paths : List String) (holders : Holders)
    → Allowed
        (acquiring task_id paths)
        (owners holders)
        (acquire task_id paths holders).0.granted
        (owners (acquire task_id paths holders).1)
acquire-Allowed task_id paths holders = elim (acquire_lem task_id paths holders) [
  | inl (yes_granted, free, now) ↦
      subst
        (λ b.
          Allowed (acquiring task_id paths) (owners holders) b
            (owners (acquire task_id paths holders).1))
        (sym yes_granted)
        (subst (Allowed (acquiring task_id paths) (owners holders) true) (sym (fun_ext now))
          (granted task_id paths (owners holders) free))
  | inr (not_granted, same, (p, asked, held)) ↦
      subst
        (λ b.
          Allowed (acquiring task_id paths) (owners holders) b
            (owners (acquire task_id paths holders).1))
        (sym not_granted)
        (subst (λ h. Allowed (acquiring task_id paths) (owners holders) false (owners h)) (sym same)
          (refused task_id paths (owners holders) p asked held))
]

serve-Allowed :
    (call : Call) (holders : Holders)
    → Distinct holders
    → Allowed call (owners holders) (answer call holders) (owners (serve call holders))
serve-Allowed (acquiring task_id paths) holders h = acquire-Allowed task_id paths holders
serve-Allowed (releasing task_id paths) holders h =
    subst (Allowed (releasing task_id paths) (owners holders) true)
      (sym (fun_ext (λ p. get-release task_id paths holders p h)))
      (freed task_id paths (owners holders))

-- The server refines the function from paths to holders: from a table that holds no path twice, the
-- answers to any sequence of calls of any tasks, and the leases after it, are allowed, call by call.
pub serve_all-Run :
    (calls : List Call) (holders : Holders)
    → Distinct holders
    → Run (owners holders) (answers calls holders) (owners (serve_all calls holders))
serve_all-Run [] holders h = done (owners holders)
serve_all-Run (call ∷ calls) holders h =
    next call (answer call holders) (owners holders) (owners (serve call holders))
      (owners (serve_all calls (serve call holders))) (answers calls (serve call holders))
      (serve-Allowed call holders h)
      (serve_all-Run calls (serve call holders) (serve-Distinct call holders h))
