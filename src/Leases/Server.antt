-- ===== src/Leases/Server.antt =====
-- WriteLeaseServer of async_runtime/leases.py. Its lock makes each method one step.
pub mod Exclusion
pub mod Trace
pub mod Refinement
use xiao_ming.Prelude.{
  String, Bool, true, false, not, ◌&&◌, Option, none, some, List, [], ◌∷◌, map, ◌==◌, if◌then◌else◌,
  is_some, strip, replace_char, concat, keep,
}
use xiao_ming.Prelude.Dict
use xiao_ming.Prelude.Dict.{Dict}

-- _normalize
unfoldable pub normalize : String → String
normalize path = strip (replace_char "\\" "/" path)

pub record LeaseResult : Type 0 where
  pub granted : Bool
  pub reason : String

-- `_holders`: the task that holds each normalized path.
abbrev pub Holders : Type 0
Holders = Dict String

abbrev pub taken : String → Option String → Bool
taken task_id none = false
taken task_id (some holder) = not (holder == task_id)

-- The first path that another task holds.
unfoldable pub conflict : String → Holders → List String → Option String
conflict task_id holders [] = none
conflict task_id holders (path ∷ paths) =
    let rest = conflict task_id holders paths in
    if taken task_id (Dict.get holders path) then some path else rest

unfoldable pub hold : String → List String → Holders → Holders
hold task_id [] holders = holders
hold task_id (path ∷ paths) holders = hold task_id paths (Dict.put holders path task_id)

abbrev pub granting : Option String → String → List String → Holders → LeaseResult × Holders
granting none task_id normalized holders =
    (record { granted = true; reason = "" }, hold task_id normalized holders)
granting (some path) task_id normalized holders = (
  record { granted = false; reason = concat (path ∷ " is already leased by another task" ∷ []) },
  holders,
)

-- WriteLeaseServer.acquire
unfoldable pub acquire : String → List String → Holders → LeaseResult × Holders
acquire task_id paths holders =
    let normalized = map normalize paths in
    granting (conflict task_id holders normalized) task_id normalized holders

abbrev pub held_by : String → Option String → Bool
held_by task_id none = false
held_by task_id (some holder) = holder == task_id

unfoldable pub release_each : String → List String → Holders → Holders
release_each task_id [] holders = holders
release_each task_id (path ∷ paths) holders =
    release_each task_id paths
      (if held_by task_id (Dict.get holders path) then Dict.remove holders path else holders)

-- WriteLeaseServer.release
unfoldable pub release : String → Option (List String) → Holders → Holders
unfolding release_each
release task_id none holders = keep (λ e. not (e.1 == task_id)) holders
release task_id (some paths) holders = release_each task_id (map normalize paths) holders

-- The callback that WriteLeaseServer.callback_for returns.
unfoldable pub callback_for : String → String → List String → Holders → Bool × Holders
unfolding acquire
callback_for task_id tool_name paths holders =
    let (result, holders') = acquire task_id paths holders in (result.granted, holders')
