-- ===== src/Leases/Client.antt =====
-- FileWriteLeaseClient of async_runtime/leases.py: leases as files that the workers share.
pub mod Sharing
use xiao_ming.Prelude.{
  String, Bool, true, false, not, ◌&&◌, Option, none, some, List, [], ◌∷◌, ◌++◌, map, ◌==◌,
  if◌then◌else◌, concat, keep, contains,
}
use xiao_ming.Prelude.Dict
use xiao_ming.Prelude.Dict.{Dict}
use xiao_ming.Leases.Server.{normalize}

-- What is read from a lease file: its task, or none if it is no JSON.
abbrev pub Lease : Type 0
Lease = Option String

-- The lease directory by file name, and `_held` of one client.
pub record Client : Type 0 where
  pub files : Dict Lease
  pub held : List String

-- payload.get("task_id") == self.task_id of a file that may be missing or unreadable
abbrev pub owned : String → Option Lease → Bool
owned task_id (some (some owner)) = owner == task_id
owned task_id _ = false

-- _held_by_current_task
unfoldable pub held_by_current_task : String → Dict Lease → String → Bool
held_by_current_task task_id files lease_path = owned task_id (Dict.get files lease_path)

abbrev discard : String → List String → List String
discard lease_path held = keep (λ p. not (p == lease_path)) held

-- self._held.add
abbrev insert : String → List String → List String
insert lease_path held = if contains held lease_path then held else held ++ lease_path ∷ []

-- _release_paths
unfoldable pub release_paths : String → List String → Client → Client
unfolding held_by_current_task
release_paths task_id [] client = client
release_paths task_id (p ∷ paths) client = release_paths task_id paths (record {
  files =
      if held_by_current_task task_id client.files p
      then Dict.remove client.files p
      else client.files;
  held = discard p client.held;
})

-- The digest is sha256 of the UTF-8 text, in hexadecimal.
module _ (sha256 : String → String) (task_id : String) where
  -- _lease_path, by the file's name
  abbrev pub lease_path : String → String
  lease_path path = concat (sha256 (normalize path) ∷ ".json" ∷ [])

  -- The loop of acquire, over `acquired`. A missing file is created and written with the task's id.
  unfoldable pub acquire_from : List String → List String → Client → Bool × Client
  unfolding release_paths
  acquire_from acquired [] client = (true, client)
  acquire_from acquired (path ∷ paths) client =
      let p = lease_path path in
      elim (Dict.get client.files p) [
        | none ↦
            acquire_from (acquired ++ p ∷ []) paths (record {
              files = Dict.put client.files p (some task_id);
              held = insert p client.held;
            })
        | some lease ↦ elim (owned task_id (some lease)) [
          | true ↦ acquire_from (acquired ++ p ∷ []) paths client
          | false ↦ (false, release_paths task_id acquired client)
        ]
      ]

  -- FileWriteLeaseClient.acquire
  unfoldable pub acquire : List String → Client → Bool × Client
  unfolding acquire_from
  acquire paths client = acquire_from [] paths client

  -- FileWriteLeaseClient.release_all
  unfoldable pub release_all : Client → Client
  release_all client = release_paths task_id client.held client
