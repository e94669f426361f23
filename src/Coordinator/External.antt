-- ===== src/Coordinator/External.antt =====
-- The records of external sessions in async_runtime/external_sessions.py, and how they are saved.
use xiao_ming.Prelude.{String, Option, none, some, List, [], ◌∷◌, map, ◌==◌, if◌then◌else◌}
use xiao_ming.Json
use xiao_ming.Json.{Value, str, arr, obj, Fields, dict, of_list, to_list, Python, text_or}
use xiao_ming.Tasks.Spec.{dicts}

pub record ExternalSessionRecord : Type 0 where
  pub peer_id : String
  pub provider : String
  pub title : String
  pub workspace : String
  pub session_id : String
  pub status : String
  pub created_at : String
  pub updated_at : String

-- ExternalSessionRecord.to_dict
unfoldable pub session_to_dict : ExternalSessionRecord → Fields
session_to_dict r = dict (
    ("peer_id", str r.peer_id)
    ∷ ("provider", str r.provider)
    ∷ ("title", str r.title)
    ∷ ("workspace", str r.workspace)
    ∷ ("session_id", str r.session_id)
    ∷ ("status", str r.status)
    ∷ ("created_at", str r.created_at)
    ∷ ("updated_at", str r.updated_at)
    ∷ [])

-- ExternalSessionRecord.from_dict, at a time
unfoldable pub session_from_dict : Python → String → Fields → ExternalSessionRecord
session_from_dict python now fields = record {
  peer_id = text_or python (Json.get fields "peer_id") "";
  provider = text_or python (Json.get fields "provider") "";
  title = text_or python (Json.get fields "title") "";
  workspace = text_or python (Json.get fields "workspace") "";
  session_id = text_or python (Json.get fields "session_id") "";
  status = text_or python (Json.get fields "status") "active";
  created_at = text_or python (Json.get fields "created_at") now;
  updated_at = text_or python (Json.get fields "updated_at") now;
}

abbrev usable : List ExternalSessionRecord → List ExternalSessionRecord
usable [] = []
usable (r ∷ records) =
    let rest = usable records in
    if r.peer_id == "" then rest else if r.provider == "" then rest else r ∷ rest

-- ExternalSessionStore.load, of the text of the file if it exists
unfoldable pub load_sessions : Python → String → Option String → List ExternalSessionRecord
unfolding session_from_dict dicts
load_sessions python now none = []
load_sessions python now (some file) = elim (python.loads file) [
  | some (arr items) ↦ usable (map (session_from_dict python now) (dicts (to_list items)))
  | _ ↦ []
]

-- ExternalSessionStore.save: the value of the file
unfoldable pub save_sessions : List ExternalSessionRecord → Value
unfolding session_to_dict
save_sessions records = arr (of_list (map (λ r. obj (session_to_dict r)) records))
