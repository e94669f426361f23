-- ===== src/Coordinator/Events.antt =====
-- async_runtime/events.py: what the workers report, as JSON; and the messages of async_runtime/protocol.py.
pub mod RoundTrip
use xiao_ming.Prelude.{
  String, Option, none, some, List, [], ◌∷◌, ◌==◌, if◌then◌else◌, Result, ok, error, ◌>>=◌, concat,
}
use xiao_ming.Json
use xiao_ming.Json.{Value, str, obj, null, Fields, end, dict, Python, text, text_or, truthy}

pub data QuestionKind : Type 0 where
  approval_request clarification_request decision_request : QuestionKind

pub data WorkerEventKind : Type 0 where
  started heartbeat progress assistant_delta tool_started tool_finished : WorkerEventKind
  asks : QuestionKind → WorkerEventKind
  reported completed peer_reply failed cancelled : WorkerEventKind

pub record Question : Type 0 where
  pub task_id : String
  pub kind : QuestionKind
  pub prompt : String
  pub request_id : String
  pub purpose : String
  pub context : String
  pub options : List String

pub record WorkerEvent : Type 0 where
  pub task_id : String
  pub kind : WorkerEventKind
  pub message : String
  pub data_fields : Fields

abbrev pub event_kind_text : WorkerEventKind → String
event_kind_text started = "started"
event_kind_text heartbeat = "heartbeat"
event_kind_text progress = "progress"
event_kind_text assistant_delta = "assistant_delta"
event_kind_text tool_started = "tool_started"
event_kind_text tool_finished = "tool_finished"
event_kind_text (asks approval_request) = "approval_request"
event_kind_text (asks clarification_request) = "clarification_request"
event_kind_text (asks decision_request) = "decision_request"
event_kind_text reported = "reported"
event_kind_text completed = "completed"
event_kind_text peer_reply = "peer_reply"
event_kind_text failed = "failed"
event_kind_text cancelled = "cancelled"

abbrev find_kind : List WorkerEventKind → String → Result WorkerEventKind
find_kind [] s = error s
find_kind (k ∷ kinds) s =
    let rest = find_kind kinds s in if event_kind_text k == s then ok k else rest

-- The kind of a text. Python keeps any value as the kind; a text that is none of WorkerEventKind, which
-- no worker sends, is an error here.
unfoldable pub event_kind_of : String → Result WorkerEventKind
event_kind_of s =
    find_kind
      (started
        ∷ heartbeat
        ∷ progress
        ∷ assistant_delta
        ∷ tool_started
        ∷ tool_finished
        ∷ asks approval_request
        ∷ asks clarification_request
        ∷ asks decision_request
        ∷ reported
        ∷ completed
        ∷ peer_reply
        ∷ failed
        ∷ cancelled
        ∷ [])
      s

-- payload[key]
abbrev required : Fields → String → Result Value
required payload key = elim (Json.get payload key) [ none ↦ error key | some v ↦ ok v ]

-- dict(payload.get("data") or {}), of a dict
abbrev pub dict_or_empty : Option Value → Fields
dict_or_empty (some (obj fields)) = fields
dict_or_empty _ = end

-- WorkerEvent.from_json
unfoldable pub event_from_json : Python → Fields → Result WorkerEvent
unfolding event_kind_of
event_from_json python payload = do
  task_id ← required payload "task_id"
  kind_value ← required payload "kind"
  kind ← event_kind_of (text python kind_value)
  ok (record {
    task_id = text python task_id;
    kind = kind;
    message = text_or python (Json.get payload "message") "";
    data_fields = dict_or_empty (Json.get payload "data");
  })

-- WorkerEvent.to_json
unfoldable pub event_to_json : WorkerEvent → Fields
event_to_json event = dict (
    ("task_id", str event.task_id)
    ∷ ("kind", str (event_kind_text event.kind))
    ∷ ("message", str event.message)
    ∷ ("data", obj event.data_fields)
    ∷ [])

-- decode_message of protocol.py: an error is its ProtocolError
unfoldable pub decode_message : Python → String → Result Fields
decode_message python line = elim (python.loads line) [
  | none ↦ error "not JSON"
  | some (obj fields) ↦ elim (Json.get fields "kind") [
    | some (str kind) ↦ ok fields
    | _ ↦ error "protocol message must include string kind"
  ]
  | _ ↦ error "protocol message must be a JSON object"
]
